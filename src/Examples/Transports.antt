-- ===== src/Examples/Transports.antt =====
-- Runs of the WebSocket transport.
use quantum_bunker.Base.{String, ◌≡◌, refl, false, Option, some, nat_eq, string_eq, ℕ_discrete, ◌⊎◌}
use quantum_bunker.Base.Dict.{lookup}
use quantum_bunker.Server.Transport.{WsState}
use quantum_bunker.Server.Transport.Join.{enter}
use quantum_bunker.Server.Transport.Messages.{frame, on_relay}
use quantum_bunker.Server.Transport.Lifecycle.{handle_close, delete_session}
use quantum_bunker.Server.Transport.Reconnect.{handle_close_after_reconnect}
use quantum_bunker.Server.Transport.Senders.{Speaks, on_relay_sender}
use quantum_bunker.Examples.Values.{net, state, vault, client_of, hello}

handle_close_after_reconnect_example :
    handle_close net 2 (enter net 3 0 vault "bob" false false state)
    ≡ enter net 3 0 vault "bob" false false state
unfolding lookup ℕ_discrete
handle_close_after_reconnect_example =
    handle_close_after_reconnect net net 3 2 0 vault "bob" false false (client_of "bob") state refl
      refl refl refl

abbrev deleted_by : Option String → WsState
deleted_by token = (delete_session net "vault" token state).1

-- Bob sends an envelope in the host's name.
on_relay_sender_example :
    ((on_relay net 2 (client_of "bob") (frame (some hello)) state).relay ≡ state.relay)
    ⊎ Speaks net (client_of "bob") (frame (some hello)) state
on_relay_sender_example = on_relay_sender net 2 (client_of "bob") (frame (some hello)) state

-- ===== src/Examples/Routes.antt =====
-- Runs of the routes on sessions.
use quantum_bunker.Base.{◌≡◌, [], none, some, string_eq}
use quantum_bunker.Server.Store.{Store}
use quantum_bunker.Server.Create.{CreateSessionOptions, existing_session, given_id}
use quantum_bunker.Server.Routes.{RefreshHeaders, refresh_session, post_session, joined_existing}
use quantum_bunker.Server.Routes.Credentials.{post_session_existing}
use quantum_bunker.Examples.Values.{vault, opened}
use quantum_bunker.Examples.Stores.{opened-Wf, opened-get, opened-deref, fresh_ids}

abbrev host_headers : RefreshHeaders
host_headers = record { peer_id = none; host_token = some "secret"; peer_token = none }

abbrev refreshed_store : Store
refreshed_store = (refresh_session (λ t. t) 70 host_headers " vault" opened).1

-- A guess of the id of an open vault.
abbrev guess : CreateSessionOptions
guess = record {
  expires_in_seconds = none;
  name = none;
  host_public_key = none;
  id = some "vault";
  max_peers = none;
}

guess_hits : existing_session (given_id guess.id) opened ≡ some 0
unfolding string_eq
guess_hits = opened-get

post_session_existing_example :
    post_session guess 7 fresh_ids opened ≡ (joined_existing vault.id vault.expires_at, opened, [])
post_session_existing_example =
    post_session_existing guess 7 fresh_ids opened 0 vault opened-Wf guess_hits opened-deref

-- ===== src/Server/Transport/Reconnect.antt =====
-- ws.transport.ts: a peer reconnects before its old socket closes.
use quantum_bunker.Base.{
  ℕ, String, Bool, false, List, [], ◌∷◌, Option, some, ◌≡◌, refl, ◌∙◌, ap, arith, nat_eq, string_eq,
  ◌==◌, Option-cases, inl, inr,
}
use quantum_bunker.Base.Dict.{lookup, lookup-insert}
use quantum_bunker.Server.Session.{Session}
use quantum_bunker.Server.Transport.{
  Net, WsState, Client, OutFrame, conn_key, safe_send, say, put, persist, bind_client,
  register_connection, joined, peer_update, connected_peers,
}
use quantum_bunker.Server.Transport.Slots.{
  admit_peer, admitted_peers, send_each, broadcast_peer_update,
}
use quantum_bunker.Server.Transport.Join.{enter}
use quantum_bunker.Server.Transport.Lifecycle.{handle_close, close_bound}
use quantum_bunker.Server.Transport.Frame.{joined_peers}

-- What writing to sockets leaves alone.
abbrev pub SameSockets : WsState → WsState → Type 0
SameSockets st st' =
    (st'.connections ≡ st.connections)
    × (st'.clients ≡ st.clients)
    × (st'.session_peers ≡ st.session_peers)

pub safe_send-SameSockets :
    (net : Net) (ws : Option ℕ) (f : OutFrame) (st : WsState)
    → SameSockets st (safe_send net ws f st).1
unfolding safe_send
safe_send-SameSockets net ws f st = ground arith

send_each-SameSockets :
    (net : Net) (sid : String) (f : OutFrame) (ps : List String) (st : WsState)
    → SameSockets st (send_each net sid f ps st)
unfolding send_each
send_each-SameSockets net sid f [] st = (refl, refl, refl)
send_each-SameSockets net sid f (p ∷ ps) st =
    let socket = lookup (conn_key sid p) st.connections in
    let (a, b, c) = send_each-SameSockets net sid f ps (safe_send net socket f st).1 in
    let (x, y, z) = safe_send-SameSockets net socket f st in (a ∙ x, b ∙ y, c ∙ z)

pub broadcast_peer_update-SameSockets :
    (net : Net) (o : Session) (st : WsState) → SameSockets st (broadcast_peer_update net o st)
unfolding broadcast_peer_update
broadcast_peer_update-SameSockets net o st =
    let peers = admitted_peers (connected_peers o.id st) o in
    send_each-SameSockets net o.id (peer_update peers o.is_group) peers st

enter-SameSockets :
    (net : Net) (ws r : ℕ) (o : Session) (pid : String) (h m : Bool) (st : WsState)
    → SameSockets
        (register_connection o.id pid ws (bind_client ws o.id pid st))
        (enter net ws r o pid h m st)
unfolding enter
enter-SameSockets net ws r o pid h m st =
    let st₁ = register_connection o.id pid ws (bind_client ws o.id pid st) in
    let (token, o') = admit_peer net.now net.new_token (joined_peers ws o pid st) o pid in
    elim (Option-cases token) [
      | inl full ↦ rw (full, enter) (refl, refl, refl)
      | inr (t, seated) ↦
          rw (seated, enter)
            (broadcast_peer_update-SameSockets net o'
              (say ws (joined o.id pid h t m) (persist r (put r o' st₁))))
    ]

lookup-bind_client :
    (ws old : ℕ) (sid pid : String) (st : WsState)
    → (old == ws) ≡ false
    → lookup old (bind_client ws sid pid st).clients ≡ lookup old st.clients
unfolding bind_client
lookup-bind_client ws old sid pid st other = elim (Option-cases (lookup ws st.clients)) [
  | inl absent ↦ rw (absent, bind_client)
  | inr (c, here) ↦ ground (
    arith,
    lookup-insert old ws (record c { peer_id = some pid; session_id = some sid }) st.clients,
  )
]

handle_close_of_other :
    (net : Net) (old ws : ℕ) (c : Client) (sid pid : String) (st : WsState)
    → lookup old st.clients ≡ some c
    → c.peer_id ≡ some pid
    → c.session_id ≡ some sid
    → lookup (conn_key sid pid) st.connections ≡ some ws
    → (old == ws) ≡ false
    → handle_close net old st ≡ st
unfolding handle_close close_bound
handle_close_of_other net old ws c sid pid st here peer session key other = ground arith

-- Once a peer has entered by a new socket, the close of its old socket, which comes later, changes
-- nothing: the new connection, the presence and the session stay.
pub handle_close_after_reconnect :
    (net net' : Net) (ws old r : ℕ) (o : Session) (pid : String) (h m : Bool) (c : Client)
    (st : WsState)
    → (old == ws) ≡ false
    → lookup old st.clients ≡ some c
    → c.peer_id ≡ some pid
    → c.session_id ≡ some o.id
    → handle_close net' old (enter net ws r o pid h m st) ≡ enter net ws r o pid h m st
unfolding register_connection
handle_close_after_reconnect net net' ws old r o pid h m c st other here peer session =
    let (connections, clients, _) = enter-SameSockets net ws r o pid h m st in
    handle_close_of_other net' old ws c o.id pid (enter net ws r o pid h m st)
      (ap (lookup old) clients ∙ lookup-bind_client ws old o.id pid st other ∙ here) peer session
      (ap (lookup (conn_key o.id pid)) connections
        ∙ ground (
          arith,
          lookup-insert (conn_key o.id pid) (conn_key o.id pid) ws
              (bind_client ws o.id pid st).connections,
        ))
      other

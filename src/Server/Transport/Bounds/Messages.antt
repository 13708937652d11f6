-- ===== src/Server/Transport/Bounds/Messages.antt =====
-- No message and no closing socket takes a session past its limits.
use quantum_bunker.Base.{
  ℕ, String, false, some, ◌≡◌, contains, nat_eq, string_eq, Bool-cases, Option-cases, inl, inr,
}
use quantum_bunker.Base.Dict.{lookup, insert}
use quantum_bunker.Server.Session.{inherited_names}
use quantum_bunker.Server.Store.{get, touch}
use quantum_bunker.Server.Schemas.{RawJoin, JoinFrame, parse_join, parse_peer_id}
use quantum_bunker.Server.Transport.{Net, WsState, Client, store_of}
use quantum_bunker.Server.Transport.Join.{on_join}
use quantum_bunker.Server.Transport.Frame.{heap_of}
use quantum_bunker.Server.Transport.Capacity.{IsOk}
use quantum_bunker.Server.Store.{Store}
use quantum_bunker.Server.Transport.Messages.{
  Incoming, join, host_action, malformed, on_relay, dispatch, on_message, count_message,
  within_limit,
}
use quantum_bunker.Server.Transport.Relaying.{on_relay_touch, on_malformed-heap}
use quantum_bunker.Server.Transport.Bounds.Host.{on_host_action-AllOk}
use quantum_bunker.Server.Transport.Bounds.{AllOk, insert-AllOk, join_parsed-AllOk}

touch-AllOk : (id : String) (now : ℕ) (s : Store) → AllOk s.heap → AllOk (touch id now s).heap
unfolding touch
touch-AllOk id now s all = elim (Option-cases (get id s)) [
  | inl absent ↦ rw (absent, touch) all
  | inr (r, found) ↦ elim (Option-cases (lookup r s.heap)) [
    | inl dangling ↦ rw (found, touch, dangling) all
    | inr (o, e) ↦
        let ok = all r o e in
        let ok' : IsOk (record o { last_activity_at = now }) = record {
          peers_within = ok.peers_within;
          pending_within = ok.pending_within;
          peers_distinct = ok.peers_distinct;
          pending_distinct = ok.pending_distinct;
        } in
        rw (found, touch, e) (insert-AllOk r _ s.heap ok' all)
  ]
]

-- The names that a message would seat: none of them is an inherited property.
abbrev pub OwnNames : Net → Incoming → Type 0
OwnNames net (join raw) =
    (j : JoinFrame)
    → parse_join net.is_uuid raw ≡ some j
    → contains inherited_names j.peer_id ≡ false
OwnNames net (host_action action target) =
    (t : String) → parse_peer_id target ≡ some t → contains inherited_names t ≡ false
OwnNames net _ = Unit {0}

on_join-AllOk :
    (net : Net) (ws : ℕ) (raw : RawJoin) (st : WsState)
    → OwnNames net (join raw)
    → AllOk (heap_of st)
    → AllOk (heap_of (on_join net ws raw st))
unfolding on_join
on_join-AllOk net ws raw st own all = elim (Option-cases (parse_join net.is_uuid raw)) [
  | inl bad ↦ rw (bad, on_join) all
  | inr (j, good) ↦ rw (good, on_join) (join_parsed-AllOk net ws j st (own j good) all)
]

on_relay-AllOk :
    (net : Net) (ws : ℕ) (c : Client) (inc : Incoming) (st : WsState)
    → AllOk (heap_of st)
    → AllOk (heap_of (on_relay net ws c inc st))
on_relay-AllOk net ws c inc st all = elim (on_relay_touch net ws c inc st) [
  | inl same ↦ rw same all
  | inr (id, now, touched) ↦ rw touched (touch-AllOk id now (store_of st) all)
]

dispatch-AllOk :
    (net : Net) (ws : ℕ) (c : Client) (inc : Incoming) (st : WsState)
    → OwnNames net inc
    → AllOk (heap_of st)
    → AllOk (heap_of (dispatch net ws c inc st))
unfolding dispatch
dispatch-AllOk net ws c (join raw) st own all = on_join-AllOk net ws raw st own all
dispatch-AllOk net ws c (host_action action target) st own all =
    on_host_action-AllOk net ws c action target st own all
dispatch-AllOk net ws c malformed st own all = rw (on_malformed-heap net ws c st) all
dispatch-AllOk net ws c inc st own all = on_relay-AllOk net ws c inc st all

-- Whatever message arrives on whatever socket, in any state in which each session holds at most
-- `max_peers` peers and 10 pending guests, each listed once, this still holds after the handler, if the
-- peer ids in the message name no property that objects inherit.
pub on_message-AllOk :
    (net : Net) (ws : ℕ) (inc : Incoming) (st : WsState)
    → OwnNames net inc
    → AllOk (heap_of st)
    → AllOk (heap_of (on_message net ws inc st))
unfolding on_message
on_message-AllOk net ws inc st own all = elim (Option-cases (lookup ws st.clients)) [
  | inl closed ↦ rw (closed, on_message) all
  | inr (c, known) ↦
      let c' = count_message net.now c in
      let st' = record st { clients = insert ws c' st.clients } in
      elim (Bool-cases (within_limit net.now c c')) [
        | inl fine ↦ rw (known, on_message, fine) (dispatch-AllOk net ws c' inc st' own all)
        | inr much ↦ rw (known, on_message, much) all
      ]
]

-- ===== src/Server/Transport/Host.antt =====
-- ws.transport.ts, `handleConnection`: the host's `accept_join`, `reject_join` and `kick_peer`.
use quantum_bunker.Base.{
  ℕ, String, Bool, true, false, not, ◌&&◌, Option, none, some, if◌then◌else◌, ◌==◌, nat_eq,
  string_eq,
}
use quantum_bunker.Base.Dict.{lookup, erase}
use quantum_bunker.Server.Session.{Session, has_slot}
use quantum_bunker.Server.Store.{get, deref}
use quantum_bunker.Server.Schemas.{Field, parse_peer_id}
use quantum_bunker.Server.Transport.{
  Net, WsState, Client, store_of, say, close, put, persist, conn_key, connected_peers,
  drop_presence, safe_send, joined, error,
}
use quantum_bunker.Server.Transport.Slots.{admit_peer, sync_presence, broadcast_peer_update}

-- `delete session.pendingPeers[targetPeer]`
unfoldable pub forget_pending : String → Session → Session
forget_pending target o = record o { pending_peers = erase target o.pending_peers }

unfoldable pub answer_accepted : String → String → String → WsState → WsState
unfolding conn_key
answer_accepted session_id target token st =
    elim (lookup (conn_key session_id target) st.connections) [
      | none ↦ st
      | some target_ws ↦ say target_ws (joined session_id target false token false) st
    ]

unfoldable pub accept : Net → ℕ → ℕ → Session → String → WsState → WsState
unfolding forget_pending answer_accepted connected_peers safe_send
accept net ws r o target st =
    let (token, o') = admit_peer net.now net.new_token (connected_peers o.id st) o target in
    elim token [
      | none ↦
          (safe_send net (some ws) (error (some "PEER_LIMIT_REACHED") "Session is full")
            (put r o' st)).1
      | some t ↦
          let o'' = forget_pending target o' in
          broadcast_peer_update net o'' (answer_accepted o.id target t (persist r (put r o'' st)))
    ]

-- The target's socket is told, closed and forgotten.
unfoldable pub dismiss : String → String → (message reason : String) → WsState → WsState
unfolding conn_key
dismiss session_id target message reason st =
    elim (lookup (conn_key session_id target) st.connections) [
      | none ↦ st
      | some target_ws ↦
          let st' = close target_ws reason (say target_ws (error none message) st) in
          record st' { connections = erase (conn_key session_id target) st.connections }
    ]

unfoldable pub reject_guest : ℕ → Session → String → WsState → WsState
unfolding forget_pending dismiss
reject_guest r o target st =
    dismiss o.id target "Join rejected by host" "Join rejected"
      (persist r (put r (forget_pending target o) st))

-- `delete session.peers[targetPeer]`, and the presence that is left.
unfoldable pub without_peer : Net → String → WsState → Session → Session
unfolding connected_peers
without_peer net target st o =
    sync_presence net.now (connected_peers o.id st) (record o { peers = erase target o.peers })

unfoldable pub kick : Net → ℕ → Session → String → WsState → WsState
unfolding without_peer dismiss drop_presence
kick net r o target st =
    let st₁ = drop_presence o.id target st in
    let o' = without_peer net target st₁ o in
    broadcast_peer_update net o' (
      dismiss o.id target "You have been kicked by the host" "Kicked by host"
        (persist r (put r o' st₁)))

pub data HostAction : Type 0 where
  accepts rejects kicks : HostAction

-- Each action's test on the session and the target.
unfoldable pub act : Net → ℕ → ℕ → Session → HostAction → String → WsState → WsState
unfolding accept reject_guest kick
act net ws r o HostAction.accepts target st =
    if has_slot target o.pending_peers then accept net ws r o target st else st
act net ws r o HostAction.rejects target st =
    if has_slot target o.pending_peers then reject_guest r o target st else st
act net ws r o HostAction.kicks target st =
    if has_slot target o.peers && not (target == o.host_id) then kick net r o target st else st

-- Only `kick_peer` is limited to groups.
abbrev pub applies : HostAction → Session → Bool
applies HostAction.accepts o = true
applies HostAction.rejects o = true
applies HostAction.kicks o = o.is_group

unfoldable pub as_host :
    Net → ℕ → ℕ → Session → (current : String) → HostAction → Field → WsState → WsState
unfolding act
as_host net ws r o current action target st =
    if o.host_id == current && applies action o
    then (elim (parse_peer_id target) [ none ↦ st | some t ↦ act net ws r o action t st ])
    else st

-- The session that a bound socket speaks for.
unfoldable pub current_object : Client → WsState → Option (ℕ × Session)
current_object c st = elim c.session_id [
  | none ↦ none
  | some sid ↦ elim (get sid (store_of st)) [
    | none ↦ none
    | some r ↦ elim (deref r (store_of st)) [ none ↦ none | some o ↦ some (r, o) ]
  ]
]

unfoldable pub on_host_action : Net → ℕ → Client → HostAction → Field → WsState → WsState
unfolding as_host
on_host_action net ws c action target st = elim c.peer_id [
  | none ↦ st
  | some current ↦ elim (current_object c st) [
    | none ↦ st
    | some (r, o) ↦ as_host net ws r o current action target st
  ]
]

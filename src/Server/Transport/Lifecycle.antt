-- ===== src/Server/Transport/Lifecycle.antt =====
-- ws.transport.ts: a connection opens and closes; a session is disconnected; stale counters go.
use quantum_bunker.Base.{
  ℕ, ◌*◌, ◌-◌, String, Bool, true, false, not, List, [], ◌∷◌, Option, none, some, leb, ltb,
  if◌then◌else◌, ◌==◌, nat_eq, string_eq,
}
use quantum_bunker.Base.Dict.{Dict, lookup, insert, erase, retain}
use quantum_bunker.Limits.{conn_window_ms, conn_per_ip_limit}
use quantum_bunker.Server.Session.{Session, SessionPeer}
use quantum_bunker.Server.Store.{get, deref, delete}
use quantum_bunker.Server.Events.{peer_disconnected, envelope_rejected, no_envelope}
use quantum_bunker.Server.RateLimit.{Counter, counter_or_new, count_hit}
use quantum_bunker.Server.Security.{safe_equal}
use quantum_bunker.Server.Transport.{
  Net, WsState, Client, store_of, with_store, say, close, emit, put, persist, conn_key,
  connected_peers, drop_presence, safe_send, error,
}
use quantum_bunker.Server.Transport.Slots.{sync_presence, broadcast_peer_update}

-- `checkIpLimit`; in Tor mode nothing is counted.
unfoldable pub check_ip_limit : ℕ → (tor_mode : Bool) → (ip : String) → WsState → Bool × WsState
unfolding count_hit
check_ip_limit now true ip st = (true, st)
check_ip_limit now false ip st =
    let c = count_hit conn_window_ms now (counter_or_new now (lookup ip st.ip_counters)) in
    (leb c.hits conn_per_ip_limit, record st { ip_counters = insert ip c st.ip_counters })

-- The start of `handleConnection`.
unfoldable pub on_connection :
    Net → ℕ → (origin_allowed tor_mode : Bool) → (ip : String) → WsState → WsState
unfolding check_ip_limit
on_connection net ws origin_allowed tor_mode ip st =
    let (ok, st') = check_ip_limit net.now tor_mode ip st in
    let fresh : Client = record {
      peer_id = none;
      session_id = none;
      msg_count = 0;
      msg_window_start = net.now;
    } in
    if not origin_allowed
    then close ws "Origin not allowed" st
    else (if ok
        then record st' { clients = insert ws fresh st'.clients }
        else close ws "Rate limit exceeded"
            (say ws (error (some "RATE_LIMIT_EXCEEDED") "Connection rate limit exceeded") st'))

-- The join timer: a socket that has not joined by then is closed.
unfoldable pub on_join_timeout : ℕ → WsState → WsState
on_join_timeout ws st = elim (lookup ws st.clients) [
  | none ↦ st
  | some c ↦ elim c.peer_id [ none ↦ close ws "Join timeout" st | some p ↦ st ]
]

-- The `error` listener of a socket.
unfoldable pub on_socket_error : Net → ℕ → (reason : String) → WsState → WsState
on_socket_error net ws reason st = elim (lookup ws st.clients) [
  | none ↦ st
  | some c ↦ elim c.session_id [
    | none ↦ emit (envelope_rejected "unknown" net.now reason no_envelope) st
    | some sid ↦ emit (envelope_rejected sid net.now reason no_envelope) st
  ]
]

-- `peer.lastSeenAt = Date.now()` for a peer that is there.
abbrev pub mark_seen : ℕ → String → Dict String SessionPeer → Dict String SessionPeer
mark_seen now peer_id peers = elim (lookup peer_id peers) [
  | none ↦ peers
  | some p ↦ insert peer_id (record p { last_seen_at = now }) peers
]

-- The session of a peer whose socket went away: no longer pending, seen now, presence as it is left.
unfoldable pub departed : ℕ → String → List String → Session → Session
unfolding sync_presence
departed now peer_id connected o = sync_presence now connected (record o {
  pending_peers = erase peer_id o.pending_peers;
  peers = mark_seen now peer_id o.peers;
})

unfoldable pub leave_session : Net → String → String → WsState → WsState
unfolding departed connected_peers
leave_session net session_id peer_id st = elim (get session_id (store_of st)) [
  | none ↦ st
  | some r ↦ elim (deref r (store_of st)) [
    | none ↦ st
    | some o ↦
        let o' = departed net.now peer_id (connected_peers session_id st) o in
        broadcast_peer_update net o' (persist r (put r o' st))
  ]
]

-- Past the test that this socket still owns the connection key.
unfoldable pub tear_down : Net → String → String → WsState → WsState
unfolding leave_session conn_key drop_presence
tear_down net session_id peer_id st =
    let st₁ =
      drop_presence session_id peer_id
        (record st { connections = erase (conn_key session_id peer_id) st.connections }) in
    emit (peer_disconnected session_id net.now peer_id) (leave_session net session_id peer_id st₁)

abbrev pub owns : ℕ → Option ℕ → Bool
owns ws none = false
owns ws (some ws') = ws == ws'

unfoldable pub close_bound : Net → ℕ → String → String → WsState → WsState
unfolding tear_down conn_key
close_bound net ws session_id peer_id st =
    if owns ws (lookup (conn_key session_id peer_id) st.connections)
    then tear_down net session_id peer_id st
    else st

-- `handleClose`.
unfoldable pub handle_close : Net → ℕ → WsState → WsState
unfolding close_bound
handle_close net ws st = elim (lookup ws st.clients) [
  | none ↦ st
  | some c ↦ elim c.peer_id [
    | none ↦ st
    | some peer_id ↦ elim c.session_id [
      | none ↦ st
      | some session_id ↦ close_bound net ws session_id peer_id st
    ]
  ]
]

-- One round of the loop of `disconnectSession`.
unfoldable pub disconnect_one : Net → String → String → WsState → WsState
unfolding conn_key safe_send
disconnect_one net session_id p st = elim (lookup (conn_key session_id p) st.connections) [
  | none ↦ st
  | some ws ↦
      let (written, st₁) = safe_send net (some ws) (error none "Session destroyed") st in
      let st₂ = if written then close ws "Session destroyed" st₁ else st₁ in
      record st₂ { connections = erase (conn_key session_id p) st₂.connections }
]

unfoldable pub disconnect_each : Net → String → List String → WsState → WsState
unfolding disconnect_one
disconnect_each net session_id [] st = st
disconnect_each net session_id (p ∷ ps) st =
    disconnect_each net session_id ps (disconnect_one net session_id p st)

unfoldable pub disconnect_session : Net → String → WsState → WsState
unfolding disconnect_each connected_peers
disconnect_session net session_id st =
    let st' = disconnect_each net session_id (connected_peers session_id st) st in
    record st' { session_peers = erase session_id st'.session_peers }

-- `DELETE /api/sessions/:id` of server.ts: the status, and the state.
unfoldable pub delete_session : Net → String → (host_token : Option String) → WsState → ℕ × WsState
unfolding disconnect_session
delete_session net id host_token st = elim (get id (store_of st)) [
  | none ↦ (404, st)
  | some r ↦ elim (deref r (store_of st)) [
    | none ↦ (404, st)
    | some o ↦
        if safe_equal net.sha256 host_token (some o.host_recovery_token)
        then (204, disconnect_session net id (with_store (delete id (store_of st)) st))
        else (403, st)
  ]
]

abbrev pub younger : ℕ → ℕ → String → Counter → Bool
younger now limit key c = not (ltb limit (now - c.window_start))

abbrev pub any_left : String → List String → Bool
any_left session_id [] = false
any_left session_id (p ∷ ps) = true

-- `pruneStaleCounters`.
unfoldable pub prune_stale_counters : ℕ → WsState → WsState
prune_stale_counters now st = record st {
  ip_counters = retain (younger now (conn_window_ms * 2)) st.ip_counters;
  message_counters = retain (younger now 10000) st.message_counters;
  session_peers = retain any_left st.session_peers;
  used_proof_nonces =
      retain (λ nonce at. not (ltb (conn_window_ms * 2) (now - at))) st.used_proof_nonces;
}

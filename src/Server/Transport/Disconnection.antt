-- ===== src/Server/Transport/Disconnection.antt =====
-- ws.transport.ts, `disconnectSession`, and the route that deletes a session.
use quantum_bunker.Base.{
  ℕ, String, true, false, List, [], ◌∷◌, Option, none, some, ◌≡◌, refl, ◌∙◌, ap, arith, nat_eq,
  string_eq, ◌==◌, ◌⊎◌, Option-cases, Bool-cases, inl, inr, contains, if◌then◌else◌,
}
use quantum_bunker.Base.Dict.{lookup, lookup-erase}
use quantum_bunker.Server.Session.{Session}
use quantum_bunker.Server.Store.{get, deref, delete}
use quantum_bunker.Server.Security.{safe_equal}
use quantum_bunker.Server.Transport.{
  Net, WsState, conn_key, connected_peers, error, store_of, with_store,
}
use quantum_bunker.Server.Transport.Frame.{safe_send-relay}
use quantum_bunker.Server.Transport.Lifecycle.{
  disconnect_one, disconnect_each, disconnect_session, delete_session,
}
use quantum_bunker.Server.Transport.Reconnect.{safe_send-SameSockets}

disconnect_one-connections :
    (net : Net) (sid p k : String) (st : WsState)
    → lookup k (disconnect_one net sid p st).connections
      ≡ (if k == conn_key sid p then none else lookup k st.connections)
unfolding disconnect_one
disconnect_one-connections net sid p k st =
    elim (Option-cases (lookup (conn_key sid p) st.connections)) [
      | inl absent ↦ ground arith
      | inr (ws, here) ↦
          let f = error none "Session destroyed" in
          let (same, _, _) = safe_send-SameSockets net (some ws) f st in
          ground (arith, same, lookup-erase k (conn_key sid p) st.connections)
    ]

disconnect_one-relay :
    (net : Net) (sid p : String) (st : WsState) → (disconnect_one net sid p st).relay ≡ st.relay
unfolding disconnect_one
disconnect_one-relay net sid p st = elim (Option-cases (lookup (conn_key sid p) st.connections)) [
  | inl absent ↦ rw (absent, disconnect_one)
  | inr (ws, here) ↦
      ground (arith, safe_send-relay net (some ws) (error none "Session destroyed") st)
]

disconnect_each-relay :
    (net : Net) (sid : String) (ps : List String) (st : WsState)
    → (disconnect_each net sid ps st).relay ≡ st.relay
unfolding disconnect_each
disconnect_each-relay net sid [] st = refl
disconnect_each-relay net sid (p ∷ ps) st =
    disconnect_each-relay net sid ps (disconnect_one net sid p st)
    ∙ disconnect_one-relay net sid p st

disconnect_each_keeps_none :
    (net : Net) (sid : String) (ps : List String) (k : String) (st : WsState)
    → lookup k st.connections ≡ none
    → lookup k (disconnect_each net sid ps st).connections ≡ none
unfolding disconnect_each
disconnect_each_keeps_none net sid [] k st h = h
disconnect_each_keeps_none net sid (p ∷ ps) k st h =
    disconnect_each_keeps_none net sid ps k (disconnect_one net sid p st)
      (ground (arith, disconnect_one-connections net sid p k st))

disconnect_each-connections :
    (net : Net) (sid : String) (ps : List String) (p : String) (st : WsState)
    → contains ps p ≡ true
    → lookup (conn_key sid p) (disconnect_each net sid ps st).connections ≡ none
unfolding disconnect_each
disconnect_each-connections net sid [] p st h = cc
disconnect_each-connections net sid (q ∷ ps) p st h = elim (Bool-cases (p == q)) [
  | inl same ↦
      disconnect_each_keeps_none net sid ps (conn_key sid p) (disconnect_one net sid q st)
        (ground (arith, disconnect_one-connections net sid q (conn_key sid p) st))
  | inr other ↦
      disconnect_each-connections net sid ps p (disconnect_one net sid q st) (ground arith)
]

-- No connection is left of the peers that were connected to the session.
abbrev pub IsDisconnected : String → WsState → WsState → Type 0
IsDisconnected sid st st' =
    ((p : String)
      → contains (connected_peers sid st) p ≡ true
      → lookup (conn_key sid p) st'.connections ≡ none)
    × (lookup sid st'.session_peers ≡ none)

disconnect_session-IsDisconnected :
    (net : Net) (sid : String) (st : WsState)
    → IsDisconnected sid st (disconnect_session net sid st)
unfolding disconnect_session
disconnect_session-IsDisconnected net sid st =
    let st' = disconnect_each net sid (connected_peers sid st) st in
    (
      λ p h. disconnect_each-connections net sid (connected_peers sid st) p st h,
      ground (arith, lookup-erase sid sid st'.session_peers),
    )

get-disconnect_session :
    (net : Net) (sid : String) (st : WsState)
    → store_of (disconnect_session net sid st) ≡ store_of st
unfolding disconnect_session
get-disconnect_session net sid st =
    ap (λ r. r.store) (disconnect_each-relay net sid (connected_peers sid st) st)

get-delete : (id : String) (st : WsState) → get id (delete id (store_of st)) ≡ none
unfolding get delete
get-delete id st = ground (arith, lookup-erase id id (store_of st).sessions)

-- A deletion either answers 204, and then the caller showed the session's recovery token, the id names
-- no session any more, and every peer that was connected to the session has lost its connection; or it
-- answers 403, with a token that does not match, or 404, without a session, and changes nothing.
pub delete_session_outcome :
    (net : Net) (id : String) (token : Option String) (st : WsState)
    → (((delete_session net id token st).0 ≡ 204)
        × ((r : ℕ) × (o : Session) × (get id (store_of st) ≡ some r)
            × (deref r (store_of st) ≡ some o)
            × (safe_equal net.sha256 token (some o.host_recovery_token) ≡ true))
        × (get id (store_of (delete_session net id token st).1) ≡ none)
        × IsDisconnected id st (delete_session net id token st).1)
      ⊎ ((((delete_session net id token st).0 ≡ 403)
              × ((r : ℕ) × (o : Session) × (get id (store_of st) ≡ some r)
                  × (deref r (store_of st) ≡ some o)
                  × (safe_equal net.sha256 token (some o.host_recovery_token) ≡ false))
            ⊎ (delete_session net id token st).0 ≡ 404)
          × ((delete_session net id token st).1 ≡ st))
unfolding delete_session
delete_session_outcome net id token st = elim (Option-cases (get id (store_of st))) [
  | inl absent ↦ rw (absent, delete_session) (inr (inr refl, refl))
  | inr (r, found) ↦ elim (Option-cases (deref r (store_of st))) [
    | inl dangling ↦ rw (found, delete_session, dangling) (inr (inr refl, refl))
    | inr (o, at) ↦ elim (Bool-cases (safe_equal net.sha256 token (some o.host_recovery_token))) [
      | inr bad ↦
          rw (found, delete_session, at, bad) (inr (inl (refl, (r, o, refl, at, bad)), refl))
      | inl good ↦
          let st' = with_store (delete id (store_of st)) st in
          rw (found, delete_session, at, good)
            (inl (
              refl,
              (r, o, refl, at, good),
              ap (get id) (get-disconnect_session net id st') ∙ get-delete id st,
              disconnect_session-IsDisconnected net id st',
            ))
    ]
  ]
]

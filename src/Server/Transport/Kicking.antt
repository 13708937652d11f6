-- ===== src/Server/Transport/Kicking.antt =====
-- ws.transport.ts: what `kick_peer` leaves.
use quantum_bunker.Base.{
  ℕ, String, false, List, [], ◌∷◌, none, some, ◌≡◌, ◌≢◌, refl, ◌∙◌, ap, arith, nat_eq, string_eq,
  contains, Option-cases, inl, inr,
}
use quantum_bunker.Base.Dict.{lookup, erase, has, has-lookup, lookup-insert, lookup-erase}
use quantum_bunker.Server.Session.{Session}
use quantum_bunker.Server.Transport.{
  Net, WsState, conn_key, connected_peers, drop_presence, set_delete, put, persist,
}
use quantum_bunker.Server.Transport.Slots.{sync_presence}
use quantum_bunker.Server.Transport.Host.{kick, dismiss, without_peer}
use quantum_bunker.Server.Transport.Frame.{heap_of, kick-heap}
use quantum_bunker.Server.Transport.Reconnect.{broadcast_peer_update-SameSockets}

contains-set_delete : (p : String) (ps : List String) → contains (set_delete p ps) p ≡ false
unfolding set_delete
contains-set_delete p [] = refl
contains-set_delete p (q ∷ ps) = ground (arith, contains-set_delete p ps)

dismiss-connections :
    (sid target message reason : String) (st : WsState)
    → (lookup (conn_key sid target) (dismiss sid target message reason st).connections ≡ none)
      × ((dismiss sid target message reason st).session_peers ≡ st.session_peers)
unfolding dismiss
dismiss-connections sid target message reason st =
    let k = conn_key sid target in
    elim (Option-cases (lookup k st.connections)) [
      | inl absent ↦ ground (arith, absent)
      | inr (ws, here) ↦ ground (arith, here, lookup-erase k k st.connections)
    ]

kick-sockets :
    (net : Net) (r : ℕ) (o : Session) (target : String) (st : WsState)
    → (lookup (conn_key o.id target) (kick net r o target st).connections ≡ none)
      × ((kick net r o target st).session_peers ≡ (drop_presence o.id target st).session_peers)
unfolding kick
kick-sockets net r o target st =
    let st₁ = drop_presence o.id target st in
    let o' = without_peer net target st₁ o in
    let saved = persist r (put r o' st₁) in
    let message : String = "You have been kicked by the host" in
    let said = dismiss o.id target message "Kicked by host" saved in
    let (gone, rest) = dismiss-connections o.id target message "Kicked by host" saved in
    let (connections, _, present) = broadcast_peer_update-SameSockets net o' said in
    (ap (lookup (conn_key o.id target)) connections ∙ gone, present ∙ rest)

-- After a kick the target has no seat in the session object, is not connected to the session, and its
-- connection is gone; every other peer has its seat, with its token, as before.
pub kick_removes :
    (net : Net) (r : ℕ) (o : Session) (target : String) (st : WsState)
    → (o' : Session) × (lookup r (heap_of (kick net r o target st)) ≡ some o')
      × (has target o'.peers ≡ false)
      × ((p : String) → p ≢ target → lookup p o'.peers ≡ lookup p o.peers)
      × (contains (connected_peers o.id (kick net r o target st)) target ≡ false)
      × (lookup (conn_key o.id target) (kick net r o target st).connections ≡ none)
unfolding without_peer sync_presence connected_peers drop_presence
kick_removes net r o target st =
    let o' = without_peer net target (drop_presence o.id target st) o in
    let (connection, present) = kick-sockets net r o target st in
    (
      o',
      ap (lookup r) (kick-heap net r o target st)
          ∙ ground (arith, lookup-insert r r o' (heap_of st)),
      ground (arith, has-lookup target (erase target o.peers), lookup-erase target target o.peers),
      λ p other. ground (arith, lookup-erase p target o.peers),
      kick_presence present,
      connection,
    )
  where
    kick_presence :
        (kick net r o target st).session_peers ≡ (drop_presence o.id target st).session_peers
        → contains (connected_peers o.id (kick net r o target st)) target ≡ false
    kick_presence present = rw present (
        ground (
          arith,
          lookup-insert o.id o.id (set_delete target (connected_peers o.id st)) st.session_peers,
          contains-set_delete target (connected_peers o.id st),
        ))

-- ===== src/Server/Transport/Inherited.antt =====
-- ws.transport.ts: `session.peers[peerId]` for the name of a property that objects inherit.
use quantum_bunker.Base.{
  ℕ, String, true, false, List, none, some, ◌≡◌, ◌∙◌, ap, arith, contains, nat_eq, string_eq, ◌==◌,
}
use quantum_bunker.Base.Dict.{lookup, lookup-insert, has, has-insert}
use quantum_bunker.Server.Session.{Session, SessionPeer, inherited_names, has_slot}
use quantum_bunker.Server.Schemas.{JoinFrame}
use quantum_bunker.Server.Security.{safe_equal}
use quantum_bunker.Server.Transport.{Net, WsState, conn_key, open_socket}
use quantum_bunker.Server.Transport.Slots.{
  admit_peer, seat, sync_presence, is_full, token_or_new, reclaim_stale_slots,
}
use quantum_bunker.Server.Transport.Join.{enter, rejoin, join_session}
use quantum_bunker.Server.Transport.Frame.{heap_of, enter-heap, joined_peers}
use quantum_bunker.Server.Transport.Authority.{peer_at}

inherited-has_slot :
    (p : String) (o : Session) → contains inherited_names p ≡ true → has_slot p o.peers ≡ true
unfolding has_slot
inherited-has_slot p o named = ground arith

-- An inherited name is never too many.
inherited-is_full :
    (p : String) (o : Session) → contains inherited_names p ≡ true → is_full o p ≡ false
unfolding is_full
inherited-is_full p o named = ground (arith, inherited-has_slot p o named)

inherited-admit_peer :
    (now : ℕ) (t : String) (c : List String) (o : Session) (p : String)
    → contains inherited_names p ≡ true
    → has p (admit_peer now t c o p).1.peers ≡ true
unfolding admit_peer seat sync_presence
inherited-admit_peer now t c o p named =
    let o' = reclaim_stale_slots now c o in
    let token = token_or_new (lookup p o'.peers) t in
    let peer : SessionPeer = record {
      id = p;
      joined_at = now;
      last_seen_at = now;
      token = some token;
    } in
    ground (arith, inherited-is_full p o' named, has-insert p p peer o'.peers)

-- A guest whose id is the name of an inherited property, and not the host's, gets a seat with no
-- credential at all and without the host being asked, however many peers the session holds, if no
-- socket of that id is open. (Of these names, PeerIdSchema refuses constructor and __proto__, so only the
-- others come this far.)
pub join_session_inherited :
    (net : Net) (ws r : ℕ) (o : Session) (j : JoinFrame) (st : WsState)
    → contains inherited_names j.peer_id ≡ true
    → (j.peer_id == o.host_id) ≡ false
    → j.host_recovery_token ≡ none
    → open_socket net (lookup (conn_key o.id j.peer_id) st.connections) ≡ none
    → peer_at r (heap_of (join_session net ws r o j st)) j.peer_id ≡ true
unfolding join_session rejoin safe_equal
join_session_inherited net ws r o j st named other none_shown no_socket =
    let p = j.peer_id in
    let entered : join_session net ws r o j st ≡ enter net ws r o p false false st =
      ground (arith, inherited-is_full p o named, inherited-has_slot p o named) in
    let seated = inherited-admit_peer net.now net.new_token (joined_peers ws o p st) o p named in
    ap (λ s. peer_at r (heap_of s) p) entered
    ∙ ap (λ h. peer_at r h p) (enter-heap net ws r o p false false st)
    ∙ ground (
      arith,
      lookup-insert r r (admit_peer net.now net.new_token (joined_peers ws o p st) o p).1
          (heap_of st),
    )

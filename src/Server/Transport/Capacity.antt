-- ===== src/Server/Transport/Capacity.antt =====
-- The limits on a session's peers and pending guests, and the slots that are reclaimed.
use quantum_bunker.Base.{
  ℕ, ◌≤◌, ◌≡◌, refl, String, true, false, not, List, [], ◌∷◌, Option, none, some, arith, length,
  contains, nat_eq, string_eq, if◌then◌else◌, Option-cases, Bool-cases, inl, inr, ◌<◌,
}
use quantum_bunker.Base.Dict.{
  Dict, lookup, erase, has, NodupKeys, lookup-erase, length-insert, length-erase-le, has-erase,
  insert-NodupKeys, erase-NodupKeys,
}
use quantum_bunker.Limits.{max_pending_peers, reconnect_grace_ms}
use quantum_bunker.Server.Session.{Session, SessionPeer, PendingPeer, inherited_names, has_slot}
use quantum_bunker.Server.Presence.{stale_peer_ids, keeps_slot}
use quantum_bunker.Server.Transport.Slots.{
  erase_all, reclaim_stale_slots, sync_presence, seat, is_full, admit_peer, token_or_new,
}
use quantum_bunker.Server.Transport.Join.{take_over, add_pending, message_or_default}
use quantum_bunker.Server.Transport.Host.{forget_pending}

length-erase_all-le :
    (ids : List String) (d : Dict String SessionPeer) → length (erase_all ids d) ≤ length d
unfolding erase_all
length-erase_all-le [] d = omega arith
length-erase_all-le (id ∷ ids) d =
    omega (arith, length-erase_all-le ids (erase id d), length-erase-le {0, 0} id d)

erase_all-NodupKeys :
    (ids : List String) (d : Dict String SessionPeer) → NodupKeys d → NodupKeys (erase_all ids d)
unfolding erase_all
erase_all-NodupKeys [] d u = u
erase_all-NodupKeys (id ∷ ids) d u = erase_all-NodupKeys ids (erase id d) (erase-NodupKeys id d u)

lookup-erase_all :
    (ids : List String) (d : Dict String SessionPeer) (p : String)
    → lookup p (erase_all ids d) ≡ (if contains ids p then none else lookup p d)
unfolding erase_all
lookup-erase_all [] d p = refl
lookup-erase_all (id ∷ ids) d p =
    ground (arith, lookup-erase_all ids (erase id d) p, lookup-erase p id d)

pub has-erase_all :
    (ids : List String) (d : Dict String SessionPeer) (p : String)
    → has p (erase_all ids d) ≡ true
    → has p d ≡ true
unfolding erase_all
has-erase_all [] d p h = h
has-erase_all (id ∷ ids) d p h =
    ground (arith, has-erase_all ids (erase id d) p h, has-erase p id d)

contains-stale_none :
    (d : Dict String SessionPeer) (c : List String) (host : String) (now grace : ℕ) (p : String)
    → lookup p d ≡ none
    → contains (stale_peer_ids d c host now grace) p ≡ false
unfolding stale_peer_ids lookup
contains-stale_none [] c host now grace p h = refl
contains-stale_none ((id, peer) ∷ d) c host now grace p h =
    ground (arith, contains-stale_none d c host now grace p)

contains-stale :
    (d : Dict String SessionPeer) (c : List String) (host : String) (now grace : ℕ) (p : String)
    (peer : SessionPeer)
    → NodupKeys d
    → lookup p d ≡ some peer
    → contains (stale_peer_ids d c host now grace) p ≡ not (keeps_slot c host now grace p peer)
unfolding stale_peer_ids lookup
contains-stale ((id, other) ∷ d) c host now grace p peer u h =
    ground (
      arith,
      contains-stale d c host now grace p peer u.1,
      contains-stale_none d c host now grace p,
    )
contains-stale [] c host now grace p peer u h = cc

-- A sweep of stale slots keeps a peer, with its token, exactly when it is the host, is connected, or
-- was seen within the grace time.
pub lookup-reclaim_stale_slots :
    (now : ℕ) (c : List String) (o : Session) (p : String)
    → NodupKeys o.peers
    → lookup p (reclaim_stale_slots now c o).peers ≡ elim (lookup p o.peers) [
      | none ↦ none
      | some peer ↦ if keeps_slot c o.host_id now reconnect_grace_ms p peer then some peer else none
    ]
unfolding reclaim_stale_slots
lookup-reclaim_stale_slots now c o p u = elim (Option-cases (lookup p o.peers)) [
  | inl e ↦ ground (arith, e, lookup-erase_all ids o.peers p)
  | inr (peer, e) ↦ ground (
    arith,
    e,
    lookup-erase_all ids o.peers p,
    contains-stale o.peers c o.host_id now reconnect_grace_ms p peer u e,
  )
]
  where
    ids : List String
    ids = stale_peer_ids o.peers c o.host_id now reconnect_grace_ms

-- What the limits demand of a session.
pub record IsOk (o : Session) : Type 0 where
  pub peers_within : length o.peers ≤ o.max_peers
  pub pending_within : length o.pending_peers ≤ max_pending_peers
  pub peers_distinct : NodupKeys o.peers
  pub pending_distinct : NodupKeys o.pending_peers

pub reclaim-IsOk :
    (now : ℕ) (c : List String) (o : Session) → IsOk o → IsOk (reclaim_stale_slots now c o)
unfolding reclaim_stale_slots
reclaim-IsOk now c o ok =
    let ids = stale_peer_ids o.peers c o.host_id now reconnect_grace_ms in
    record {
      peers_within = let le = ok.peers_within in omega (arith, length-erase_all-le ids o.peers);
      pending_within = ok.pending_within;
      peers_distinct = erase_all-NodupKeys ids o.peers ok.peers_distinct;
      pending_distinct = ok.pending_distinct;
    }

seat-IsOk :
    (now : ℕ) (t : String) (c : List String) (o : Session) (p : String)
    → is_full o p ≡ false
    → contains inherited_names p ≡ false
    → IsOk o
    → IsOk (seat now t c o p)
unfolding seat sync_presence is_full has_slot
seat-IsOk now t c o p room own ok =
    let peer : SessionPeer = record {
      id = p;
      joined_at = now;
      last_seen_at = now;
      token = some t;
    } in
    let u = ok.peers_distinct in
    let v = ok.pending_distinct in
    ground (arith, length-insert p peer o.peers, insert-NodupKeys p peer o.peers u)

-- Admission keeps the limits, for an id that names no inherited property.
pub admit_peer-IsOk :
    (now : ℕ) (t : String) (c : List String) (o : Session) (p : String)
    → contains inherited_names p ≡ false
    → IsOk o
    → IsOk (admit_peer now t c o p).1
unfolding admit_peer
admit_peer-IsOk now t c o p own ok =
    let o' = reclaim_stale_slots now c o in
    let ok' = reclaim-IsOk now c o ok in
    let token = token_or_new (lookup p o'.peers) t in
    elim (Bool-cases (is_full o' p)) [
      | inl full ↦ rw (full, admit_peer) ok'
      | inr room ↦ rw (room, admit_peer) (seat-IsOk now token c o' p room own ok')
    ]

pub take_over-IsOk : (o : Session) (p : String) → IsOk o → IsOk (take_over o p)
unfolding take_over
take_over-IsOk o p ok =
    let u = ok.peers_distinct in
    let v = ok.pending_distinct in
    ground (arith, length-erase-le o.host_id o.peers, erase-NodupKeys o.host_id o.peers u)

pub add_pending-IsOk :
    (now : ℕ) (p : String) (message : Option String) (o : Session)
    → length o.pending_peers < max_pending_peers
    → IsOk o
    → IsOk (add_pending now p message o)
unfolding add_pending
add_pending-IsOk now p message o room ok = record {
  peers_within = ok.peers_within;
  pending_within =
      let guest : PendingPeer = record {
        id = p;
        message = message_or_default message;
        requested_at = now;
      } in
      ground (arith, length-insert p guest o.pending_peers);
  peers_distinct = ok.peers_distinct;
  pending_distinct = insert-NodupKeys p _ o.pending_peers ok.pending_distinct;
}

pub forget_pending-IsOk : (p : String) (o : Session) → IsOk o → IsOk (forget_pending p o)
unfolding forget_pending
forget_pending-IsOk p o ok = record {
  peers_within = ok.peers_within;
  pending_within =
      let le = ok.pending_within in omega (arith, length-erase-le {0, 0} p o.pending_peers);
  peers_distinct = ok.peers_distinct;
  pending_distinct = erase-NodupKeys p o.pending_peers ok.pending_distinct;
}

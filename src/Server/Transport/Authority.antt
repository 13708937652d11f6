-- ===== src/Server/Transport/Authority.antt =====
-- Who becomes host, and who gets a seat, by a `join` frame.
use quantum_bunker.Base.{
  ℕ, String, Bool, true, false, not, ◌&&◌, ◌||◌, List, Option, none, some, ◌≡◌, refl, ap, arith,
  contains, nat_eq, string_eq, ◌==◌, if◌then◌else◌, Bool-cases, Option-cases, ◌⊎◌, inl, inr, subst,
  sym,
}
use quantum_bunker.Base.Dict.{
  Dict, lookup, insert, lookup-insert, erase, has, has-insert, has-erase,
}
use quantum_bunker.Limits.{reconnect_grace_ms}
use quantum_bunker.Shared.Membership.{MembershipToken, valid, verify_membership}
use quantum_bunker.Server.Session.{Session, SessionPeer, inherited_names, has_slot}
use quantum_bunker.Server.Presence.{stale_peer_ids}
use quantum_bunker.Server.Store.{get, deref, write}
use quantum_bunker.Server.Schemas.{JoinFrame}
use quantum_bunker.Server.Security.{safe_equal}
use quantum_bunker.Server.Transport.{Net, WsState, store_of, put, connected_peers}
use quantum_bunker.Server.Transport.Slots.{
  admit_peer, reclaim_stale_slots, erase_all, seat, sync_presence, is_full, token_or_new,
}
use quantum_bunker.Server.Transport.Join.{
  Credentials, credentials, enter, take_over, add_pending, join_as_host, join_session, join_object,
  join_parsed,
}
use quantum_bunker.Server.Transport.Frame.{heap_of, enter-heap, joined_peers}
use quantum_bunker.Server.Transport.Branches.{join_session_cases}
use quantum_bunker.Server.Transport.Capacity.{has-erase_all}
pub mod Actions
pub mod Messages

-- The host of the object at a reference, and whether a peer has an entry in it.
abbrev pub host_at : ℕ → Dict ℕ Session → Option String
host_at q heap = elim (lookup q heap) [ none ↦ none | some o ↦ some o.host_id ]

abbrev pub peer_at : ℕ → Dict ℕ Session → String → Bool
peer_at q heap p = elim (lookup q heap) [ none ↦ false | some o ↦ has p o.peers ]

-- The join frame shows the session's recovery token.
abbrev pub Recovers : Net → JoinFrame → Session → Type 0
Recovers net j o = safe_equal net.sha256 j.host_recovery_token (some o.host_recovery_token) ≡ true

-- The join frame shows a membership token and a proof that verify.
abbrev pub IsMember : Net → JoinFrame → Session → Type 0
IsMember net j o =
    (c : Credentials) × (t : MembershipToken) × (m : String) × (credentials j o ≡ some c)
    × (net.decode_token c.token ≡ some t)
    × (verify_membership net.ed25519 c.host_public o.id j.peer_id t c.proof net.now ≡ valid m)

pub admit_peer-host :
    (now : ℕ) (t : String) (c : List String) (o : Session) (p : String)
    → (admit_peer now t c o p).1.host_id ≡ o.host_id
unfolding admit_peer sync_presence
admit_peer-host now t c o p = ground arith

seat-has :
    (now : ℕ) (t : String) (c : List String) (o : Session) (pid p : String)
    → has p (seat now t c o pid).peers ≡ true
    → (has p o.peers ≡ true) ⊎ (p ≡ pid)
unfolding seat sync_presence
seat-has now t c o pid p h =
    let peer : SessionPeer = record {
      id = pid;
      joined_at = now;
      last_seen_at = now;
      token = some t;
    } in
    ground (arith, has-insert p pid peer o.peers)

pub reclaim-has :
    (now : ℕ) (c : List String) (o : Session) (p : String)
    → has p (reclaim_stale_slots now c o).peers ≡ true
    → has p o.peers ≡ true
unfolding reclaim_stale_slots
reclaim-has now c o p h =
    has-erase_all (stale_peer_ids o.peers c o.host_id now reconnect_grace_ms) o.peers p h

-- Admission seats the peer that it admits, and nobody else.
pub admit_peer-has :
    (now : ℕ) (t : String) (c : List String) (o : Session) (pid p : String)
    → has p (admit_peer now t c o pid).1.peers ≡ true
    → (has p o.peers ≡ true) ⊎ (p ≡ pid)
unfolding admit_peer
admit_peer-has now t c o pid p h =
    let o' = reclaim_stale_slots now c o in
    ground
      (arith, seat-has now (token_or_new (lookup pid o'.peers) t) c o' pid p, reclaim-has now c o p)

-- From a heap in which `r` names `o`, after an assignment that changes `o` into `o'`.
pub peer_at-insert :
    (q r : ℕ) (o o' : Session) (heap : Dict ℕ Session) (p : String) {G : Type 0}
    → lookup r heap ≡ some o
    → (has p o'.peers ≡ true → (has p o.peers ≡ true) ⊎ G)
    → peer_at q (insert r o' heap) p ≡ true
    → (peer_at q heap p ≡ true) ⊎ ((q ≡ r) × G)
peer_at-insert q r o o' heap p at kept h = elim (Bool-cases (q == r)) [
  | inr other ↦ inl (ground (arith, lookup-insert q r o' heap))
  | inl same ↦ elim (kept (ground (arith, lookup-insert q r o' heap))) [
    | inl before ↦ inl (ground arith)
    | inr g ↦ inr (ground arith, g)
  ]
]

pub host_at-insert :
    (q r : ℕ) (o o' : Session) (heap : Dict ℕ Session)
    → lookup r heap ≡ some o
    → o'.host_id ≡ o.host_id
    → host_at q (insert r o' heap) ≡ host_at q heap
host_at-insert q r o o' heap at same = ground (arith, lookup-insert q r o' heap)

take_over-has :
    (o : Session) (pid p : String) → has p (take_over o pid).peers ≡ true → has p o.peers ≡ true
unfolding take_over
take_over-has o pid p h = ground (arith, has-erase p o.host_id o.peers)

module _ (net : Net) (ws r : ℕ) (o : Session) (j : JoinFrame) (st : WsState)
    (at : lookup r (heap_of st) ≡ some o) where
  enter-host :
      (h m : Bool) (q : ℕ) (used : Dict String ℕ)
      → host_at q
          (heap_of (enter net ws r o j.peer_id h m (record st { used_proof_nonces = used })))
        ≡ host_at q (heap_of st)
  enter-host h m q used =
      let st' = record st { used_proof_nonces = used } in
      rw (enter-heap net ws r o j.peer_id h m st') (
        host_at-insert q r o _ (heap_of st) at
          (admit_peer-host net.now net.new_token (joined_peers ws o j.peer_id st') o j.peer_id))

  join_as_host-other :
      (q : ℕ)
      → (q == r) ≡ false
      → lookup q (heap_of (join_as_host net ws r o j.peer_id st)) ≡ lookup q (heap_of st)
  unfolding join_as_host write
  join_as_host-other q ne =
      let o' = take_over o j.peer_id in
      let st' = put r o' st in
      ground (
        arith,
        enter-heap net ws r o' j.peer_id true false st',
        lookup-insert q r
            (admit_peer net.now net.new_token (joined_peers ws o' j.peer_id st') o' j.peer_id).1
            (heap_of st'),
        lookup-insert q r o' (heap_of st),
      )

  pub join_session-host :
      (q : ℕ)
      → (host_at q (heap_of (join_session net ws r o j st)) ≡ host_at q (heap_of st))
        ⊎ ((q ≡ r) × Recovers net j o)
  unfolding write add_pending
  join_session-host q =
      join_session_cases
        (λ st'. (host_at q (heap_of st') ≡ host_at q (heap_of st)) ⊎ ((q ≡ r) × Recovers net j o))
        net ws r o j st (λ st' e. inl (rw e))
        (λ c t m used _ _ _. inl (enter-host false true q used))
        (λ st' _ _ e. inl (rw e (host_at-insert q r o _ (heap_of st) at refl)))
        (λ _ rec. elim (Bool-cases (q == r)) [
          | inl same ↦ inr (ground arith, rec)
          | inr other ↦ inl (rw (join_as_host-other q other, host_at))
        ])
        (λ _ _. inl (enter-host false false q st.used_proof_nonces))

  -- A new seat is the seat of the peer that the frame names.
  enter-peer :
      (h m : Bool) (q : ℕ) (p : String) (used : Dict String ℕ)
      → peer_at q
          (heap_of (enter net ws r o j.peer_id h m (record st { used_proof_nonces = used })))
          p
        ≡ true
      → (peer_at q (heap_of st) p ≡ true) ⊎ ((q ≡ r) × (p ≡ j.peer_id))
  enter-peer h m q p used seated =
      let st' = record st { used_proof_nonces = used } in
      let c = joined_peers ws o j.peer_id st' in
      peer_at-insert q r o (admit_peer net.now net.new_token c o j.peer_id).1 (heap_of st) p at
        (admit_peer-has net.now net.new_token c o j.peer_id p)
        (rw (enter-heap net ws r o j.peer_id h m st') at seated)

  join_as_host-peer :
      (q : ℕ) (p : String)
      → peer_at q (heap_of (join_as_host net ws r o j.peer_id st)) p ≡ true
      → (peer_at q (heap_of st) p ≡ true) ⊎ ((q ≡ r) × (p ≡ j.peer_id))
  unfolding join_as_host write
  join_as_host-peer q p seated =
      let o' = take_over o j.peer_id in
      let st' = put r o' st in
      let c = joined_peers ws o' j.peer_id st' in
      elim (peer_at-insert q r o' (admit_peer net.now net.new_token c o' j.peer_id).1 (heap_of st')
        p (ground (arith, lookup-insert r r o' (heap_of st)))
        (admit_peer-has net.now net.new_token c o' j.peer_id p)
        (rw (enter-heap net ws r o' j.peer_id true false st') at seated)) [
          | inr new ↦ inr new
          | inl old ↦
              elim (peer_at-insert q r o o' (heap_of st) p {G = ⊥} at
                (λ h. inl (take_over-has o j.peer_id p h)) old) [
                  | inl before ↦ inl before
                  | inr (_, never) ↦ absurd never
                ]
        ]

  abbrev pub Seats : ℕ → String → Type 0
  Seats q p = (q ≡ r) × (p ≡ j.peer_id) × (Recovers net j o ⊎ IsMember net j o)

  known_peer :
      (q : ℕ) (p : String)
      → contains inherited_names p ≡ false
      → has_slot j.peer_id o.peers ≡ true
      → q ≡ r
      → p ≡ j.peer_id
      → peer_at q (heap_of st) p ≡ true
  unfolding has_slot
  known_peer q p own known qr pj =
      let known' : has_slot p o.peers ≡ true = rw pj known in rw qr (ground arith)

  pub join_session-peer :
      (q : ℕ) (p : String)
      → contains inherited_names p ≡ false
      → peer_at q (heap_of (join_session net ws r o j st)) p ≡ true
      → (peer_at q (heap_of st) p ≡ true) ⊎ Seats q p
  unfolding write add_pending
  join_session-peer q p own =
      join_session_cases
        (λ st'. peer_at q (heap_of st') p ≡ true → (peer_at q (heap_of st) p ≡ true) ⊎ Seats q p)
        net ws r o j st (λ st' e h. inl (rw e at h))
        (λ c t m used g d v h. elim (enter-peer false true q p used h) [
          | inl before ↦ inl before
          | inr (qr, pj) ↦ inr (qr, pj, inr (c, t, m, g, d, v))
        ])
        (λ st' _ _ e h.
          elim (peer_at-insert q r o _ (heap_of st) p {G = ⊥} at (λ x. inl x) (rw e at h)) [
            | inl before ↦ inl before
            | inr (_, never) ↦ absurd never
          ])
        (λ _ rec h. elim (join_as_host-peer q p h) [
          | inl before ↦ inl before
          | inr (qr, pj) ↦ inr (qr, pj, inl rec)
        ])
        (λ _ known h. elim (enter-peer false false q p st.used_proof_nonces h) [
          | inl before ↦ inl before
          | inr (qr, pj) ↦ inl (known_peer q p own known qr pj)
        ])

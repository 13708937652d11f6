-- ===== src/Server/Transport/Branches.antt =====
-- The branches of the `join` handler, as one rule: what holds after each kind of branch holds after the
-- handler. A branch that only answers leaves the session objects as they are.
use quantum_bunker.Base.{
  ℕ, ◌<◌, ◌⊎◌, String, true, false, Option, none, some, ◌≡◌, refl, arith, length, nat_eq, string_eq,
  ◌==◌, leb, Bool-cases, Option-cases, inl, inr,
}
use quantum_bunker.Base.Dict.{Dict, lookup}
use quantum_bunker.Limits.{max_pending_peers}
use quantum_bunker.Shared.Membership.{
  MembershipToken, valid, invalid, VerifyResult, verify_membership,
}
use quantum_bunker.Server.Session.{Session, has_slot}
use quantum_bunker.Server.Schemas.{JoinFrame}
use quantum_bunker.Server.Security.{safe_equal}
use quantum_bunker.Server.Transport.{Net, WsState, store_of, put, persist, conn_key, open_socket}
use quantum_bunker.Server.Transport.Slots.{is_full}
use quantum_bunker.Server.Transport.Join.{
  Credentials, consume_proof_nonce, credentials, enter, join_as_host, rejoin, join_as_member,
  present_membership, request_join, ask_host, add_pending, join_as_guest, join_session,
}
use quantum_bunker.Server.Transport.Frame.{heap_of, bind_pending-relay, save-heap}

pub Verify-cases :
    (v : VerifyResult) → ((m : String) × (v ≡ valid m)) ⊎ ((r : String) × (v ≡ invalid r))
Verify-cases (valid m) = inl (m, refl)
Verify-cases (invalid r) = inr (r, refl)

module _ {ℓ} (P : WsState → Type ℓ) (net : Net) (ws r : ℕ) (o : Session) (j : JoinFrame)
    (st : WsState) (answers : (st' : WsState) → heap_of st' ≡ heap_of st → P st') where
  rejoin_cases : P (enter net ws r o j.peer_id false false st) → P (rejoin net ws r o j st)
  unfolding rejoin
  rejoin_cases entered =
      let peer = lookup j.peer_id o.peers in
      let token : Option String = elim peer [ none ↦ none | some p ↦ p.token ] in
      elim (Bool-cases (safe_equal net.sha256 j.peer_token token)) [
        | inl same ↦ rw (same, rejoin) entered
        | inr other ↦
            elim (Option-cases
              (open_socket net (lookup (conn_key o.id j.peer_id) st.connections))) [
                | inl gone ↦ rw (other, rejoin, gone) entered
                | inr (old, alive) ↦ rw (other, rejoin, alive) (answers _ refl)
              ]
      ]

  present_membership_cases :
      (c : Credentials) (t : MembershipToken)
      → ((m : String) (used : Dict String ℕ)
          → verify_membership net.ed25519 c.host_public o.id j.peer_id t c.proof net.now ≡ valid m
          → P (enter net ws r o j.peer_id false true (record st { used_proof_nonces = used })))
      → P (present_membership net ws r o j.peer_id c.host_public t c.proof st)
  unfolding present_membership
  present_membership_cases c t member =
      let (fresh, used) = consume_proof_nonce net.now o.id c.proof.nonce st.used_proof_nonces in
      elim (Verify-cases
        (verify_membership net.ed25519 c.host_public o.id j.peer_id t c.proof net.now)) [
          | inr (reason, bad) ↦ rw (bad, present_membership) (answers _ refl)
          | inl (m, good) ↦ elim (Bool-cases fresh) [
            | inl new ↦ rw (good, present_membership, new) (member m used good)
            | inr again ↦ rw (good, present_membership, again) (answers _ refl)
          ]
        ]

  join_as_member_cases :
      (c : Credentials)
      → ((t : MembershipToken) (m : String) (used : Dict String ℕ)
          → net.decode_token c.token ≡ some t
          → verify_membership net.ed25519 c.host_public o.id j.peer_id t c.proof net.now ≡ valid m
          → P (enter net ws r o j.peer_id false true (record st { used_proof_nonces = used })))
      → P (join_as_member net ws r o j.peer_id c.token c.host_public c.proof st)
  unfolding join_as_member
  join_as_member_cases c member = elim (Option-cases (net.decode_token c.token)) [
    | inl bad ↦ rw (bad, join_as_member) (answers _ refl)
    | inr (t, good) ↦
        rw (good, join_as_member)
          (present_membership_cases c t (λ m used v. member t m used good v))
  ]

  ask_host_cases :
      (host_ws : ℕ)
      → ((st' : WsState)
          → has_slot j.peer_id o.pending_peers ≡ false
          → length o.pending_peers < max_pending_peers
          → heap_of st' ≡ heap_of (put r (add_pending net.now j.peer_id j.message o) st)
          → P st')
      → P (ask_host net ws r o j host_ws st)
  unfolding ask_host
  ask_host_cases host_ws asked = elim (Bool-cases (has_slot j.peer_id o.pending_peers)) [
    | inl known ↦
        rw (known, ask_host) (answers _ (ground (arith, bind_pending-relay ws o j.peer_id st)))
    | inr new ↦ elim (Bool-cases (leb max_pending_peers (length o.pending_peers))) [
      | inl many ↦ rw (new, ask_host, many) (answers _ refl)
      | inr few ↦
          let added = put r (add_pending net.now j.peer_id j.message o) st in
          rw (new, ask_host, few)
            (asked _ new (ground arith) (
              ground (
                arith,
                bind_pending-relay ws o j.peer_id (persist r added),
                save-heap r (store_of added),
              )))
    ]
  ]

  request_join_cases :
      ((st' : WsState)
        → has_slot j.peer_id o.pending_peers ≡ false
        → length o.pending_peers < max_pending_peers
        → heap_of st' ≡ heap_of (put r (add_pending net.now j.peer_id j.message o) st)
        → P st')
      → P (request_join net ws r o j st)
  unfolding request_join
  request_join_cases asked =
      elim (Option-cases (open_socket net (lookup (conn_key o.id o.host_id) st.connections))) [
        | inl away ↦ rw (away, request_join) (answers _ refl)
        | inr (host_ws, here) ↦ rw (here, request_join) (ask_host_cases host_ws asked)
      ]

  module _
      (member : (c : Credentials) (t : MembershipToken) (m : String) (used : Dict String ℕ)
        → credentials j o ≡ some c
        → net.decode_token c.token ≡ some t
        → verify_membership net.ed25519 c.host_public o.id j.peer_id t c.proof net.now ≡ valid m
        → P (enter net ws r o j.peer_id false true (record st { used_proof_nonces = used })))
      (asked : (st' : WsState)
        → has_slot j.peer_id o.pending_peers ≡ false
        → length o.pending_peers < max_pending_peers
        → heap_of st' ≡ heap_of (put r (add_pending net.now j.peer_id j.message o) st)
        → P st') where
    join_as_guest_cases : P (join_as_guest net ws r o j st)
    unfolding join_as_guest
    join_as_guest_cases = elim (Option-cases (credentials j o)) [
      | inl absent ↦ rw (absent, join_as_guest) (request_join_cases asked)
      | inr (c, given) ↦
          rw (given, join_as_guest)
            (join_as_member_cases c (λ t m used d v. member c t m used given d v))
    ]

    -- Each hypothesis carries the tests that lead to its branch.
    pub join_session_cases :
        (is_full o j.peer_id ≡ false
          → safe_equal net.sha256 j.host_recovery_token (some o.host_recovery_token) ≡ true
          → P (join_as_host net ws r o j.peer_id st))
        → (is_full o j.peer_id ≡ false
            → has_slot j.peer_id o.peers ≡ true
            → P (enter net ws r o j.peer_id false false st))
        → P (join_session net ws r o j st)
    unfolding join_session
    join_session_cases hosted again = elim (Bool-cases (is_full o j.peer_id)) [
      | inl full ↦ rw (full, join_session) (answers _ refl)
      | inr room ↦
          elim (Bool-cases
            (safe_equal net.sha256 j.host_recovery_token (some o.host_recovery_token))) [
              | inl host ↦ rw (room, join_session, host) (hosted room host)
              | inr guest ↦ elim (Bool-cases (j.peer_id == o.host_id)) [
                | inl claims ↦ rw (room, join_session, guest, claims) (answers _ refl)
                | inr plain ↦ elim (Bool-cases (has_slot j.peer_id o.peers)) [
                  | inl known ↦
                      rw (room, join_session, guest, plain, known) (rejoin_cases (again room known))
                  | inr new ↦ rw (room, join_session, guest, plain, new) join_as_guest_cases
                ]
              ]
            ]
    ]

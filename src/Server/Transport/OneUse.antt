-- ===== src/Server/Transport/OneUse.antt =====
-- ws.transport.ts, `consumeProofNonce`: a join proof is good for one join.
use quantum_bunker.Base.{
  ℕ, ◌+◌, ◌≤◌, ◌<◌, String, true, false, List, [], ◌∷◌, ◌≡◌, refl, ◌∙◌, ap, arith, string_eq,
  length, inl, inr, Bool-cases, nat_eq, some, subst,
}
use quantum_bunker.Base.Dict.{has, lookup, has-lookup}
use quantum_bunker.Limits.{nonce_cache_max}
use quantum_bunker.Shared.Membership.{
  MembershipToken, JoinProof, VerifyResult, valid, verify_membership,
}
use quantum_bunker.Shared.Membership.Verification.{Near, verify_membership_iff}
use quantum_bunker.Server.Session.{Session}
use quantum_bunker.Server.Transport.{Net, WsState}
use quantum_bunker.Server.Transport.Join.{
  consume_proof_nonce, present_membership, invalid_membership,
}
use quantum_bunker.Server.Transport.Lifecycle.{prune_stale_counters}
use quantum_bunker.Server.Transport.Frame.{heap_of}
use quantum_bunker.Server.Transport.Branches.{Verify-cases}
use quantum_bunker.Server.Transport.ProofCache.{
  proof_key, enter-used, consume_proof_nonce-has, consume_proof_nonce_records,
  length-consume_proof_nonce-le, consume_proof_nonce_keeps, prune_stale_counters_keeps,
  length-prune_stale_counters-le,
}

-- A membership join: who presents which token and proof to which session, on which socket.
pub record Presentation : Type 0 where
  pub net : Net
  pub ws : ℕ
  pub r : ℕ
  pub session : Session
  pub peer_id : String
  pub host_public : String
  pub token : MembershipToken
  pub proof : JoinProof

abbrev pub present : Presentation → WsState → WsState
present p st =
    present_membership p.net p.ws p.r p.session p.peer_id p.host_public p.token p.proof st

-- What else touches the nonces: further membership joins, and the prunings of stale counters.
pub data NonceStep : Type 0 where
  presents : Presentation → NonceStep
  prunes : (now : ℕ) → NonceStep

abbrev pub step : NonceStep → WsState → WsState
step (presents p) st = present p st
step (prunes now) st = prune_stale_counters now st

abbrev pub run : List NonceStep → WsState → WsState
run [] st = st
run (s ∷ ss) st = run ss (step s st)

-- No pruning is later than `end`.
abbrev pub PrunesBy : ℕ → List NonceStep → Type 0
PrunesBy end [] = Unit
PrunesBy end (presents p ∷ ss) = PrunesBy end ss
PrunesBy end (prunes now ∷ ss) = (now ≤ end) × PrunesBy end ss

abbrev pub verdict : Presentation → VerifyResult
verdict p =
    verify_membership p.net.ed25519 p.host_public p.session.id p.peer_id p.token p.proof p.net.now

present-consumes :
    (p : Presentation) (st : WsState) (m : String)
    → verdict p ≡ valid m
    → (present p st).used_proof_nonces
      ≡ (consume_proof_nonce p.net.now p.session.id p.proof.nonce st.used_proof_nonces).1
unfolding present_membership invalid_membership
present-consumes p st m good =
    let (fresh, used) =
      consume_proof_nonce p.net.now p.session.id p.proof.nonce st.used_proof_nonces in
    elim (Bool-cases fresh) [
      | inl new ↦
          rw (good, present_membership, new)
            (enter-used p.net p.ws p.r p.session p.peer_id false true
              (record st { used_proof_nonces = used }))
      | inr seen ↦ rw (good, present_membership, seen) refl
    ]

present-keeps :
    (p : Presentation) (st : WsState) (k : String) (at : ℕ)
    → length st.used_proof_nonces < nonce_cache_max
    → lookup k st.used_proof_nonces ≡ some at
    → (lookup k (present p st).used_proof_nonces ≡ some at)
      × (length (present p st).used_proof_nonces ≤ length st.used_proof_nonces + 1)
unfolding present_membership invalid_membership
present-keeps p st k at room h = elim (Verify-cases (verdict p)) [
  | inr (reason, bad) ↦ rw (bad, present_membership) (h, omega arith)
  | inl (m, good) ↦
      let used = st.used_proof_nonces in
      rw (present-consumes p st m good) (
        consume_proof_nonce_keeps p.net.now p.session.id p.proof.nonce used k at room h,
        length-consume_proof_nonce-le p.net.now p.session.id p.proof.nonce used,
      )
]

-- A nonce stays as long as there is room and no pruning comes more than two minutes after it.
run-keeps :
    (ss : List NonceStep) (st : WsState) (k : String) (at : ℕ)
    → length st.used_proof_nonces + length ss ≤ nonce_cache_max
    → PrunesBy (at + 120000) ss
    → lookup k st.used_proof_nonces ≡ some at
    → lookup k (run ss st).used_proof_nonces ≡ some at
run-keeps [] st k at le by h = h
run-keeps (presents p ∷ ss) st k at le by h =
    let (kept, grown) = present-keeps p st k at (omega arith) h in
    run-keeps ss (present p st) k at (omega arith) by kept
run-keeps (prunes now ∷ ss) st k at le (soon, by) h =
    let fewer = length-prune_stale_counters-le now st in
    run-keeps ss (prune_stale_counters now st) k at (omega (arith, fewer, le)) by
      (prune_stale_counters_keeps now st k at soon h)

PrunesBy-later : (a b : ℕ) (ss : List NonceStep) → a ≤ b → PrunesBy a ss → PrunesBy b ss
PrunesBy-later a b [] le by = tt
PrunesBy-later a b (presents p ∷ ss) le by = PrunesBy-later a b ss le by
PrunesBy-later a b (prunes now ∷ ss) le (soon, by) =
    (omega (arith, soon, le), PrunesBy-later a b ss le by)

-- A proof that verifies is at most a minute from the time at which it does.
verdict-Near :
    (p : Presentation) (m : String) (t : ℕ)
    → verdict p ≡ valid m
    → p.proof.timestamp.value ≡ some t
    → Near p.net.now (some t)
verdict-Near p m t good dated =
    let (authorized, _) =
      (verify_membership_iff p.net.ed25519 p.host_public p.session.id p.peer_id p.token p.proof
          p.net.now m).0
        good in
    subst (Near p.net.now) dated authorized.recent

present_membership_used :
    (net : Net) (ws r : ℕ) (o : Session) (pid host_public : String) (t : MembershipToken)
    (proof : JoinProof) (st : WsState)
    → has (proof_key o.id proof.nonce) st.used_proof_nonces ≡ true
    → heap_of (present_membership net ws r o pid host_public t proof st) ≡ heap_of st
unfolding present_membership invalid_membership
present_membership_used net ws r o pid host_public t proof st h =
    let seen = consume_proof_nonce-has net.now o.id proof.nonce st.used_proof_nonces in
    elim (Verify-cases (verify_membership net.ed25519 host_public o.id pid t proof net.now)) [
      | inr (reason, bad) ↦ rw (bad, present_membership) refl
      | inl (m, good) ↦ ground (arith, seen, good, h)
    ]

-- Once a join proof with a time verified, with a nonce that is new to the session, a further membership
-- join there with a proof of the same nonce and time, of whatever peer, token and proof, leaves all session
-- objects as they are: whatever membership joins come in between, as long as the cache has room for
-- their nonces, and however often stale nonces are pruned in between, by a clock that does not go back.
pub present_membership_once :
    (first again : Presentation) (between : List NonceStep) (st : WsState) (member : String) (t : ℕ)
    → verdict first ≡ valid member
    → has (proof_key first.session.id first.proof.nonce) st.used_proof_nonces ≡ false
    → first.proof.timestamp.value ≡ some t
    → again.session.id ≡ first.session.id
    → again.proof.nonce ≡ first.proof.nonce
    → again.proof.timestamp.value ≡ some t
    → PrunesBy again.net.now between
    → length st.used_proof_nonces + 1 + length between ≤ nonce_cache_max
    → let later = run between (present first st) in heap_of (present again later) ≡ heap_of later
unfolding present_membership invalid_membership
present_membership_once first again between st member t good new dated same_id same_nonce
      dated_again by room =
    let later = run between (present first st) in
    elim (Verify-cases (verdict again)) [
      | inr (reason, bad) ↦ rw (bad, present_membership) refl
      | inl (m, good_again) ↦
          let id = first.session.id in
          let nonce = first.proof.nonce in
          let key = proof_key id nonce in
          let now = first.net.now in
          let consumed = present-consumes first st member good in
          let grown = length-consume_proof_nonce-le now id nonce st.used_proof_nonces in
          let recorded : lookup key (present first st).used_proof_nonces ≡ some now =
            ap (lookup key) consumed
            ∙ consume_proof_nonce_records now id nonce st.used_proof_nonces new in
          let near = verdict-Near first member t good dated in
          let near_again = verdict-Near again m t good_again dated_again in
          let in_time =
            PrunesBy-later again.net.now (now + 120000) between (omega (arith, near, near_again))
              by in
          let size = ap length consumed in
          let kept =
            run-keeps between (present first st) key now (omega (arith, grown, size, room)) in_time
              recorded in
          present_membership_used again.net again.ws again.r again.session again.peer_id
            again.host_public again.token again.proof later
            (ap (λ k. has k later.used_proof_nonces)
                (ap (λ s. proof_key s again.proof.nonce) same_id ∙ ap (proof_key id) same_nonce)
              ∙ ground (arith, has-lookup key later.used_proof_nonces, kept))
    ]

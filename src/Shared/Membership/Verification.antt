-- ===== src/Shared/Membership/Verification.antt =====
-- Who gets in by a membership token.
use quantum_bunker.Base.{
  Option, none, inl, inr, Option-cases, ℕ, ◌+◌, ◌≤◌, ◌≡◌, refl, ◌↔◌, String, true, some, arith,
  nat_eq, string_eq,
}
use quantum_bunker.Shared.Membership.{
  Ed25519, KeyPair, MembershipToken, JoinProof, membership_version, join_proof_tolerance_ms,
  canonical_claims, canonical_proof, issue_membership_token, create_join_proof, valid, distance,
  verify_membership,
}

-- A time that is no number counts as not over, and as near now.
abbrev pub NotOver : ℕ → Option ℕ → Type 0
NotOver now none = Unit
NotOver now (some t) = now ≤ t

abbrev pub Near : ℕ → Option ℕ → Type 0
Near now none = Unit
Near now (some t) = (now ≤ t + 60000) × (t ≤ now + 60000)

-- What a valid token and proof say: the host signed this member's key for this vault until a time that
-- has not passed, and the member signed this vault, this peer id and a time near now with that key.
pub record IsAuthorized (ed : Ed25519) (host_public session_id peer_id : String)
    (token : MembershipToken) (proof : JoinProof) (now : ℕ) : Type 0 where
  pub version : token.claims.v ≡ membership_version
  pub vault : token.claims.sid ≡ session_id
  pub unexpired : NotOver now token.claims.exp.value
  pub proof_vault : proof.session_id ≡ session_id
  pub proof_peer : proof.peer_id ≡ peer_id
  pub same_key : proof.mpk ≡ token.claims.mpk
  pub recent : Near now proof.timestamp.value
  pub host_signed : ed.verify host_public (canonical_claims token.claims) token.sig ≡ some true
  pub member_signed : ed.verify proof.mpk (canonical_proof proof) proof.sig ≡ some true

module _ (ed : Ed25519) (host_public session_id peer_id : String) (token : MembershipToken)
    (proof : JoinProof) (now : ℕ) where
  -- A member is let in exactly when its token has the version of the code, names this vault, is signed by
  -- the host and has no expiry that is a number and has passed; its proof names this vault, this peer and
  -- the token's key, is signed under that key and has no time that is a number and more than a minute
  -- from `now`; the key told is the token's.
  pub verify_membership_iff :
      (k : String)
      → (verify_membership ed host_public session_id peer_id token proof now ≡ valid k)
        ↔ (IsAuthorized ed host_public session_id peer_id token proof now × (k ≡ token.claims.mpk))
  unfolding verify_membership
  verify_membership_iff k = elim (Option-cases token.claims.exp.value) [
    | inl endless ↦ elim (Option-cases proof.timestamp.value) [
      | inl undated ↦ (λ h. ground (arith, endless, undated), λ h. ground (arith, endless, undated))
      | inr (t, dated) ↦ (λ h. ground (arith, endless, dated), λ h. ground (arith, endless, dated))
    ]
    | inr (end, ends) ↦ elim (Option-cases proof.timestamp.value) [
      | inl undated ↦ (λ h. ground (arith, ends, undated), λ h. ground (arith, ends, undated))
      | inr (t, dated) ↦ (λ h. ground (arith, ends, dated), λ h. ground (arith, ends, dated))
    ]
  ]

-- A key pair works if what its secret key signs, its public key verifies.
abbrev pub SignsFor : Ed25519 → (secret public : String) → Type 0
SignsFor ed secret public = (m : String) → ed.verify public m (ed.sign secret m) ≡ some true

-- A token that the host issued, with a proof that the member made within a minute before or after
-- `now`, lets the member in, as long as the token's time is not over.
pub verify_membership-issue :
    (ed : Ed25519) (host_secret host_public : String) (member : KeyPair)
    (session_id peer_id nonce : String) (issued ttl_ms signed now : ℕ)
    → SignsFor ed host_secret host_public
    → SignsFor ed member.secret_key member.public_key
    → now ≤ issued + ttl_ms
    → distance now signed ≤ join_proof_tolerance_ms
    → verify_membership ed host_public session_id peer_id
        (issue_membership_token ed host_secret member.public_key session_id ttl_ms issued)
        (create_join_proof ed member session_id peer_id nonce signed)
        now
      ≡ valid member.public_key
verify_membership-issue ed hs hp member sid pid nonce issued ttl_ms signed now host_ok member_ok le
      near =
    let token = issue_membership_token ed hs member.public_key sid ttl_ms issued in
    let proof = create_join_proof ed member sid pid nonce signed in
    unfold issue_membership_token create_join_proof canonical_proof in
    (verify_membership_iff ed hp sid pid token proof now member.public_key).1 (
      record {
        version = refl;
        vault = refl;
        unexpired = le;
        proof_vault = refl;
        proof_peer = refl;
        same_key = refl;
        recent = (omega arith, omega arith);
        host_signed = host_ok _;
        member_signed = member_ok _;
      },
      refl,
    )

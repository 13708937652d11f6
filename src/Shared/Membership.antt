-- ===== src/Shared/Membership.antt =====
-- src/shared/membership.ts: the host's membership tokens and the members' join proofs. Ed25519 is a
-- parameter: `sign` and `verify` take base64url keys and signatures, and `verify` gives `none` where
-- the decoding or the check throws. Tokens and proofs are parsed JSON whose members the server does not
-- check: what it compares with a time need not be a number, and any other member is its text.
use quantum_bunker.Base.{
  ℕ, ◌+◌, ◌-◌, ◌*◌, String, ◌<>◌, Bool, true, false, not, Option, none, some, ltb, if◌then◌else◌,
  ◌==◌, nat_eq, string_eq, ◌||◌, ◌≡◌,
}
use quantum_bunker.Base.Decimal.{decimal}
pub mod Verification

pub record KeyPair : Type 0 where
  pub public_key : String
  pub secret_key : String

pub record Ed25519 : Type 0 where
  pub sign : (secret message : String) → String
  pub verify : (public message signature : String) → Option Bool

abbrev pub membership_version : ℕ
membership_version = 1

abbrev pub join_proof_tolerance_ms : ℕ
join_proof_tolerance_ms = 60 * 1000

-- A member that should be a number: the number that JavaScript converts it to, none where that is NaN, as
-- for a missing member, and the text that it prints. Negative numbers and fractions are left out.
pub record JsonNumber : Type 0 where
  pub value : Option ℕ
  pub printed : String

abbrev pub number : ℕ → JsonNumber
number n = record { value = some n; printed = decimal n }

pub record MembershipClaims : Type 0 where
  pub v : ℕ
  pub sid : String
  pub mpk : String
  pub iat : JsonNumber
  pub exp : JsonNumber

pub record MembershipToken : Type 0 where
  pub claims : MembershipClaims
  pub sig : String

pub record JoinProof : Type 0 where
  pub mpk : String
  pub session_id : String
  pub peer_id : String
  pub timestamp : JsonNumber
  pub nonce : String
  pub sig : String

infixr 64 ◌↵◌
abbrev ◌↵◌ : String → String → String
a ↵ b = a <> ("\n" <> b)

unfoldable pub canonical_claims : MembershipClaims → String
canonical_claims c = decimal c.v ↵ c.sid ↵ c.mpk ↵ c.iat.printed ↵ c.exp.printed

-- The signature is not part of what it signs.
unfoldable pub canonical_proof : JoinProof → String
canonical_proof p = p.mpk ↵ p.session_id ↵ p.peer_id ↵ p.timestamp.printed ↵ p.nonce

module _ (ed : Ed25519) where
  unfoldable pub issue_membership_token :
      (host_secret member_public session_id : String) (ttl_ms now : ℕ) → MembershipToken
  issue_membership_token host_secret member_public session_id ttl_ms now =
      let claims : MembershipClaims = record {
        v = membership_version;
        sid = session_id;
        mpk = member_public;
        iat = number now;
        exp = number (now + ttl_ms);
      } in
      record { claims = claims; sig = ed.sign host_secret (canonical_claims claims) }

  unfoldable pub create_join_proof :
      KeyPair → (session_id peer_id nonce : String) (now : ℕ) → JoinProof
  create_join_proof member session_id peer_id nonce now =
      let base : JoinProof = record {
        mpk = member.public_key;
        session_id = session_id;
        peer_id = peer_id;
        timestamp = number now;
        nonce = nonce;
        sig = "";
      } in
      record base { sig = ed.sign member.secret_key (canonical_proof base) }

pub data VerifyResult : Type 0 where
  valid : (member_public_key : String) → VerifyResult
  invalid : (reason : String) → VerifyResult

-- `Math.abs(a - b)`.
abbrev pub distance : ℕ → ℕ → ℕ
distance a b = (a - b) + (b - a)

-- Comparisons with NaN are false.
abbrev pub is_before : Option ℕ → ℕ → Bool
is_before none now = false
is_before (some t) now = ltb t now

abbrev pub is_far : ℕ → Option ℕ → Bool
is_far now none = false
is_far now (some t) = ltb join_proof_tolerance_ms (distance now t)

-- The two signature checks at the end, each with the reason for a throw and for a bad signature.
abbrev check_signature : Option Bool → (malformed wrong : String) → VerifyResult → VerifyResult
check_signature none malformed wrong next = invalid malformed
check_signature (some false) malformed wrong next = invalid wrong
check_signature (some true) malformed wrong next = next

unfoldable pub verify_membership :
    Ed25519
    → (host_public session_id peer_id : String) → MembershipToken
    → JoinProof
    → (now : ℕ) → VerifyResult
verify_membership ed host_public session_id peer_id token proof now =
    if not (token.claims.v == membership_version)
    then invalid "Unsupported token version"
    else (if not (token.claims.sid == session_id)
        then invalid "Token not for this vault"
        else (if is_before token.claims.exp.value now
            then invalid "Token expired"
            else (if not (proof.session_id == session_id) || not (proof.peer_id == peer_id)
                then invalid "Proof binding mismatch"
                else (if not (proof.mpk == token.claims.mpk)
                    then invalid "Proof key does not match token"
                    else (if is_far now proof.timestamp.value
                        then invalid "Proof timestamp out of tolerance"
                        else check_signature
                            (ed.verify host_public (canonical_claims token.claims) token.sig)
                            "Malformed token signature" "Token signature invalid"
                            (check_signature (ed.verify proof.mpk (canonical_proof proof) proof.sig)
                              "Malformed proof signature" "Proof signature invalid"
                              (valid token.claims.mpk)))))))

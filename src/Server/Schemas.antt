-- ===== src/Server/Schemas.antt =====
-- src/shared/contracts/v1/schemas.ts. `is_uuid` stands for zod's `uuid()`. A field of a frame is
-- missing, a text, or something else.
use quantum_bunker.Base.{
  ℕ, String, Bool, not, ◌&&◌, ◌||◌, List, [], ◌∷◌, Option, none, some, leb, ltb, if◌then◌else◌,
  ◌==◌, contains, nat_eq, string_eq, count as text_length,
}
use quantum_bunker.Limits.{max_payload_bytes}
use quantum_bunker.Shared.Text.{every, trim}
use quantum_bunker.Shared.Membership.{JoinProof}
use quantum_bunker.Server.Events.{RelayEnvelope}

pub data Field : Type 0 where
  missing : Field
  text : String → Field
  other : Field

unfoldable pub is_peer_id_char : ℕ → Bool
is_peer_id_char c =
    leb b'A' c && leb c b'Z'
    || (leb b'a' c && leb c b'z' || (leb b'0' c && leb c b'9' || (c == b'_' || c == b'-')))

abbrev pub reserved_ids : List String
reserved_ids = "__proto__" ∷ "constructor" ∷ "prototype" ∷ []

-- `PeerIdSchema`.
unfoldable pub is_peer_id : String → Bool
unfolding is_peer_id_char every
is_peer_id id =
    leb 1 (text_length id)
    && leb (text_length id) 64
    && every is_peer_id_char id
    && not (contains reserved_ids id)

unfoldable pub parse_peer_id : Field → Option String
parse_peer_id missing = none
parse_peer_id (text id) = if is_peer_id id then some id else none
parse_peer_id other = none

-- `z.string().max(n).optional()`: the outer option is the failure.
unfoldable pub parse_optional : ℕ → Field → Option (Option String)
parse_optional n missing = some none
parse_optional n (text s) = if leb (text_length s) n then some (some s) else none
parse_optional n other = none

pub record RawJoin : Type 0 where
  pub session_id : Field
  pub peer_id : Field
  pub message : Field
  pub host_recovery_token : Field
  pub peer_token : Field
  pub membership_token : Field
  pub join_proof : Option JoinProof

pub record JoinFrame : Type 0 where
  pub session_id : String
  pub peer_id : String
  pub message : Option String
  pub host_recovery_token : Option String
  pub peer_token : Option String
  pub membership_token : Option String
  pub join_proof : Option JoinProof

infixl 5 ◌>>=◌
abbrev pub ◌>>=◌ {ℓ κ} : {A : Type ℓ} {B : Type κ} → Option A → (A → Option B) → Option B
none >>= k = none
some a >>= k = k a

abbrev pub trimmed : Field → Field
trimmed (text s) = text (trim s)
trimmed missing = missing
trimmed other = other

unfoldable pub parse_uuid : (String → Bool) → Field → Option String
parse_uuid is_uuid missing = none
parse_uuid is_uuid (text s) = if is_uuid s then some s else none
parse_uuid is_uuid other = none

-- `JoinFrameSchema`, after the trimming of the two ids by the handler.
unfoldable pub parse_join : (String → Bool) → RawJoin → Option JoinFrame
unfolding parse_uuid parse_peer_id parse_optional
parse_join is_uuid raw = do
  session_id ← parse_uuid is_uuid (trimmed raw.session_id)
  peer_id ← parse_peer_id (trimmed raw.peer_id)
  message ← parse_optional 256 raw.message
  host_recovery_token ← parse_optional 128 raw.host_recovery_token
  peer_token ← parse_optional 128 raw.peer_token
  membership_token ← parse_optional 8192 raw.membership_token
  some (record {
    session_id = session_id;
    peer_id = peer_id;
    message = message;
    host_recovery_token = host_recovery_token;
    peer_token = peer_token;
    membership_token = membership_token;
    join_proof = raw.join_proof;
  })

-- `RelayEnvelopeSchema`, for a frame whose fields have the right types.
unfoldable pub is_envelope : (String → Bool) → RelayEnvelope → Bool
is_envelope is_uuid e =
    is_uuid e.session_id
    && (leb 1 (text_length e.from)
        && leb (text_length e.from) 64
        && (ltb 0 e.timestamp
            && (leb 1 (text_length e.nonce)
                && leb (text_length e.nonce) 128
                && leb (text_length e.payload) max_payload_bytes)))

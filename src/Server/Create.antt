-- ===== src/Server/Create.antt =====
-- src/backend/application/use-cases/create-session.use-case.ts. The clock and the random ids are
-- arguments.
use Prim.Native.String.{slice}
use quantum_bunker.Base.{
  ℕ, ◌+◌, ◌*◌, min, max, String, ◌<>◌, Bool, true, false, List, [], ◌∷◌, Option, none, some, leb,
  if◌then◌else◌, ◌==◌, nat_eq, string_eq,
}
use quantum_bunker.Limits
use quantum_bunker.Server.Session.{Session, SessionStatus}
use quantum_bunker.Server.Store.{Store, alloc, save, get, count}
use quantum_bunker.Server.Events.{DomainEvent, session_created}
pub mod Laws

pub record CreateSessionOptions : Type 0 where
  pub expires_in_seconds : Option ℕ
  pub name : Option String
  pub host_public_key : Option String
  pub id : Option String
  pub max_peers : Option ℕ

-- The values that `uuidv4` and `newToken` return in one call.
pub record FreshIds : Type 0 where
  pub host_uuid : String
  pub recovery_token : String
  pub session_uuid : String
  pub peer_token : String

pub data DomainErrorCode : Type 0 where
  session_not_found peer_limit_reached session_capacity_reached : DomainErrorCode

-- `execute` returns the session and `existing`, or throws.
pub data CreateOutcome : Type 0 where
  created : (session : ℕ) (existing : Bool) → CreateOutcome
  thrown : DomainErrorCode → CreateOutcome

unfoldable pub clamp_peers : Option ℕ → ℕ
clamp_peers none = Limits.max_peers
clamp_peers (some requested) =
    if requested == 0 then Limits.max_peers else min (max 2 requested) Limits.max_peers

-- `expiresInSeconds ? expiresInSeconds * 1000 : DEFAULT_TTL_MS`, then the ceiling.
unfoldable pub actual_ttl : Option ℕ → ℕ
actual_ttl none = min Limits.default_ttl_ms Limits.max_ttl_ms
actual_ttl (some seconds) =
    min (if seconds == 0 then Limits.default_ttl_ms else seconds * 1000) Limits.max_ttl_ms

-- An absent and an empty id are both falsy.
abbrev pub given_id : Option String → Option String
given_id none = none
given_id (some id) = if id == "" then none else some id

abbrev pub or_else : Option String → String → String
or_else none d = d
or_else (some a) d = a

unfoldable pub new_session : CreateSessionOptions → ℕ → FreshIds → Session
unfolding clamp_peers actual_ttl
new_session o now f =
    let host = "host-" <> slice f.host_uuid 0 8 in
    record {
      id = or_else (given_id o.id) f.session_uuid;
      name = o.name;
      created_at = now;
      expires_at = now + actual_ttl o.expires_in_seconds;
      last_activity_at = now;
      host_id = host;
      host_recovery_token = f.recovery_token;
      host_public_key = o.host_public_key;
      peers =
          (
            host,
            record { id = host; joined_at = now; last_seen_at = now; token = some f.peer_token },
          )
          ∷ [];
      pending_peers = [];
      status = SessionStatus.pending;
      max_peers = clamp_peers o.max_peers;
      participant_count = 1;
      empty_since = none;
      is_group = false;
    }

abbrev pub existing_session : Option String → Store → Option ℕ
existing_session none s = none
existing_session (some id) s = get id s

unfoldable pub open_session : Session → Store → CreateOutcome × Store × List DomainEvent
open_session sess s =
    let (r, t) = alloc sess s in
    (created r false, save r t, session_created sess.id sess.created_at sess.expires_at ∷ [])

unfoldable pub create_session :
    CreateSessionOptions → ℕ → FreshIds → Store → CreateOutcome × Store × List DomainEvent
unfolding open_session
create_session o now f s = elim (existing_session (given_id o.id) s) [
  | some r ↦ (created r true, s, [])
  | none ↦
      if leb Limits.max_active_sessions (count s)
      then (thrown session_capacity_reached, s, [])
      else open_session (new_session o now f) s
]

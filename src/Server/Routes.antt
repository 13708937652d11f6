-- ===== src/Server/Routes.antt =====
-- src/server.ts: the routes on sessions, past the parsing of the body. A handler returns the status and
-- what it answers; the clock is an argument, read once.
use quantum_bunker.Base.{
  ℕ, ◌+◌, ◌*◌, min, String, Bool, true, false, not, ◌&&◌, ◌||◌, List, [], ◌∷◌, Option, none, some,
  leb, ltb, if◌then◌else◌, ◌==◌, nat_eq, string_eq,
}
use quantum_bunker.Base.Dict.{lookup, has}
use quantum_bunker.Limits
use quantum_bunker.Shared.Text.{trim}
use quantum_bunker.Server.Session.{Session, SessionPeer, SessionStatus}
use quantum_bunker.Server.Store.{Store, get, deref, write, save}
use quantum_bunker.Server.Events.{DomainEvent}
use quantum_bunker.Server.Create.{
  CreateSessionOptions, FreshIds, CreateOutcome, created, thrown, DomainErrorCode,
  session_capacity_reached, create_session,
}
use quantum_bunker.Server.Security.{safe_equal}
pub mod Credentials

-- `PublicSessionInfo`.
pub record PublicSessionInfo : Type 0 where
  pub id : String
  pub name : Option String
  pub created_at : ℕ
  pub expires_at : ℕ
  pub status : SessionStatus
  pub participant_count : ℕ
  pub max_peers : ℕ

pub data CreateAnswer : Type 0 where
  joined_existing : (session_id : String) (expires_at : ℕ) → CreateAnswer
  opened :
      (session_id : String) (name : Option String) (expires_at : ℕ)
      (host_id host_recovery_token : String)
      → CreateAnswer
  refused : (status : ℕ) → CreateAnswer

-- `POST /api/sessions`.
unfoldable pub answer_created : CreateOutcome → Store → CreateAnswer
answer_created (thrown session_capacity_reached) s = refused 503
answer_created (thrown _) s = refused 500
answer_created (created r existing) s = elim (deref r s) [
  | none ↦ refused 500
  | some o ↦
      if existing
      then joined_existing o.id o.expires_at
      else opened o.id o.name o.expires_at o.host_id o.host_recovery_token
]

unfoldable pub post_session :
    CreateSessionOptions → ℕ → FreshIds → Store → CreateAnswer × Store × List DomainEvent
unfolding answer_created
post_session options now f s =
    let (result, t, events) = create_session options now f s in (answer_created result t, t, events)

unfoldable pub public_info : Session → PublicSessionInfo
public_info o = record {
  id = o.id;
  name = o.name;
  created_at = o.created_at;
  expires_at = o.expires_at;
  status = o.status;
  participant_count = o.participant_count;
  max_peers = o.max_peers;
}

-- `GET /api/sessions/:id`; none is the status 404.
unfoldable pub get_session : String → Store → Option PublicSessionInfo
unfolding public_info
get_session id s = elim (get (trim id) s) [
  | none ↦ none
  | some r ↦ elim (deref r s) [ none ↦ none | some o ↦ some (public_info o) ]
]

-- The headers of a refresh.
pub record RefreshHeaders : Type 0 where
  pub peer_id : Option String
  pub host_token : Option String
  pub peer_token : Option String

unfoldable pub is_peer : (String → String) → RefreshHeaders → Session → Bool
is_peer sha256 h o = elim h.peer_id [
  | none ↦ false
  | some id ↦ elim (lookup id o.peers) [
    | none ↦ false
    | some p ↦ safe_equal sha256 h.peer_token p.token
  ]
]

unfoldable pub refreshed : ℕ → Session → Session
refreshed now o = record o {
  expires_at = min (now + Limits.default_ttl_ms) (o.created_at + Limits.max_ttl_ms);
  last_activity_at = now;
}

-- `POST /api/sessions/:id/refresh`: the status, and the store.
unfoldable pub refresh_object :
    (String → String) → ℕ → RefreshHeaders → ℕ → Session → Store → ℕ × Store
unfolding is_peer refreshed
refresh_object sha256 now h r o s =
    if not (safe_equal sha256 h.host_token (some o.host_recovery_token)) && not (is_peer sha256 h o)
    then (403, s)
    else (if o.participant_count == 0
        then (409, s)
        else (200, save r (write r (refreshed now o) s)))

unfoldable pub refresh_session : (String → String) → ℕ → RefreshHeaders → String → Store → ℕ × Store
unfolding refresh_object
refresh_session sha256 now h id s = elim (get (trim id) s) [
  | none ↦ (404, s)
  | some r ↦ elim (deref r s) [ none ↦ (404, s) | some o ↦ refresh_object sha256 now h r o s ]
]

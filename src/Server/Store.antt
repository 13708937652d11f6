-- ===== src/Server/Store.antt =====
-- src/backend/adapters/store/in-memory-session.store.ts. `get` hands out the stored object, so the
-- store is an explicit heap: an object is a reference, the map holds references, and the weak set
-- `deleted` holds the references of the objects that were deleted.
use quantum_bunker.Base.{
  ℕ, suc, ◌-◌, String, Bool, true, false, ◌&&◌, ◌||◌, List, [], ◌∷◌, ◌++◌, Option, none, some, ltb,
  if◌then◌else◌, ◌==◌, contains, length, nat_eq, string_eq,
}
use quantum_bunker.Base.Dict.{Dict, lookup, insert, erase}
use quantum_bunker.Limits.{inactivity_ttl_ms, empty_session_ttl_ms}
use quantum_bunker.Server.Session.{Session}
pub mod Integrity
pub mod Deletion
pub mod Sweep

pub record Store : Type 0 where
  pub heap : Dict ℕ Session
  pub next_ref : ℕ
  pub sessions : Dict String ℕ
  pub deleted : List ℕ

unfoldable pub empty_store : Store
empty_store = record { heap = []; next_ref = 0; sessions = []; deleted = [] }

-- The object that a reference names.
unfoldable pub deref : ℕ → Store → Option Session
deref r s = lookup r s.heap

-- A new object, not yet saved.
unfoldable pub alloc : Session → Store → ℕ × Store
alloc o s = (s.next_ref, record s { heap = insert s.next_ref o s.heap; next_ref = suc s.next_ref })

-- Assignments to the fields of an object.
unfoldable pub write : ℕ → Session → Store → Store
write r o s = record s { heap = insert r o s.heap }

unfoldable pub save : ℕ → Store → Store
unfolding deref
save r s =
    if contains s.deleted r
    then s
    else elim (deref r s) [ none ↦ s | some o ↦ record s { sessions = insert o.id r s.sessions } ]

unfoldable pub get : String → Store → Option ℕ
get id s = lookup id s.sessions

unfoldable pub delete : String → Store → Store
unfolding get
delete id s = elim (get id s) [
  | none ↦ record s { sessions = erase id s.sessions }
  | some r ↦ record s { deleted = r ∷ s.deleted; sessions = erase id s.sessions }
]

unfoldable pub count : Store → ℕ
count s = length s.sessions

unfoldable pub touch : String → ℕ → Store → Store
unfolding get deref write
touch id now s = elim (get id s) [
  | none ↦ s
  | some r ↦ elim (deref r s) [
    | none ↦ s
    | some o ↦ write r (record o { last_activity_at = now }) s
  ]
]

-- `sess.emptySince !== null && (now - sess.emptySince) > EMPTY_SESSION_TTL_MS`
abbrev pub is_empty_too_long : ℕ → Option ℕ → Bool
is_empty_too_long now none = false
is_empty_too_long now (some since) = ltb empty_session_ttl_ms (now - since)

-- `isExpired || isInactive || isEmptyTooLong`. `now - t` stops at 0, where the test fails as well.
unfoldable pub is_reapable : ℕ → Session → Bool
is_reapable now o =
    ltb o.expires_at now
    || ltb inactivity_ttl_ms (now - o.last_activity_at)
    || (o.participant_count == 0 && is_empty_too_long now o.empty_since)

-- One round of the loop of `cleanup`.
unfoldable pub sweep_one : ℕ → String → ℕ → Store × List ℕ → Store × List ℕ
unfolding deref is_reapable
sweep_one now id r (s, gone) = elim (deref r s) [
  | none ↦ (s, gone)
  | some o ↦
      if is_reapable now o
      then (record s { sessions = erase id s.sessions; deleted = r ∷ s.deleted }, gone ++ r ∷ [])
      else (s, gone)
]

unfoldable pub sweep : ℕ → Dict String ℕ → Store × List ℕ → Store × List ℕ
sweep now [] acc = acc
sweep now ((id, r) ∷ entries) acc = sweep now entries (sweep_one now id r acc)

-- The sessions that were removed, in the order of the map.
unfoldable pub cleanup : ℕ → Store → Store × List ℕ
unfolding sweep
cleanup now s = sweep now s.sessions (s, [])

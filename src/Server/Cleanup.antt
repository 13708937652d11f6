-- ===== src/Server/Cleanup.antt =====
-- src/backend/application/use-cases/cleanup-sessions.use-case.ts. `now` is read before the store
-- reads its own clock, `swept_at`.
use quantum_bunker.Base.{ℕ, String, List, [], ◌∷◌, none, some, ltb, if◌then◌else◌}
use quantum_bunker.Server.Session.{Session}
use quantum_bunker.Server.Store.{Store, deref, cleanup}
use quantum_bunker.Server.Events.{DomainEvent, session_expired, ttl_expired, inactivity_timeout}

unfoldable pub expiry_event : ℕ → Session → DomainEvent
expiry_event now o =
    session_expired o.id now (if ltb o.expires_at now then ttl_expired else inactivity_timeout)
      o.last_activity_at

-- The objects of the list that the store returned.
unfoldable pub deref_all : Store → List ℕ → List Session
deref_all s [] = []
deref_all s (r ∷ rs) =
    let rest = deref_all s rs in elim (deref r s) [ none ↦ rest | some o ↦ o ∷ rest ]

unfoldable pub expiry_events : ℕ → List Session → List DomainEvent
expiry_events now [] = []
expiry_events now (o ∷ os) = expiry_event now o ∷ expiry_events now os

unfoldable pub ids : List Session → List String
ids [] = []
ids (o ∷ os) = o.id ∷ ids os

-- Returns the removed ids, the store, and the events.
unfoldable pub cleanup_sessions : ℕ → ℕ → Store → List String × Store × List DomainEvent
unfolding deref_all ids expiry_events
cleanup_sessions now swept_at s =
    let (t, gone) = cleanup swept_at s in
    let deleted = deref_all t gone in (ids deleted, t, expiry_events now deleted)

-- ===== src/Server/Create/Laws.antt =====
-- Creating a session: every branch of `create_session`, and what a new session is like.
use quantum_bunker.Base.{
  ◌⊎◌, Bool-cases, leb, ℕ, ◌+◌, ◌≤◌, ◌<◌, ◌≡◌, String, true, false, [], ◌∷◌, some, none, arith,
  length, string_eq, nat_eq, Option-cases, inl, inr, ◌==◌, if◌then◌else◌,
}
use quantum_bunker.Base.Dict.{has}
use quantum_bunker.Limits
use quantum_bunker.Server.Events.{session_created}
use quantum_bunker.Server.Store.{Store, alloc, get, deref, count}
use quantum_bunker.Server.Store.Integrity.{Wf}
use quantum_bunker.Server.Store.Deletion.{save-alloc}
use quantum_bunker.Server.Create.{
  CreateSessionOptions, FreshIds, created, thrown, session_capacity_reached, existing_session,
  given_id, new_session, create_session, clamp_peers, actual_ttl,
}

-- A new session lets in between 2 and 10 peers, holds its host alone, with a token, and lives for at
-- least a millisecond and at most 24 hours.
pub new_session_bounds :
    (o : CreateSessionOptions) (now : ℕ) (f : FreshIds)
    → let s = new_session o now f in
      (2 ≤ s.max_peers)
      × (s.max_peers ≤ Limits.max_peers)
      × (now < s.expires_at)
      × (s.expires_at ≤ now + Limits.max_ttl_ms)
      × (length s.peers ≡ s.participant_count)
      × (has s.host_id s.peers ≡ true)
unfolding new_session clamp_peers actual_ttl has
new_session_bounds o now f = ground arith

-- The id that is asked for, or the random one if none is, or the empty one.
abbrev pub requested_id : CreateSessionOptions → FreshIds → String
requested_id o f = elim o.id [
  | none ↦ f.session_uuid
  | some id ↦ if id == "" then f.session_uuid else id
]

new_session-id :
    (o : CreateSessionOptions) (now : ℕ) (f : FreshIds)
    → (new_session o now f).id ≡ requested_id o f
unfolding new_session
new_session-id o now f = elim (Option-cases o.id) [
  | inl missing ↦ ground (arith, missing)
  | inr (id, asked) ↦ ground (arith, asked)
]

new_session-created_at :
    (o : CreateSessionOptions) (now : ℕ) (f : FreshIds) → (new_session o now f).created_at ≡ now
unfolding new_session
new_session-created_at o now f = ground arith

-- A fresh object with the requested id, which is stored under it, and one event.
abbrev pub Opens : CreateSessionOptions → ℕ → FreshIds → Store → Type 0
Opens o now f s =
    let n = new_session o now f in
    let (result, t, events) = create_session o now f s in
    (result ≡ created s.next_ref false)
    × (get (requested_id o f) t ≡ some s.next_ref)
    × (deref s.next_ref t ≡ some n)
    × (n.id ≡ requested_id o f)
    × (events ≡ session_created (requested_id o f) now n.expires_at ∷ [])

pub create_session_branches :
    (o : CreateSessionOptions) (now : ℕ) (f : FreshIds) (s : Store)
    → Wf s
    → ((r : ℕ)
        → existing_session (given_id o.id) s ≡ some r
        → create_session o now f s ≡ (created r true, s, []))
      × (existing_session (given_id o.id) s ≡ none
          → Limits.max_active_sessions ≤ count s
          → create_session o now f s ≡ (thrown session_capacity_reached, s, []))
      × (existing_session (given_id o.id) s ≡ none
          → count s < Limits.max_active_sessions
          → Opens o now f s)
unfolding create_session alloc
create_session_branches o now f s wf = (
  λ r e. ground arith,
  λ e full. ground arith,
  λ e room. ground (
    arith,
    new_session-id o now f,
    new_session-created_at o now f,
    save-alloc s (new_session o now f) "" wf,
  ),
)

create_session_open :
    (o : CreateSessionOptions) (now : ℕ) (f : FreshIds) (s : Store) {id : String} {r : ℕ}
    → given_id o.id ≡ some id
    → get id s ≡ some r
    → create_session o now f s ≡ (created r true, s, [])
unfolding create_session
create_session_open o now f s h e = rw (h, create_session, e)

-- All branches: an id that is open returns that session and changes nothing; at capacity the call
-- throws and changes nothing; otherwise a fresh object, which has the requested id (or the random one if
-- none is requested), is stored under it, with one event.
pub create_session_exact :
    (o : CreateSessionOptions) (now : ℕ) (f : FreshIds) (s : Store)
    → Wf s
    → ((r : ℕ) × (existing_session (given_id o.id) s ≡ some r)
        × (create_session o now f s ≡ (created r true, s, [])))
      ⊎ ((existing_session (given_id o.id) s ≡ none)
          × (((Limits.max_active_sessions ≤ count s)
                × (create_session o now f s ≡ (thrown session_capacity_reached, s, [])))
              ⊎ ((count s < Limits.max_active_sessions) × Opens o now f s)))
create_session_exact o now f s wf =
    let (open_already, full, fresh) = create_session_branches o now f s wf in
    elim (Option-cases (existing_session (given_id o.id) s)) [
      | inr (r, found) ↦ inl (r, found, open_already r found)
      | inl absent ↦ elim (Bool-cases (leb Limits.max_active_sessions (count s))) [
        | inl much ↦
            let le : Limits.max_active_sessions ≤ count s = ground (arith, much) in
            inr (absent, inl (le, full absent le))
        | inr few ↦
            let lt : count s < Limits.max_active_sessions = ground (arith, few) in
            inr (absent, inr (lt, fresh absent lt))
      ]
    ]

requested_id_lem :
    (o : CreateSessionOptions) (f : FreshIds) {id : String}
    → given_id o.id ≡ some id
    → requested_id o f ≡ id
requested_id_lem o f h = elim (Option-cases o.id) [
  | inl missing ↦ absurd (ground (arith, missing))
  | inr (id, asked) ↦ ground (arith, asked)
]

-- Two sides that derive the same id meet in one session: whoever comes second gets the object that
-- the first one's call stored, marked as existing, and stores nothing.
pub create_session_twice :
    (first second : CreateSessionOptions) (now later : ℕ) (f g : FreshIds) (s : Store) (id : String)
    → Wf s
    → given_id first.id ≡ some id
    → given_id second.id ≡ some id
    → get id s ≡ none
    → count s < Limits.max_active_sessions
    → let t = (create_session first now f s).1 in
      create_session second later g t ≡ (created s.next_ref true, t, [])
create_session_twice first second now later f g s id wf a b absent room =
    let (_, _, fresh) = create_session_branches first now f s wf in
    let (_, found, _, _, _) = fresh (ground arith) room in
    create_session_open second later g (create_session first now f s).1 b
      (rw (requested_id_lem first f a) at found)

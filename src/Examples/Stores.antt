-- ===== src/Examples/Stores.antt =====
-- Runs of the session store and of the use case that creates a session.
use quantum_bunker.Base.{
  ◌⊎◌, ℕ, ◌+◌, ◌≤◌, ◌<◌, ◌≡◌, ◌≢◌, refl, arith, true, [], ◌∷◌, none, some, keep_if, min, nat_eq,
  string_eq, ℕ_discrete, if◌then◌else◌,
}
use quantum_bunker.Base.Dict.{lookup, insert}
use quantum_bunker.Limits
use quantum_bunker.Server.Store.{empty_store, alloc, deref, save, get, delete, count, cleanup}
use quantum_bunker.Server.Store.Integrity.{
  Wf, allocates, saves, Reach, here, next, Reach-Wf, empty_store-Wf, delete-Wf,
}
use quantum_bunker.Server.Store.Deletion.{delete_final}
use quantum_bunker.Server.Store.Sweep.{cleanup_exact, due_at, values}
use quantum_bunker.Server.Create.{
  CreateSessionOptions, FreshIds, created, thrown, session_capacity_reached, existing_session,
  given_id, create_session,
}
use quantum_bunker.Server.Create.Laws.{Opens, create_session_exact}
use quantum_bunker.Server.RateLimit.Window.{allowed, requests_of, allowed_exact}
use quantum_bunker.Examples.Values.{vault, opened, one_session}

opening : Reach empty_store opened
opening = next (next here (allocates vault)) (saves 0)

Reach-Wf_example : Wf opened
Reach-Wf_example = Reach-Wf empty_store-Wf opening

pub opened-Wf : Wf opened
opened-Wf = Reach-Wf empty_store-Wf opening

opened_lem : opened ≡ one_session
unfolding save alloc empty_store deref insert lookup ℕ_discrete
opened_lem = refl

pub opened-get : get "vault" opened ≡ some 0
unfolding get save alloc empty_store deref insert lookup
opened-get = ground arith

pub opened-deref : deref 0 opened ≡ some vault
unfolding deref lookup ℕ_discrete
opened-deref = rw opened_lem refl

-- A handler that still holds the vault saves it after its deletion.
late_save : Reach (delete "vault" opened) (save 0 (delete "vault" opened))
late_save = next here (saves 0)

delete_final_example : get "vault" (save 0 (delete "vault" opened)) ≢ some 0
delete_final_example =
    delete_final opened "vault" "vault" 0 (delete-Wf opened "vault" opened-Wf) opened-get late_save

cleanup_exact_example :
    (get "vault" (cleanup 900001 opened).0 ≡ elim (get "vault" opened) [
      | none ↦ none
      | some r ↦ if due_at 900001 opened.heap r then none else some r
    ])
    × ((cleanup 900001 opened).1 ≡ keep_if (due_at 900001 opened.heap) (values opened.sessions))
cleanup_exact_example = cleanup_exact 900001 opened "vault" opened-Wf

abbrev group_options : CreateSessionOptions
group_options = record {
  expires_in_seconds = some 3600;
  name = some "team";
  host_public_key = none;
  id = some "derived";
  max_peers = some 50;
}

abbrev pub fresh_ids : FreshIds
fresh_ids = record {
  host_uuid = "0123456789";
  recovery_token = "r";
  session_uuid = "u";
  peer_token = "p";
}

opened-count : count opened < 10
unfolding count save alloc empty_store deref insert lookup
opened-count = ground arith

opened-derived : get "derived" opened ≡ none
unfolding get lookup string_eq
opened-derived = rw opened_lem refl

create_session_exact_example :
    ((r : ℕ) × (existing_session (given_id group_options.id) opened ≡ some r)
      × (create_session group_options 7 fresh_ids opened ≡ (created r true, opened, [])))
    ⊎ ((existing_session (given_id group_options.id) opened ≡ none)
        × (((Limits.max_active_sessions ≤ count opened)
              × (create_session group_options 7 fresh_ids opened
                  ≡ (thrown session_capacity_reached, opened, [])))
            ⊎ ((count opened < Limits.max_active_sessions)
                × Opens group_options 7 fresh_ids opened)))
create_session_exact_example = create_session_exact group_options 7 fresh_ids opened opened-Wf

-- Two requests of one client, and one of another in between, with a budget of one.
allowed_exact_example :
    allowed 60000 1 "a" (("a", 5) ∷ ("b", 6) ∷ ("a", 7) ∷ []) []
    ≡ min (requests_of "a" (("b", 6) ∷ ("a", 7) ∷ []) + 1) 1
unfolding lookup
allowed_exact_example =
    allowed_exact 60000 1 "a" 5 (("b", 6) ∷ ("a", 7) ∷ []) [] tt refl (omega arith)

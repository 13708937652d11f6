-- ===== src/Server/Store/Deletion.antt =====
-- A handler that still holds a session object cannot bring it back after its deletion, and the same
-- id can be opened anew at once (`deleted` in in-memory-session.store.ts).
use quantum_bunker.Base.{
  ℕ, ◌≡◌, ◌≢◌, ◌∙◌, if◌then◌else◌, ◌==◌, String, true, List, [], ◌∷◌, none, some, arith, contains,
  nat_eq, string_eq,
}
use quantum_bunker.Base.Dict.{Dict, lookup-insert, lookup-erase}
use quantum_bunker.Server.Session.{Session}
use quantum_bunker.Server.Store.{
  Store, deref, alloc, write, save, get, delete, touch, sweep_one, sweep, cleanup,
}
use quantum_bunker.Server.Store.Integrity.{
  Wf, Step, allocates, writes, saves, deletes, touches, cleans, Reach, here, next, Reach-Wf,
  delete-Wf,
}

sweep_one-deleted :
    (now : ℕ) (id : String) (q : ℕ) (acc : Store × List ℕ) (r : ℕ)
    → contains acc.0.deleted r ≡ true
    → contains (sweep_one now id q acc).0.deleted r ≡ true
unfolding sweep_one
sweep_one-deleted now id q acc r h = ground arith

sweep-deleted :
    (now : ℕ) (d : Dict String ℕ) (acc : Store × List ℕ) (r : ℕ)
    → contains acc.0.deleted r ≡ true
    → contains (sweep now d acc).0.deleted r ≡ true
unfolding sweep
sweep-deleted now [] acc r h = h
sweep-deleted now ((id, q) ∷ d) acc r h =
    sweep-deleted now d (sweep_one now id q acc) r (sweep_one-deleted now id q acc r h)

-- No step takes a mark back.
Step-deleted :
    {s t : Store} (r : ℕ) → Step s t → contains s.deleted r ≡ true → contains t.deleted r ≡ true
unfolding alloc write save delete touch cleanup
Step-deleted r (allocates o) h = h
Step-deleted r (writes q o e) h = h
Step-deleted {s} r (saves q) h = ground arith
Step-deleted {s} r (deletes id) h = ground arith
Step-deleted {s} r (touches id now) h = ground arith
Step-deleted {s} r (cleans now) h = sweep-deleted now s.sessions (s, []) r h

Reach-deleted :
    {s t : Store} (r : ℕ) → Reach s t → contains s.deleted r ≡ true → contains t.deleted r ≡ true
Reach-deleted r here h = h
Reach-deleted r (next p st) h = Step-deleted r st (Reach-deleted r p h)

delete-marks :
    (s : Store) (id : String) (r : ℕ) → get id s ≡ some r → contains (delete id s).deleted r ≡ true
unfolding delete get
delete-marks s id r e = ground arith

-- Once the object `r` that `id` named is deleted, no history after it (saves of `r` by handlers that
-- still hold it included) makes `get` return `r` again, under any id.
pub delete_final :
    (s : Store) {t : Store} (id j : String) (r : ℕ)
    → Wf (delete id s)
    → get id s ≡ some r
    → Reach (delete id s) t
    → get j t ≢ some r
unfolding get
delete_final s id j r wf e p again =
    let marked = Reach-deleted r p (delete-marks s id r e) in
    let live = (Reach-Wf wf p).live j r again in cc

-- A save of a deleted object leaves the whole map alone.
pub save-delete :
    (s : Store) (id : String) (r : ℕ) → get id s ≡ some r → save r (delete id s) ≡ delete id s
unfolding save
save-delete s id r e = rw (delete-marks s id r e, save)

pub save-alloc :
    (s : Store) (o : Session) (j : String)
    → Wf s
    → let (r, t) = alloc o s in
      (get o.id (save r t) ≡ some r)
      × (deref r (save r t) ≡ some o)
      × (j ≢ o.id → get j (save r t) ≡ get j s)
unfolding get deref save alloc
save-alloc s o j wf = ground (
  arith,
  wf.deleted_known s.next_ref,
  lookup-insert s.next_ref s.next_ref o s.heap,
  lookup-insert o.id o.id s.next_ref s.sessions,
  lookup-insert j o.id s.next_ref s.sessions,
)

get-delete : (s : Store) (id j : String) → get j (delete id s) ≡ (if j == id then none else get j s)
unfolding get delete
get-delete s id j = ground (arith, lookup-erase j id s.sessions)

-- After a deletion a new object opens the same id at once: `get` returns it, and every other id names
-- what it named before.
pub save-alloc_after_delete :
    (s : Store) (o : Session) (j : String)
    → Wf s
    → let (r, t) = alloc o (delete o.id s) in
      (get o.id (save r t) ≡ some r)
      × (deref r (save r t) ≡ some o)
      × (j ≢ o.id → get j (save r t) ≡ get j s)
save-alloc_after_delete s o j wf =
    let (found, object, other) = save-alloc (delete o.id s) o j (delete-Wf s o.id wf) in
    (found, object, λ ne. other ne ∙ ground (arith, get-delete s o.id j))

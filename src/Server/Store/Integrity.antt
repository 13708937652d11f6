-- ===== src/Server/Store/Integrity.antt =====
-- The invariant of the session store, and the steps that a running server makes on it.
use quantum_bunker.Base.{
  ℕ, ◌≤◌, ◌<◌, ◌≡◌, refl, inl, inr, String, true, false, List, [], ◌∷◌, Option, none, some, arith,
  contains, nat_eq, string_eq, Bool-cases, Option-cases, dec_lt,
}
use quantum_bunker.Base.Dict.{
  Dict, lookup, erase, NodupKeys, lookup-insert, lookup-erase, insert-NodupKeys, erase-NodupKeys,
}
use quantum_bunker.Server.Session.{Session}
use quantum_bunker.Server.Store.{
  Store, empty_store, alloc, write, save, delete, touch, sweep_one, sweep, cleanup,
}

-- The id of the object at a reference.
abbrev pub id_at : ℕ → Dict ℕ Session → Option String
id_at r heap = elim (lookup r heap) [ none ↦ none | some o ↦ some o.id ]

pub record Wf (s : Store) : Type 0 where
  pub distinct : NodupKeys s.sessions
  pub live :
      (id : String) (r : ℕ)
      → lookup id s.sessions ≡ some r
      → (id_at r s.heap ≡ some id) × (contains s.deleted r ≡ false)
  pub fresh : (r : ℕ) → s.next_ref ≤ r → lookup r s.heap ≡ none
  pub deleted_known : (r : ℕ) → contains s.deleted r ≡ true → r < s.next_ref

-- What a server does to the store, in any order; `write` is an assignment to the fields of an
-- object that a handler holds, also after the object was deleted. No assignment changes an id.
pub data Step (s : Store) : Store → Type 0 where
  allocates : (o : Session) → Step s (alloc o s).1
  writes : (r : ℕ) (o : Session) → id_at r s.heap ≡ some o.id → Step s (write r o s)
  saves : (r : ℕ) → Step s (save r s)
  deletes : (id : String) → Step s (delete id s)
  touches : (id : String) (now : ℕ) → Step s (touch id now s)
  cleans : (now : ℕ) → Step s (cleanup now s).0

pub data Reach (s : Store) : Store → Type 0 where
  here : Reach s s
  next : {t u : Store} → Reach s t → Step t u → Reach s u

pub empty_store-Wf : Wf empty_store
unfolding empty_store lookup
empty_store-Wf = record {
  distinct = tt;
  live = λ id r h. cc;
  fresh = λ r h. refl;
  deleted_known = λ r h. cc;
}

-- A live entry names an object, so its reference is not fresh.
lookup-lt_next :
    (s : Store) (id : String) (r : ℕ) → Wf s → id_at r s.heap ≡ some id → r < s.next_ref
lookup-lt_next s id r wf h = elim (dec_lt r s.next_ref) [
  | yes p ↦ p
  | no q ↦ ground (arith, wf.fresh r (omega arith))
]

write-Wf : (s : Store) (r : ℕ) (o : Session) → id_at r s.heap ≡ some o.id → Wf s → Wf (write r o s)
unfolding write
write-Wf s r o h wf = record {
  distinct = wf.distinct;
  live = λ id q e. ground (arith, wf.live id q e, lookup-insert q r o s.heap);
  fresh = λ q le.
      ground (arith, wf.fresh q le, lookup-insert q r o s.heap, lookup-lt_next s o.id r wf h);
  deleted_known = wf.deleted_known;
}

alloc-Wf : (s : Store) (o : Session) → Wf s → Wf (alloc o s).1
unfolding alloc
alloc-Wf s o wf = record {
  distinct = wf.distinct;
  live = λ id q e. ground (
    arith,
    wf.live id q e,
    lookup-insert q s.next_ref o s.heap,
    wf.fresh s.next_ref (omega arith),
  );
  fresh = λ q le. ground (arith, wf.fresh q (omega arith), lookup-insert q s.next_ref o s.heap);
  deleted_known = λ q h. let p = wf.deleted_known q h in omega arith;
}

save-Wf : (s : Store) (r : ℕ) → Wf s → Wf (save r s)
unfolding save
save-Wf s r wf = elim (Bool-cases (contains s.deleted r)) [
  | inl gone ↦ rw (gone, save) wf
  | inr kept ↦ elim (Option-cases (lookup r s.heap)) [
    | inl missing ↦ rw (kept, missing, save) wf
    | inr (o, e) ↦
        rw (kept, e, save)
          (record {
            distinct = insert-NodupKeys o.id r s.sessions wf.distinct;
            live = λ id q h. ground (arith, lookup-insert id o.id r s.sessions, wf.live id q);
            fresh = wf.fresh;
            deleted_known = wf.deleted_known;
          })
  ]
]

-- A session leaves the map, and its object is marked as deleted.
drop-Wf :
    (s : Store) (id : String) (r : ℕ)
    → id_at r s.heap ≡ some id
    → Wf s
    → Wf (record s { deleted = r ∷ s.deleted; sessions = erase id s.sessions })
drop-Wf s id r h wf = record {
  distinct = erase-NodupKeys id s.sessions wf.distinct;
  live = λ j q e. ground (arith, lookup-erase j id s.sessions, wf.live j q);
  fresh = wf.fresh;
  deleted_known = λ q e. ground (arith, wf.deleted_known q, lookup-lt_next s id r wf h);
}

erase-Wf : (s : Store) (id : String) → Wf s → Wf (record s { sessions = erase id s.sessions })
erase-Wf s id wf = record {
  distinct = erase-NodupKeys id s.sessions wf.distinct;
  live = λ j q e. ground (arith, lookup-erase j id s.sessions, wf.live j q);
  fresh = wf.fresh;
  deleted_known = wf.deleted_known;
}

pub delete-Wf : (s : Store) (id : String) → Wf s → Wf (delete id s)
unfolding delete
delete-Wf s id wf = elim (Option-cases (lookup id s.sessions)) [
  | inl e ↦ rw (e, delete) (erase-Wf s id wf)
  | inr (r, e) ↦ rw (e, delete) (drop-Wf s id r (wf.live id r e).0 wf)
]

touch-Wf : (s : Store) (id : String) (now : ℕ) → Wf s → Wf (touch id now s)
unfolding touch
touch-Wf s id now wf = elim (Option-cases (lookup id s.sessions)) [
  | inl e ↦ rw (e, touch) wf
  | inr (r, e) ↦ elim (Option-cases (lookup r s.heap)) [
    | inl f ↦ rw (e, f, touch) wf
    | inr (o, f) ↦
        rw (e, f, touch) (write-Wf s r (record o { last_activity_at = now }) (rw (f, id_at)) wf)
  ]
]

-- Each entry that the loop of `cleanup` visits names the object under its own key.
abbrev pub Named : Dict ℕ Session → Dict String ℕ → Type 0
Named heap [] = Unit {0}
Named heap ((id, r) ∷ d) = (id_at r heap ≡ some id) × Named heap d

pub Named-of_live :
    (heap : Dict ℕ Session) (d : Dict String ℕ)
    → NodupKeys d
    → ((id : String) (r : ℕ) → lookup id d ≡ some r → id_at r heap ≡ some id)
    → Named heap d
unfolding lookup
Named-of_live heap [] u h = tt
Named-of_live heap ((id, r) ∷ d) u h =
    (h id r (ground arith), Named-of_live heap d u.1 (λ j q e. h j q (ground arith)))

pub sweep_one-heap :
    (now : ℕ) (id : String) (r : ℕ) (s : Store) (gone : List ℕ)
    → (sweep_one now id r (s, gone)).0.heap ≡ s.heap
unfolding sweep_one
sweep_one-heap now id r s gone = ground arith

pub sweep_one-Wf :
    (now : ℕ) (id : String) (r : ℕ) (s : Store) (gone : List ℕ)
    → id_at r s.heap ≡ some id
    → Wf s
    → Wf (sweep_one now id r (s, gone)).0
unfolding sweep_one
sweep_one-Wf now id r s gone h wf = ground (arith, drop-Wf s id r h wf)

pub sweep-Wf :
    (now : ℕ) (d : Dict String ℕ) (s : Store) (gone : List ℕ)
    → Named s.heap d
    → Wf s
    → Wf (sweep now d (s, gone)).0
unfolding sweep
sweep-Wf now [] s gone n wf = wf
sweep-Wf now ((id, r) ∷ d) s gone n wf =
    let acc = sweep_one now id r (s, gone) in
    sweep-Wf now d acc.0 acc.1 (rw (sweep_one-heap now id r s gone) n.1)
      (sweep_one-Wf now id r s gone n.0 wf)

cleanup-Wf : (s : Store) (now : ℕ) → Wf s → Wf (cleanup now s).0
unfolding cleanup
cleanup-Wf s now wf =
    sweep-Wf now s.sessions s []
      (Named-of_live s.heap s.sessions wf.distinct (λ id r e. (wf.live id r e).0)) wf

Step-Wf : {s t : Store} → Step s t → Wf s → Wf t
Step-Wf {s} (allocates o) wf = alloc-Wf s o wf
Step-Wf {s} (writes r o h) wf = write-Wf s r o h wf
Step-Wf {s} (saves r) wf = save-Wf s r wf
Step-Wf {s} (deletes id) wf = delete-Wf s id wf
Step-Wf {s} (touches id now) wf = touch-Wf s id now wf
Step-Wf {s} (cleans now) wf = cleanup-Wf s now wf

-- In any history from a well-formed store, each id in the map names one object that has this id and
-- was never deleted, no id stands twice, and every deleted or mapped reference was allocated.
pub Reach-Wf : {s t : Store} → Wf s → Reach s t → Wf t
Reach-Wf wf here = wf
Reach-Wf wf (next r st) = Step-Wf st (Reach-Wf wf r)

-- ===== src/Server/Store/Sweep.antt =====
-- The cleanup sweep removes exactly the sessions that are due.
use quantum_bunker.Base.{
  ℕ, ◌≡◌, refl, sym, String, Bool, false, List, [], ◌∷◌, ◌++◌, none, Option, some, arith, nat_eq,
  string_eq, if◌then◌else◌, keep_if, ◌==◌, ◌&&◌, ◌||◌, ◌+◌, ltb, Option-cases, inl, inr,
}
use mathlib.Core.List.{append_assoc, append-nil}
use quantum_bunker.Base.Dict.{Dict, lookup, NodupKeys, lookup-erase}
use quantum_bunker.Server.Session.{Session}
use quantum_bunker.Server.Store.{Store, get, sweep_one, sweep, cleanup, is_reapable}
use quantum_bunker.Server.Store.Integrity.{Wf, sweep_one-heap}

-- More than 30 minutes without activity, or more than five without anybody.
abbrev pub empty_since_before : ℕ → Option ℕ → Bool
empty_since_before now none = false
empty_since_before now (some since) = ltb (since + 300000) now

abbrev pub is_due : ℕ → Session → Bool
is_due now o =
    ltb o.expires_at now
    || (ltb (o.last_activity_at + 1800000) now
        || (o.participant_count == 0 && empty_since_before now o.empty_since))

is_reapable-is_due : (now : ℕ) (o : Session) → is_reapable now o ≡ is_due now o
unfolding is_reapable
is_reapable-is_due now o = elim (Option-cases o.empty_since) [
  | inl taken ↦ ground (arith, taken)
  | inr (since, empty) ↦ ground (arith, empty)
]

abbrev pub due_at : ℕ → Dict ℕ Session → ℕ → Bool
due_at now heap r = elim (lookup r heap) [ none ↦ false | some o ↦ is_due now o ]

abbrev pub values : Dict String ℕ → List ℕ
values [] = []
values ((id, r) ∷ d) = r ∷ values d

sweep_one-lookup :
    (now : ℕ) (id j : String) (r : ℕ) (s : Store) (gone : List ℕ)
    → lookup j (sweep_one now id r (s, gone)).0.sessions
      ≡ (if j == id && due_at now s.heap r then none else lookup j s.sessions)
unfolding sweep_one
sweep_one-lookup now id j r s gone = elim (Option-cases (lookup r s.heap)) [
  | inl missing ↦ ground (arith, missing)
  | inr (o, there) ↦ ground (arith, there, is_reapable-is_due now o, lookup-erase j id s.sessions)
]

sweep_one-gone :
    (now : ℕ) (id : String) (r : ℕ) (s : Store) (gone : List ℕ)
    → (sweep_one now id r (s, gone)).1 ≡ (if due_at now s.heap r then gone ++ r ∷ [] else gone)
unfolding sweep_one
sweep_one-gone now id r s gone = elim (Option-cases (lookup r s.heap)) [
  | inl missing ↦ ground (arith, missing)
  | inr (o, there) ↦ ground (arith, there, is_reapable-is_due now o)
]

-- What the map holds for one id after the loop.
abbrev left : ℕ → Dict ℕ Session → Option ℕ → Option ℕ → Option ℕ
left now heap none old = old
left now heap (some r) old = if due_at now heap r then none else old

sweep-lookup :
    (now : ℕ) (d : Dict String ℕ) (s : Store) (gone : List ℕ) (j : String)
    → NodupKeys d
    → lookup j (sweep now d (s, gone)).0.sessions
      ≡ left now s.heap (lookup j d) (lookup j s.sessions)
unfolding sweep lookup
sweep-lookup now [] s gone j u = refl
sweep-lookup now ((id, r) ∷ d) s gone j u =
    let acc = sweep_one now id r (s, gone) in
    ground (
      arith,
      sweep-lookup now d acc.0 acc.1 j u.1,
      sweep_one-lookup now id j r s gone,
      sweep_one-heap now id r s gone,
    )

sweep-gone :
    (now : ℕ) (d : Dict String ℕ) (s : Store) (gone : List ℕ)
    → (sweep now d (s, gone)).1 ≡ gone ++ keep_if (due_at now s.heap) (values d)
unfolding sweep
sweep-gone now [] s gone = sym (append-nil gone)
sweep-gone now ((id, r) ∷ d) s gone =
    let acc = sweep_one now id r (s, gone) in
    let rest = keep_if (due_at now s.heap) (values d) in
    ground (
      arith,
      sweep-gone now d acc.0 acc.1,
      sweep_one-gone now id r s gone,
      sweep_one-heap now id r s gone,
      append_assoc gone (r ∷ []) rest,
    )

-- After a sweep, an id names what it named before, unless that session has expired, was inactive for
-- more than 30 minutes, or has been empty for more than five minutes; then it names nothing. The
-- sessions that are returned are those that were due, in the order of the map.
pub cleanup_exact :
    (now : ℕ) (s : Store) (j : String)
    → Wf s
    → (get j (cleanup now s).0
        ≡ elim (get j s) [ none ↦ none | some r ↦ if due_at now s.heap r then none else some r ])
      × ((cleanup now s).1 ≡ keep_if (due_at now s.heap) (values s.sessions))
unfolding cleanup get
cleanup_exact now s j wf =
    (ground (arith, sweep-lookup now s.sessions s [] j wf.distinct), sweep-gone now s.sessions s [])

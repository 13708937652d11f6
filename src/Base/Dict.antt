-- ===== src/Base/Dict.antt =====
-- `Map` and `Record` in insertion order. Proofs elsewhere go by the laws.
use Prim.Native.Nat.{◌+◌, ◌≤◌, ◌<◌}
use mathlib.Core.Path.{◌≡◌, refl, subst}
use mathlib.Core.Logic.{inl, inr}
use mathlib.Core.Bool.{Bool, true, false}
use mathlib.Core.Option.{Option, none, some}
use mathlib.Core.List.{List, [], ◌∷◌}
use native.Mathlib.Omega.{arith}
use quantum_bunker.Base.Tests.{if◌then◌else◌, Bool-cases}
use quantum_bunker.Base.Equality.{Eq, ◌==◌, contains}
use quantum_bunker.Base.Lists.{length}

abbrev pub Dict {ℓ κ} : Type ℓ → Type κ → Type (ℓ ⊔ κ)
Dict K V = List (K × V)

unfoldable pub keys {ℓ κ} : {K : Type ℓ} {V : Type κ} → Dict K V → List K
keys [] = []
keys ((k, v) ∷ d) = k ∷ keys d

-- `for (const [k, v] of d) if (drop(k, v)) d.delete(k)`: what is left.
unfoldable pub retain {ℓ κ} : {K : Type ℓ} {V : Type κ} → (K → V → Bool) → Dict K V → Dict K V
retain p [] = []
retain p ((k, v) ∷ d) = let rest = retain p d in if p k v then (k, v) ∷ rest else rest

pub length-keys {ℓ κ} : {K : Type ℓ} {V : Type κ} (d : Dict K V) → length (keys d) ≡ length d
unfolding keys
length-keys [] = refl
length-keys (_ ∷ d) = omega (arith, length-keys d)

pub length-retain-le {ℓ κ} :
    {K : Type ℓ} {V : Type κ} (p : K → V → Bool) (d : Dict K V) → length (retain p d) ≤ length d
unfolding retain
length-retain-le p [] = omega arith
length-retain-le p (_ ∷ d) = ground (arith, length-retain-le p d)

module _ {ℓ κ} {K : Type ℓ} {V : Type κ} ⦃e : Eq K⦄ where
  unfoldable pub lookup : K → Dict K V → Option V
  lookup k [] = none
  lookup k ((j, v) ∷ d) = if k == j then some v else lookup k d

  -- `d.set(k, v)`: a key that is there keeps its place.
  unfoldable pub insert : K → V → Dict K V → Dict K V
  insert k v [] = (k, v) ∷ []
  insert k v ((j, w) ∷ d) = if k == j then (k, v) ∷ d else (j, w) ∷ insert k v d

  -- `d.delete(k)`.
  unfoldable pub erase : K → Dict K V → Dict K V
  erase k [] = []
  erase k ((j, w) ∷ d) = let rest = erase k d in if k == j then rest else (j, w) ∷ rest

  unfoldable pub has : K → Dict K V → Bool
  has k [] = false
  has k ((j, v) ∷ d) = if k == j then true else has k d

  abbrev pub NodupKeys : Dict K V → Type κ
  NodupKeys [] = Unit
  NodupKeys ((k, _) ∷ d) = (lookup k d ≡ none) × NodupKeys d

  pub has-lookup :
      (k : K) (d : Dict K V) → has k d ≡ elim (lookup k d) [ none ↦ false | some _ ↦ true ]
  unfolding has lookup
  has-lookup k [] = refl
  has-lookup k (_ ∷ d) = ground (arith, has-lookup k d)

  pub lookup-insert :
      (j k : K) (v : V) (d : Dict K V)
      → lookup j (insert k v d) ≡ (if j == k then some v else lookup j d)
  unfolding insert lookup
  lookup-insert j k v [] = ground arith
  lookup-insert j k v (_ ∷ d) = ground (arith, lookup-insert j k v d)

  pub lookup-insert_self : (k : K) (v : V) (d : Dict K V) → lookup k (insert k v d) ≡ some v
  lookup-insert_self k v d = ground (arith, lookup-insert k k v d)

  pub lookup-erase :
      (j k : K) (d : Dict K V) → lookup j (erase k d) ≡ (if j == k then none else lookup j d)
  unfolding erase lookup
  lookup-erase j k [] = ground arith
  lookup-erase j k (_ ∷ d) = ground (arith, lookup-erase j k d)

  pub lookup-retain-none :
      (p : K → V → Bool) (k : K) (d : Dict K V) → lookup k d ≡ none → lookup k (retain p d) ≡ none
  unfolding lookup retain
  lookup-retain-none p k [] h = refl
  lookup-retain-none p k (_ ∷ d) h = ground (arith, lookup-retain-none p k d)

  -- What the sweep leaves of one key.
  pub lookup-retain :
      (p : K → V → Bool) (k : K) (d : Dict K V)
      → NodupKeys d
      → lookup k (retain p d)
        ≡ elim (lookup k d) [ none ↦ none | some v ↦ if p k v then some v else none ]
  unfolding lookup retain
  lookup-retain p k [] u = refl
  lookup-retain p k (_ ∷ d) u = ground (arith, lookup-retain p k d u.1, lookup-retain-none p k d)

  pub lookup-retain-some :
      (p : K → V → Bool) (k : K) (v : V) (d : Dict K V)
      → lookup k d ≡ some v
      → p k v ≡ true
      → lookup k (retain p d) ≡ some v
  unfolding lookup retain
  lookup-retain-some p k v [] h kept = cc
  lookup-retain-some p k v (_ ∷ d) h kept = ground (arith, kept, lookup-retain-some p k v d)

  pub insert-NodupKeys : (k : K) (v : V) (d : Dict K V) → NodupKeys d → NodupKeys (insert k v d)
  unfolding insert lookup
  insert-NodupKeys k v [] u = (refl, tt)
  insert-NodupKeys k v ((j, _) ∷ d) (fresh, u) =
      ground (arith, insert-NodupKeys k v d u, lookup-insert j k v d)

  pub erase-NodupKeys : (k : K) (d : Dict K V) → NodupKeys d → NodupKeys (erase k d)
  unfolding erase
  erase-NodupKeys k [] u = tt
  erase-NodupKeys k ((j, _) ∷ d) (fresh, u) =
      ground (arith, erase-NodupKeys k d u, lookup-erase j k d)

  pub retain-NodupKeys : (p : K → V → Bool) (d : Dict K V) → NodupKeys d → NodupKeys (retain p d)
  unfolding retain
  retain-NodupKeys p [] u = tt
  retain-NodupKeys p ((j, _) ∷ d) (fresh, u) =
      ground (arith, retain-NodupKeys p d u, lookup-retain-none p j d)

  pub length-insert :
      (k : K) (v : V) (d : Dict K V)
      → length (insert k v d) ≡ (if has k d then length d else length d + 1)
  unfolding insert has
  length-insert k v [] = omega arith
  length-insert k v (_ ∷ d) = ground (arith, length-insert k v d)

  pub length-erase-le : (k : K) (d : Dict K V) → length (erase k d) ≤ length d
  unfolding erase
  length-erase-le k [] = omega arith
  length-erase-le k (_ ∷ d) = ground (arith, length-erase-le k d)

  pub length-erase-lt : (k : K) (d : Dict K V) → has k d ≡ true → length (erase k d) < length d
  unfolding erase has
  length-erase-lt k [] h = cc
  length-erase-lt k (_ ∷ d) h = ground (arith, length-erase-lt k d, length-erase-le k d)

  pub contains-keys : (k : K) (d : Dict K V) → contains (keys d) k ≡ has k d
  unfolding keys has
  contains-keys k [] = refl
  contains-keys k (_ ∷ d) = ground (arith, contains-keys k d)

  pub has-insert :
      (j k : K) (v : V) (d : Dict K V) → has j (insert k v d) ≡ (if j == k then true else has j d)
  unfolding insert has
  has-insert j k v [] = refl
  has-insert j k v (_ ∷ d) = ground (arith, has-insert j k v d)

  pub has-erase : (j k : K) (d : Dict K V) → has j (erase k d) ≡ (if j == k then false else has j d)
  unfolding erase has
  has-erase j k [] = ground arith
  has-erase j k (_ ∷ d) = ground (arith, has-erase j k d)

-- A predicate holds of every value.
abbrev pub AllValues {ℓ κ ι} : {K : Type ℓ} {V : Type κ} → (V → Type ι) → Dict K V → Type ι
AllValues P [] = Unit
AllValues P ((_, v) ∷ d) = P v × AllValues P d

module _ {ℓ κ ι} {K : Type ℓ} {V : Type κ} ⦃e : Eq K⦄ (P : V → Type ι) where
  pub AllValues-insert :
      (k : K) (v : V) (d : Dict K V) → P v → AllValues P d → AllValues P (insert k v d)
  unfolding insert
  AllValues-insert k v [] p all = (p, tt)
  AllValues-insert k v ((j, w) ∷ d) p (q, all) = elim (Bool-cases (k == j)) [
    | inl same ↦ rw same (p, all)
    | inr other ↦ rw other (q, AllValues-insert k v d p all)
  ]

  pub AllValues-erase : (k : K) (d : Dict K V) → AllValues P d → AllValues P (erase k d)
  unfolding erase
  AllValues-erase k [] all = tt
  AllValues-erase k ((j, w) ∷ d) (q, all) = elim (Bool-cases (k == j)) [
    | inl same ↦ rw same (AllValues-erase k d all)
    | inr other ↦ rw other (q, AllValues-erase k d all)
  ]

  pub AllValues-lookup : (k : K) (d : Dict K V) (v : V) → lookup k d ≡ some v → AllValues P d → P v
  unfolding lookup
  AllValues-lookup k [] v h all = cc
  AllValues-lookup k ((j, w) ∷ d) v h (q, all) = elim (Bool-cases (k == j)) [
    | inl same ↦ subst P (ground (arith, same)) q
    | inr other ↦ AllValues-lookup k d v (ground (arith, other)) all
  ]

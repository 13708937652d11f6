-- ===== src/Client/Outbox/Flushing.antt =====
-- A flush removes nothing, and hands the waiting entries to the sender in order of time.
use mathlib.Core.List.{append_assoc, append-nil}
use quantum_bunker.Base.{
  ℕ, ◌≤◌, String, ◌≡◌, refl, sym, ◌∙◌, arith, Bool, List, [], ◌∷◌, ◌++◌, Option, none, some,
  if◌then◌else◌, ◌==◌, leb, string_eq, Bool-cases, inl, inr, keep_if, All, length, leb→le,
}
use quantum_bunker.Base.Dict.{insert}
use quantum_bunker.Client.FileStream.{Bytes}
use quantum_bunker.Client.Outbox.{
  Outbox, OutboxCrypto, OutboxEntry, box_only, seal, unseal_all, insert_by_time, sort, pending,
  attempted, drain_each, drain, is_for,
}

-- From the oldest to the newest.
abbrev pub IsSorted : List OutboxEntry → Type 0
IsSorted [] = Unit
IsSorted (e ∷ es) = All (λ later. e.timestamp ≤ later.timestamp) es × IsSorted es

All-insert_by_time {κ} :
    (P : OutboxEntry → Type κ) (e : OutboxEntry) (es : List OutboxEntry)
    → P e
    → All P es
    → All P (insert_by_time e es)
unfolding insert_by_time
All-insert_by_time P e [] p all = (p, tt)
All-insert_by_time P e (x ∷ es) p (q, all) = elim (Bool-cases (leb e.timestamp x.timestamp)) [
  | inl before ↦ rw before (p, (q, all))
  | inr after ↦ rw after (q, All-insert_by_time P e es p all)
]

All-sort {κ} : (P : OutboxEntry → Type κ) (es : List OutboxEntry) → All P es → All P (sort es)
unfolding sort
All-sort P [] all = tt
All-sort P (e ∷ es) (p, all) = All-insert_by_time P e (sort es) p (All-sort P es all)

All-keep_if {κ} :
    (P : OutboxEntry → Type κ) (test : OutboxEntry → Bool) (es : List OutboxEntry)
    → All P es
    → All P (keep_if test es)
All-keep_if P test [] all = tt
All-keep_if P test (e ∷ es) (p, all) = elim (Bool-cases (test e)) [
  | inl kept ↦ rw (kept, All) (p, All-keep_if P test es all)
  | inr left_out ↦ rw (left_out, All) (All-keep_if P test es all)
]

later_still :
    (a b : ℕ) (es : List OutboxEntry)
    → a ≤ b
    → All (λ later. b ≤ later.timestamp) es
    → All (λ later. a ≤ later.timestamp) es
later_still a b [] le all = tt
later_still a b (e ∷ es) le (p, all) = (omega (arith, le, p), later_still a b es le all)

insert_by_time-IsSorted :
    (e : OutboxEntry) (es : List OutboxEntry) → IsSorted es → IsSorted (insert_by_time e es)
unfolding insert_by_time
insert_by_time-IsSorted e [] s = (tt, tt)
insert_by_time-IsSorted e (x ∷ es) (first, s) = elim (Bool-cases (leb e.timestamp x.timestamp)) [
  | inl before ↦
      let le = leb→le e.timestamp x.timestamp before in
      rw before ((le, later_still e.timestamp x.timestamp es le first), (first, s))
  | inr after ↦
      let le : x.timestamp ≤ e.timestamp = ground (arith, after) in
      rw after (
        All-insert_by_time (λ later. x.timestamp ≤ later.timestamp) e es le first,
        insert_by_time-IsSorted e es s,
      )
]

sort-IsSorted : (es : List OutboxEntry) → IsSorted (sort es)
unfolding sort
sort-IsSorted [] = tt
sort-IsSorted (e ∷ es) = insert_by_time-IsSorted e (sort es) (sort-IsSorted es)

keep_if-IsSorted :
    (test : OutboxEntry → Bool) (es : List OutboxEntry) → IsSorted es → IsSorted (keep_if test es)
keep_if-IsSorted test [] s = tt
keep_if-IsSorted test (e ∷ es) (first, s) = elim (Bool-cases (test e)) [
  | inl kept ↦
      rw (kept, IsSorted)
        (
          All-keep_if (λ later. e.timestamp ≤ later.timestamp) test es first,
          keep_if-IsSorted test es s,
        )
  | inr left_out ↦ rw (left_out, IsSorted) (keep_if-IsSorted test es s)
]

module _ (lib : OutboxCrypto) where
  pub pending-IsSorted : (to : Option String) (box : Outbox) → IsSorted (pending lib to box)
  unfolding pending
  pending-IsSorted none box = sort-IsSorted (unseal_all lib box)
  pending-IsSorted (some to) box = elim (Bool-cases (to == "")) [
    | inl all ↦ rw all (sort-IsSorted (unseal_all lib box))
    | inr one ↦ rw one (keep_if-IsSorted (is_for to) _ (sort-IsSorted (unseal_all lib box)))
  ]

  -- The entries that a sender that answers by `answers` is given: up to the first that it refuses.
  unfoldable pub given_to : (answers : OutboxEntry → Bool) → List OutboxEntry → List OutboxEntry
  given_to answers [] = []
  given_to answers (e ∷ es) =
      let rest = given_to answers es in attempted e ∷ (if answers (attempted e) then rest else [])

  -- A sender that keeps what it was given.
  abbrev pub logging :
      (OutboxEntry → Bool) → OutboxEntry → List OutboxEntry → Bool × List OutboxEntry
  logging answers e log = (answers e, log ++ (e ∷ []))

  -- What is given to the sender, and what is counted, depends on neither the box nor the log.
  drain_each-logging :
      (listed : Outbox → Outbox) (sending pausing : OutboxEntry → Outbox → Outbox)
      (answers : OutboxEntry → Bool) (ivs : OutboxEntry → Bytes) (es : List OutboxEntry)
      (box : Outbox) (log : List OutboxEntry)
      → (drain_each lib (box_only listed sending pausing) (logging answers) ivs es box log).2
        ≡ log ++ given_to answers es
  unfolding drain_each given_to
  drain_each-logging listed sending pausing answers ivs [] box log = sym (append-nil log)
  drain_each-logging listed sending pausing answers ivs (e ∷ es) box log =
      let sealed = pausing e (insert e.nonce (seal lib (ivs e) (attempted e)) (sending e box)) in
      elim (Bool-cases (answers (attempted e))) [
        | inl sent ↦ rw sent (
            drain_each-logging listed sending pausing answers ivs es sealed
              (log ++ (attempted e ∷ []))
            ∙ append_assoc log (attempted e ∷ []) (given_to answers es))
        | inr refused ↦ rw refused refl
      ]

  drain_each-count :
      (listed : Outbox → Outbox) (sending pausing : OutboxEntry → Outbox → Outbox)
      (answers : OutboxEntry → Bool) (ivs : OutboxEntry → Bytes) (es : List OutboxEntry)
      (box : Outbox) (log : List OutboxEntry)
      → (drain_each lib (box_only listed sending pausing) (logging answers) ivs es box log).0
        ≡ length (keep_if answers (given_to answers es))
  unfolding drain_each given_to
  drain_each-count listed sending pausing answers ivs [] box log = refl
  drain_each-count listed sending pausing answers ivs (e ∷ es) box log =
      let sealed = pausing e (insert e.nonce (seal lib (ivs e) (attempted e)) (sending e box)) in
      elim (Bool-cases (answers (attempted e))) [
        | inl sent ↦ ground (
          arith,
          sent,
          drain_each-count listed sending pausing answers ivs es sealed (log ++ (attempted e ∷ [])),
        )
        | inr refused ↦ ground (arith, refused)
      ]

  pub drain-given :
      (listed : Outbox → Outbox) (sending pausing : OutboxEntry → Outbox → Outbox)
      (answers : OutboxEntry → Bool) (ivs : OutboxEntry → Bytes) (to : Option String) (box : Outbox)
      → IsSorted (pending lib to box)
        × ((drain lib (box_only listed sending pausing) (logging answers) ivs to box []).2
            ≡ given_to answers (pending lib to box))
        × ((drain lib (box_only listed sending pausing) (logging answers) ivs to box []).0
            ≡ length (keep_if answers (given_to answers (pending lib to box))))
  unfolding drain
  drain-given listed sending pausing answers ivs to box = (
    pending-IsSorted to box,
    drain_each-logging listed sending pausing answers ivs (pending lib to box) (listed box) [],
    drain_each-count listed sending pausing answers ivs (pending lib to box) (listed box) [],
  )

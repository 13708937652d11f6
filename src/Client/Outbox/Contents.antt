-- ===== src/Client/Outbox/Contents.antt =====
-- What is in the outbox: the sealed records stand for a map of entries.
use quantum_bunker.Base.{
  String, ◌≡◌, refl, sym, ap, subst, arith, List, [], ◌∷◌, Option, none, some, ◌==◌, string_eq,
  Bool-cases, inl, inr,
}
use quantum_bunker.Base.Dict.{insert, erase}
use quantum_bunker.Client.FileStream.{Bytes}
use quantum_bunker.Client.Outbox.{
  Outbox, OutboxCrypto, OutboxEntry, SealedRecord, seal, unseal, enqueue, mark_delivered,
  unseal_all, sort, pending, attempted, drain_each, drain, clear,
}
use quantum_bunker.Client.Outbox.Specified.{
  Entries, values, waiting, attempt_each, Change, enqueued, confirmed, cleared, change,
  change_entries, changes, changes_entries, Flush, Event, changed, flushed, told, during, happens,
  specified, run, run_specified,
}

-- What the third-party functions promise.
pub record OutboxWorks (lib : OutboxCrypto) : Type 0 where
  pub opens : (iv : Bytes) (e : OutboxEntry) → lib.decrypt iv (lib.encrypt iv e) ≡ some e
  pub decodes : (b : Bytes) → lib.from_base64 (lib.to_base64 b) ≡ some b

module _ (lib : OutboxCrypto) (works : OutboxWorks lib) where
  pub unseal-seal : (iv : Bytes) (e : OutboxEntry) → unseal lib (seal lib iv e) ≡ some e
  unfolding seal unseal
  unseal-seal iv e =
      ground (arith, works.decodes iv, works.decodes (lib.encrypt iv e), works.opens iv e)

  -- Each record opens to an entry under its own nonce.
  abbrev pub Opens : String → SealedRecord → OutboxEntry → Type 0
  Opens nonce r e = (unseal lib r ≡ some e) × (e.nonce ≡ nonce)

  -- The sealed records `box` hold the entries `entries`, in this order.
  pub data Holds : Outbox → Entries → Type 0 where
    empty : Holds [] []
    more :
        {nonce : String} {r : SealedRecord} {e : OutboxEntry} {box : Outbox} {entries : Entries}
        → Opens nonce r e
        → Holds box entries
        → Holds ((nonce, r) ∷ box) ((nonce, e) ∷ entries)

  pub Holds-insert :
      {box : Outbox} {entries : Entries} (iv : Bytes) (e : OutboxEntry)
      → Holds box entries
      → Holds (insert e.nonce (seal lib iv e) box) (insert e.nonce e entries)
  unfolding insert
  Holds-insert iv e empty = more (unseal-seal iv e, refl) empty
  Holds-insert iv e (more {nonce = nonce} opens h) = elim (Bool-cases (e.nonce == nonce)) [
    | inl same ↦ rw same (more (unseal-seal iv e, refl) h)
    | inr other ↦ rw other (more opens (Holds-insert iv e h))
  ]

  pub Holds-erase :
      {box : Outbox} {entries : Entries} (nonce : String)
      → Holds box entries
      → Holds (erase nonce box) (erase nonce entries)
  unfolding erase
  Holds-erase nonce empty = empty
  Holds-erase nonce (more {nonce = other} opens h) = elim (Bool-cases (nonce == other)) [
    | inl same ↦ rw same (Holds-erase nonce h)
    | inr differs ↦ rw differs (more opens (Holds-erase nonce h))
  ]

  pub unseal_all-Holds :
      {box : Outbox} {entries : Entries} → Holds box entries → unseal_all lib box ≡ values entries
  unfolding unseal_all
  unseal_all-Holds empty = refl
  unseal_all-Holds (more opens h) = ground (arith, opens, unseal_all-Holds h)

  pub pending-Holds :
      {box : Outbox} {entries : Entries} (to : Option String)
      → Holds box entries
      → pending lib to box ≡ waiting to entries
  unfolding pending waiting
  pending-Holds none h = ap sort (unseal_all-Holds h)
  pending-Holds (some to) h = ground (arith, unseal_all-Holds h)

  change-Holds :
      (v : Change) {box : Outbox} {entries : Entries}
      → Holds box entries
      → Holds (change lib v box) (change_entries v entries)
  unfolding enqueue mark_delivered clear
  change-Holds (enqueued iv e) h = Holds-insert iv e h
  change-Holds (confirmed nonce) h = Holds-erase nonce h
  change-Holds cleared h = empty

  changes-Holds :
      (vs : List Change) {box : Outbox} {entries : Entries}
      → Holds box entries
      → Holds (changes lib vs box) (changes_entries vs entries)
  unfolding changes changes_entries
  changes-Holds [] h = h
  changes-Holds (v ∷ vs) h = changes-Holds vs (change-Holds v h)

  drain_each-Holds :
      (f : Flush) (es : List OutboxEntry) {box : Outbox} {entries : Entries}
      → Holds box entries
      → Holds
          (drain_each lib (during lib f) (told f.succeeds) f.ivs es box tt).1
          (attempt_each f.succeeds f.sending f.pausing es entries)
  unfolding drain_each attempt_each
  drain_each-Holds f [] h = h
  drain_each-Holds f (e ∷ es) h =
      let held = changes-Holds (f.sending e) h in
      elim (Bool-cases (f.succeeds (attempted e))) [
        | inl sent ↦ rw sent (
            drain_each-Holds f es
              (changes-Holds (f.pausing e) (Holds-insert (f.ivs e) (attempted e) held)))
        | inr refused ↦ rw refused held
      ]

  happens-Holds :
      (v : Event) {box : Outbox} {entries : Entries}
      → Holds box entries
      → Holds (happens lib v box) (specified v entries)
  unfolding happens specified drain
  happens-Holds (changed v) h = change-Holds v h
  happens-Holds (flushed f) {box = box} {entries = entries} h =
      let held = changes-Holds f.listed h in
      subst
        (λ es.
          Holds
            (drain_each lib (during lib f) (told f.succeeds) f.ivs es (changes lib f.listed box)
              tt).1
            (attempt_each f.succeeds f.sending f.pausing (waiting f.to entries)
              (changes_entries f.listed entries)))
        (sym (pending-Holds f.to h)) (drain_each-Holds f (waiting f.to entries) held)

  run-Holds :
      (vs : List Event) {box : Outbox} {entries : Entries}
      → Holds box entries
      → Holds (run lib vs box) (run_specified vs entries)
  unfolding run run_specified
  run-Holds [] h = h
  run-Holds (v ∷ vs) h = run-Holds vs (happens-Holds v h)

  -- After any sequence, from the empty outbox, of messages enqueued and confirmed, clearings, and flushes
  -- that break off, where messages are enqueued and confirmed and the outbox is cleared while a flush
  -- waits, too: what waits for a recipient is what waits in a plain map of entries by nonce to which the
  -- same happens in the same order, the writes of a flush included, if the third-party functions keep
  -- their promises.
  pub pending-run :
      (vs : List Event) (to : Option String)
      → pending lib to (run lib vs []) ≡ waiting to (run_specified vs [])
  pending-run vs to = pending-Holds to (run-Holds vs empty)

-- ===== src/Client/Outbox/Specified.antt =====
-- What the outbox is to its users: a map of entries by nonce, and what happens to it.
use quantum_bunker.Base.{
  String, ◌+◌, Bool, List, [], ◌∷◌, Option, none, some, if◌then◌else◌, ◌==◌, string_eq, keep_if,
}
use quantum_bunker.Base.Dict.{Dict, insert, erase}
use quantum_bunker.Client.FileStream.{Bytes}
use quantum_bunker.Client.Outbox.{
  Outbox, OutboxCrypto, OutboxEntry, Meanwhile, box_only, enqueue, mark_delivered, sort, attempted,
  drain, clear, is_for,
}

-- What the outbox promises: a map of entries by nonce.
abbrev pub Entries : Type 0
Entries = Dict String OutboxEntry

abbrev pub values : Entries → List OutboxEntry
values [] = []
values ((nonce, e) ∷ entries) = e ∷ values entries

unfoldable pub waiting : Option String → Entries → List OutboxEntry
unfolding sort
waiting none entries = sort (values entries)
waiting (some to) entries =
    let all = sort (values entries) in if to == "" then all else keep_if (is_for to) all

-- What happens to an outbox, while a flush waits as well.
pub data Change : Type 0 where
  enqueued : (iv : Bytes) → OutboxEntry → Change
  confirmed : String → Change
  cleared : Change

abbrev pub change : OutboxCrypto → Change → Outbox → Outbox
change lib (enqueued iv e) box = enqueue lib iv e box
change lib (confirmed nonce) box = mark_delivered nonce box
change lib cleared box = clear box

abbrev pub change_entries : Change → Entries → Entries
change_entries (enqueued iv e) entries = insert e.nonce e entries
change_entries (confirmed nonce) entries = erase nonce entries
change_entries cleared entries = []

unfoldable pub changes : OutboxCrypto → List Change → Outbox → Outbox
unfolding enqueue mark_delivered clear
changes lib [] box = box
changes lib (v ∷ vs) box = changes lib vs (change lib v box)

unfoldable pub changes_entries : List Change → Entries → Entries
changes_entries [] entries = entries
changes_entries (v ∷ vs) entries = changes_entries vs (change_entries v entries)

-- A flush, with what the attempts to send come to, and with what happens while it waits. It ends with the
-- first attempt that fails; an entry that is sent is written, with one attempt more, after what happens
-- until then, so one that is confirmed or cleared in between waits again.
unfoldable pub attempt_each :
    (succeeds : OutboxEntry → Bool)
    → (sending pausing : OutboxEntry → List Change) → List OutboxEntry
    → Entries
    → Entries
unfolding changes_entries
attempt_each succeeds sending pausing [] entries = entries
attempt_each succeeds sending pausing (e ∷ es) entries =
    let then_held = changes_entries (sending e) entries in
    let written = insert e.nonce (record e { attempts = e.attempts + 1 }) then_held in
    let rest = attempt_each succeeds sending pausing es (changes_entries (pausing e) written) in
    if succeeds (attempted e) then rest else then_held

-- The arguments of a flush: what the attempts to send come to, the random bytes, the recipient, and what
-- happens before the first entry is sent, until one is written, and until the next is sent.
pub record Flush : Type 0 where
  pub succeeds : OutboxEntry → Bool
  pub ivs : OutboxEntry → Bytes
  pub to : Option String
  pub listed : List Change
  pub sending : OutboxEntry → List Change
  pub pausing : OutboxEntry → List Change

pub data Event : Type 0 where
  changed : Change → Event
  flushed : Flush → Event

abbrev pub told : (succeeds : OutboxEntry → Bool) → OutboxEntry → Unit {0} → Bool × Unit {0}
told succeeds e s = (succeeds e, s)

abbrev pub during : OutboxCrypto → Flush → Meanwhile (Unit {0})
during lib f =
    box_only (changes lib f.listed) (λ e. changes lib (f.sending e))
      (λ e. changes lib (f.pausing e))

unfoldable pub happens : OutboxCrypto → Event → Outbox → Outbox
unfolding changes enqueue mark_delivered clear drain
happens lib (changed v) box = change lib v box
happens lib (flushed f) box = (drain lib (during lib f) (told f.succeeds) f.ivs f.to box tt).1

unfoldable pub specified : Event → Entries → Entries
unfolding waiting attempt_each changes_entries
specified (changed v) entries = change_entries v entries
specified (flushed f) entries =
    attempt_each f.succeeds f.sending f.pausing (waiting f.to entries)
      (changes_entries f.listed entries)

unfoldable pub run : OutboxCrypto → List Event → Outbox → Outbox
unfolding happens
run lib [] box = box
run lib (v ∷ vs) box = run lib vs (happens lib v box)

unfoldable pub run_specified : List Event → Entries → Entries
unfolding specified
run_specified [] entries = entries
run_specified (v ∷ vs) entries = run_specified vs (specified v entries)

-- ===== src/Client/Mailbox.antt =====
-- src/peer-mailbox.ts: envelopes held for absent peers. `recipients_of` reads the recipients off the
-- payload's JSON, and is a parameter.
use quantum_bunker.Base.{
  ℕ, ◌+◌, ◌*◌, String, Bool, true, false, not, ◌&&◌, ◌||◌, List, [], ◌∷◌, ◌++◌, Option, none, some,
  leb, ltb, if◌then◌else◌, ◌==◌, length, keep_if, contains, string_eq,
}
use quantum_bunker.Base.Dict.{Dict, insert, erase, retain}
use quantum_bunker.Server.Events.{RelayEnvelope, EnvelopeType, noise_message, file}
pub mod Replays

abbrev pub max_entries : ℕ
max_entries = 200

abbrev pub entry_ttl_ms : ℕ
entry_ttl_ms = 5 * 60 * 1000

pub record MailboxEntry : Type 0 where
  pub nonce : String
  pub envelope : RelayEnvelope
  pub recipients : List String
  pub stored_at : ℕ

abbrev pub carries_slots : EnvelopeType → Bool
carries_slots noise_message = true
carries_slots file = true
carries_slots _ = false

-- `slots` gives the keys of `c`, and no names where the payload does not parse.
unfoldable pub recipients_of : (slots : String → List String) → RelayEnvelope → List String
recipients_of slots e = if carries_slots e.type then slots e.payload else []

-- `entry.storedAt < now - ENTRY_TTL_MS` goes.
abbrev pub is_fresh : ℕ → String → MailboxEntry → Bool
is_fresh now nonce entry = leb now (entry.stored_at + entry_ttl_ms)

unfoldable pub prune : ℕ → Dict String MailboxEntry → Dict String MailboxEntry
prune now entries = retain (is_fresh now) entries

-- The `while` loop of `hold`: the oldest entries go until at most `cap` are left.
unfoldable pub drop_surplus : ℕ → Dict String MailboxEntry → Dict String MailboxEntry
drop_surplus cap [] = []
drop_surplus cap (entry ∷ entries) =
    let rest = drop_surplus cap entries in
    if ltb cap (length (entry ∷ entries)) then rest else entry ∷ entries

unfoldable pub hold :
    (String → List String)
    → ℕ
    → RelayEnvelope
    → (present : List String) → Dict String MailboxEntry
    → Dict String MailboxEntry
unfolding recipients_of prune drop_surplus
hold slots now e present entries =
    let absent = keep_if (λ id. not (contains present id)) (recipients_of slots e) in
    elim absent [
      | [] ↦ entries
      | id ∷ ids ↦ drop_surplus max_entries (
          insert e.nonce
            (record { nonce = e.nonce; envelope = e; recipients = id ∷ ids; stored_at = now })
            (prune now entries))
    ]

abbrev pub without : String → List String → List String
without peer_id ids = keep_if (λ id. not (id == peer_id)) ids

-- The loop of `release`: the envelopes to replay, and the entries that are left.
unfoldable pub release_each :
    String → Dict String MailboxEntry → List RelayEnvelope × Dict String MailboxEntry
release_each peer_id [] = ([], [])
release_each peer_id ((nonce, entry) ∷ entries) =
    let (out, rest) = release_each peer_id entries in
    if contains entry.recipients peer_id
    then (elim (without peer_id entry.recipients) [
      | [] ↦ (entry.envelope ∷ out, rest)
      | id ∷ ids ↦ (entry.envelope ∷ out, (nonce, record entry { recipients = id ∷ ids }) ∷ rest)
    ])
    else (out, (nonce, entry) ∷ rest)

unfoldable pub release :
    ℕ → String → Dict String MailboxEntry → List RelayEnvelope × Dict String MailboxEntry
unfolding release_each prune
release now peer_id entries = release_each peer_id (prune now entries)

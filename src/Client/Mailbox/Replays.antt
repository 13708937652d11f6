-- ===== src/Client/Mailbox/Replays.antt =====
-- What the mailbox holds, and what it replays.
use quantum_bunker.Base.{
  ℕ, ◌≤◌, ◌≡◌, refl, arith, String, false, not, List, [], ◌∷◌, if◌then◌else◌, ◌==◌, length, keep_if,
  ◌+◌, ◌&&◌, ◌∙◌, leb, Option-cases, contains, string_eq, List-cases, Bool-cases, inl, inr,
}
use quantum_bunker.Base.Dict.{Dict, insert}
use quantum_bunker.Server.Events.{RelayEnvelope}
use quantum_bunker.Client.Mailbox.{
  MailboxEntry, max_entries, recipients_of, prune, drop_surplus, hold, without, release_each,
  release,
}

length-drop_surplus-le :
    (cap : ℕ) (d : Dict String MailboxEntry) → length (drop_surplus cap d) ≤ cap
unfolding drop_surplus
length-drop_surplus-le cap [] = omega arith
length-drop_surplus-le cap (_ ∷ d) = ground (arith, length-drop_surplus-le cap d)

-- The mailbox never holds more than 200 envelopes.
pub length-hold-le :
    (slots : String → List String) (now : ℕ) (e : RelayEnvelope) (present : List String)
    (entries : Dict String MailboxEntry)
    → length entries ≤ max_entries
    → length (hold slots now e present entries) ≤ max_entries
unfolding hold
length-hold-le slots now e present entries le =
    elim (List-cases (keep_if (λ id. not (contains present id)) (recipients_of slots e))) [
      | inl nobody ↦ rw (nobody, hold) le
      | inr (id, ids, absent) ↦
          rw (absent, hold)
            (length-drop_surplus-le max_entries (
              insert e.nonce
                (record { nonce = e.nonce; envelope = e; recipients = id ∷ ids; stored_at = now })
                (prune now entries)))
    ]

contains-without : (p : String) (ids : List String) → contains (without p ids) p ≡ false
contains-without p [] = refl
contains-without p (id ∷ ids) = ground (arith, contains-without p ids)

-- The envelopes that wait for a peer, in the order in which they were held.
abbrev pub waiting_for : String → Dict String MailboxEntry → List RelayEnvelope
waiting_for p [] = []
waiting_for p ((nonce, entry) ∷ entries) =
    let rest = waiting_for p entries in
    if contains entry.recipients p then entry.envelope ∷ rest else rest

-- Those of them that were held at most five minutes ago.
abbrev pub waiting_at : ℕ → String → Dict String MailboxEntry → List RelayEnvelope
waiting_at now p [] = []
waiting_at now p ((nonce, entry) ∷ entries) =
    let rest = waiting_at now p entries in
    if contains entry.recipients p && leb now (entry.stored_at + 300000)
    then entry.envelope ∷ rest
    else rest

waiting_for-prune :
    (now : ℕ) (p : String) (entries : Dict String MailboxEntry)
    → waiting_for p (prune now entries) ≡ waiting_at now p entries
unfolding prune quantum_bunker.Base.Dict.retain
waiting_for-prune now p [] = refl
waiting_for-prune now p ((nonce, entry) ∷ entries) = ground (arith, waiting_for-prune now p entries)

contains-without-other :
    (p q : String) (ids : List String)
    → (q == p) ≡ false
    → contains (without p ids) q ≡ contains ids q
contains-without-other p q [] ne = refl
contains-without-other p q (id ∷ ids) ne = ground (arith, contains-without-other p q ids ne)

release_each-waiting :
    (p q : String) (entries : Dict String MailboxEntry)
    → ((release_each p entries).0 ≡ waiting_for p entries)
      × (waiting_for p (release_each p entries).1 ≡ [])
      × ((q == p) ≡ false → waiting_for q (release_each p entries).1 ≡ waiting_for q entries)
unfolding release_each
release_each-waiting p q [] = (refl, refl, λ ne. refl)
release_each-waiting p q ((nonce, entry) ∷ entries) =
    let (out, left, others) = release_each-waiting p q entries in
    elim (Bool-cases (contains entry.recipients p)) [
      | inr outside ↦ ground (arith, outside, out, left, others)
      | inl inside ↦ elim (List-cases (without p entry.recipients)) [
        | inl last ↦
            ground
              (arith, inside, last, out, left, others, contains-without-other p q entry.recipients)
        | inr (id, ids, more) ↦ ground (
          arith,
          inside,
          more,
          out,
          left,
          others,
          contains-without p entry.recipients,
          contains-without-other p q entry.recipients,
        )
      ]
    ]

-- A peer that returns gets exactly the envelopes that wait for it and were held at most five minutes
-- ago, in the order in which they were held. Afterwards none waits for it, and for any other peer those
-- wait that were held for it at most five minutes ago.
pub release-waiting :
    (now : ℕ) (p q : String) (entries : Dict String MailboxEntry)
    → ((release now p entries).0 ≡ waiting_at now p entries)
      × (waiting_for q (release now p entries).1
          ≡ (if q == p then [] else waiting_at now q entries))
unfolding release
release-waiting now p q entries =
    let (out, left, others) = release_each-waiting p q (prune now entries) in
    (
      out ∙ waiting_for-prune now p entries,
      elim (Bool-cases (q == p)) [
        | inl same ↦ ground (arith, same, left)
        | inr other ↦ rw other (others other ∙ waiting_for-prune now q entries)
      ],
    )

-- ===== src/Examples/Ratchets.antt =====
-- Runs of the double ratchet.
use quantum_bunker.Base.{
  ℕ, ◌*◌, false, ◌≡◌, refl, arith, [], ◌∷◌, ◌++◌, map, Option, some, none, ◌==◌, if◌then◌else◌,
  nat_eq, List,
}
use quantum_bunker.Client.Ratchet.{
  Bytes, bytes_equal, DrKeyPair, RatchetSlot, RatchetCrypto, DrState, DrResult, plaintext,
  init_alice, init_bob, encrypt, decrypt,
}
use quantum_bunker.Client.Ratchet.Skipped.{IsBounded, Outcome, decrypt-Outcome}
use quantum_bunker.Client.Ratchet.Channel.{RatchetWorks, Synced, next_slot}
use quantum_bunker.Client.Ratchet.Conversations.{init-Synced, decrypt_swapped}
use quantum_bunker.Client.Ratchet.Turns.{NewKeys, alternate, alternate-init}
use quantum_bunker.Examples.Texts.{text_of, bytes_from, bytes_from-text_of}

-- The rest of a text that starts with a key.
unfoldable pub after_key : Bytes → Bytes → Option Bytes
after_key [] sealed = some sealed
after_key (k ∷ key) [] = none
after_key (k ∷ key) (x ∷ sealed) = let rest = after_key key sealed in if k == x then rest else none

pub after_key-append : (key plain : Bytes) → after_key key (key ++ plain) ≡ some plain
unfolding after_key
after_key-append [] plain = refl
after_key-append (k ∷ key) plain = ground (arith, after_key-append key plain)

abbrev pub first_byte : Bytes → ℕ
first_byte [] = 0
first_byte (x ∷ _) = x

abbrev pub toy_ratchet : RatchetCrypto
toy_ratchet = record {
  hkdf = λ salt input. (salt ++ input, input ++ (0 ∷ salt));
  shared_key = λ secret public. (first_byte secret * first_byte public) ∷ [];
  seal = λ key nonce plain ad. key ++ plain;
  unseal = λ key nonce sealed ad. after_key key sealed;
  to_base64 = text_of;
  from_base64 = bytes_from 0;
  header_bytes = λ h. [];
}

toy_ratchet-RatchetWorks : RatchetWorks toy_ratchet
toy_ratchet-RatchetWorks = record {
  opens = λ key n plain ad. after_key-append key plain;
  decodes = bytes_from-text_of;
}

abbrev alice : DrKeyPair
alice = record { public_key = 2 ∷ []; secret_key = 1 ∷ [] }

abbrev bob : DrKeyPair
bob = record { public_key = 4 ∷ []; secret_key = 2 ∷ [] }

abbrev spare : DrKeyPair
spare = record { public_key = 6 ∷ []; secret_key = 3 ∷ [] }

abbrev alice_first : DrState
alice_first = init_alice toy_ratchet (9 ∷ []) alice bob.public_key

abbrev bob_first : DrState
bob_first = init_bob toy_ratchet (9 ∷ []) bob alice.public_key

first-Synced : Synced toy_ratchet alice_first bob_first
first-Synced = init-Synced toy_ratchet (9 ∷ []) alice bob refl

first-IsBounded : IsBounded bob_first
unfolding init_bob
first-IsBounded = omega arith

-- A forged frame with a new key and a far counter.
abbrev forged : RatchetSlot
forged = record { h = record { dh = "ab"; n = 5000; pn = 0 }; ct = "b" }

decrypt-Outcome_example :
    Outcome toy_ratchet forged bob_first (decrypt toy_ratchet spare forged bob_first)
decrypt-Outcome_example = decrypt-Outcome toy_ratchet spare forged bob_first first-IsBounded

abbrev alice_then : DrState
alice_then = (encrypt toy_ratchet spare (1 ∷ 2 ∷ []) alice_first).1

abbrev bob_late : DrResult × DrState
bob_late = decrypt toy_ratchet spare (next_slot toy_ratchet spare (3 ∷ []) alice_then) bob_first

abbrev bob_early : DrResult × DrState
bob_early =
    decrypt toy_ratchet spare (next_slot toy_ratchet spare (1 ∷ 2 ∷ []) alice_first) bob_late.1

decrypt_swapped_example :
    (bob_late.0 ≡ plaintext (3 ∷ []))
    × (bob_early.0 ≡ plaintext (1 ∷ 2 ∷ []))
    × Synced toy_ratchet (encrypt toy_ratchet spare (3 ∷ []) alice_then).1 bob_early.1
decrypt_swapped_example =
    decrypt_swapped toy_ratchet spare (1 ∷ 2 ∷ []) (3 ∷ []) alice_first bob_first
      toy_ratchet-RatchetWorks first-Synced

abbrev next_pair : DrKeyPair
next_pair = record { public_key = 8 ∷ []; secret_key = 4 ∷ [] }

abbrev turns : List (DrKeyPair × Bytes)
turns = (next_pair, 1 ∷ 2 ∷ []) ∷ (bob, 3 ∷ []) ∷ []

turns-NewKeys : NewKeys toy_ratchet spare alice turns
unfolding NewKeys bytes_equal quantum_bunker.Base.ℕ_discrete
turns-NewKeys = (refl, refl, (refl, refl, tt))

spare-new : bytes_equal spare.public_key bob.public_key ≡ false
unfolding bytes_equal quantum_bunker.Base.ℕ_discrete
spare-new = refl

alternate-init_example :
    alternate toy_ratchet spare turns bob_first alice_first ≡ map (λ turn. plaintext turn.1) turns
alternate-init_example =
    alternate-init toy_ratchet spare alice bob (9 ∷ []) turns toy_ratchet-RatchetWorks refl refl
      spare-new turns-NewKeys

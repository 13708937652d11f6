-- ===== src/Client/PeerChannels/Traffic.antt =====
-- src/crypto/peer-channels.ts: the messages over the channels, and what the user can compare. The JSON of
-- a payload is not modelled: it is the record of its slots, in the order in which they are written.
use quantum_bunker.Base.{
  ℕ, ◌%◌, ◌/◌, get_elem?, String, ◌<>◌, Bool, true, false, not, ◌&&◌, ◌||◌, List, [], ◌∷◌, Option,
  none, some, ltb, if◌then◌else◌, ◌==◌, length, keep_if, is_some, nat_eq, string_eq,
}
use quantum_bunker.Base.Dict.{Dict, lookup, erase}
use quantum_bunker.Client.Padding.{pad_plaintext, unpad_plaintext, unpadded}
use quantum_bunker.Client.FileStream.{Bytes}
use quantum_bunker.Client.Ratchet.{
  DrKeyPair, RatchetSlot, DrState, DrResult, plaintext, encrypt, decrypt,
}
use quantum_bunker.Client.ChannelBasics.{ChannelCrypto}
use quantum_bunker.Client.PeerChannels.{Channel, PeerChannels, put, is_phase_ready}

-- What `encryptForAll` gives; none where it throws PC_NO_RATCHET.
abbrev pub Slots : Type 0
Slots = Dict String RatchetSlot

abbrev pub hex_digits : List String
hex_digits =
    "0" ∷ "1" ∷ "2" ∷ "3" ∷ "4" ∷ "5" ∷ "6" ∷ "7" ∷ "8" ∷ "9" ∷ "a" ∷ "b" ∷ "c" ∷ "d" ∷ "e" ∷ "f"
    ∷ []

abbrev pub hex_digit : ℕ → String
hex_digit n = elim (get_elem? hex_digits n) [ none ↦ "" | some d ↦ d ]

-- The digits of `b.toString(16).padStart(2, '0')` for a byte, one after the other.
unfoldable pub to_hex : Bytes → String
to_hex [] = ""
to_hex (b ∷ bytes) = hex_digit (b / 16) <> (hex_digit (b % 16) <> to_hex bytes)

module _ (lib : ChannelCrypto) where
  -- The loop of `encryptForAll`; `fresh` gives the key pair that a ratchet may generate.
  unfoldable pub encrypt_each :
      (fresh : String → DrKeyPair)
      → Bytes
      → Dict String Channel
      → Option Slots × Dict String Channel
  encrypt_each fresh bytes [] = (some [], [])
  encrypt_each fresh bytes ((id, c) ∷ cs) =
      let (slots, cs') = encrypt_each fresh bytes cs in
      if not (is_phase_ready c.phase) then (slots, (id, c) ∷ cs') else (elim c.ratchet [
        | none ↦ (none, (id, c) ∷ cs)
        | some r ↦
            let (slot, r') = encrypt lib.dr (fresh id) bytes r in
            (
              elim slots [ none ↦ none | some ss ↦ some ((id, slot) ∷ ss) ],
              (id, record c { ratchet = some r' }) ∷ cs',
            )
      ])

  unfoldable pub encrypt_for_all :
      (fresh : String → DrKeyPair) → String → PeerChannels → Option Slots × PeerChannels
  unfolding encrypt_each pad_plaintext
  encrypt_for_all fresh text st =
      let (slots, channels) = encrypt_each fresh (pad_plaintext (lib.utf8 text)) st.channels in
      (slots, record st { channels = channels })

  abbrev pub text_of : DrResult → Option String
  text_of (plaintext bytes) = elim (unpad_plaintext bytes) [
    | unpadded content ↦ some (lib.from_utf8 content)
    | _ ↦ none
  ]
  text_of _ = none

  -- With the ratchet and the slot that were looked up.
  unfoldable pub decrypt_slot :
      DrKeyPair
      → (from : String) → Channel
      → Option DrState
      → Option RatchetSlot
      → PeerChannels
      → Option String × PeerChannels
  decrypt_slot fresh from c none slot st = (none, st)
  decrypt_slot fresh from c (some r) none st = (none, st)
  decrypt_slot fresh from c (some r) (some slot) st =
      if not (is_phase_ready c.phase) || slot.ct == ""
      then (none, st)
      else (let (opened, r') = decrypt lib.dr fresh slot r in
          (text_of opened, put lib from (record c { ratchet = some r' }) st))

  -- None where the code gives null.
  unfoldable pub decrypt_from :
      DrKeyPair → (from : String) → Slots → PeerChannels → Option String × PeerChannels
  unfolding decrypt_slot unpad_plaintext
  decrypt_from fresh from slots st = elim (lookup from st.channels) [
    | none ↦ (none, st)
    | some c ↦ decrypt_slot fresh from c c.ratchet (lookup st.self_id slots) st
  ]

  unfoldable pub remove_peer : String → PeerChannels → PeerChannels
  remove_peer peer_id st = record st { channels = erase peer_id st.channels }

  unfoldable pub is_ready : String → PeerChannels → Bool
  is_ready peer_id st = elim (lookup peer_id st.channels) [
    | none ↦ false
    | some c ↦ is_phase_ready c.phase && is_some c.ratchet
  ]

  abbrev pub every_ready : List String → PeerChannels → Bool
  every_ready [] st = true
  every_ready (id ∷ ids) st = is_ready id st && every_ready ids st

  unfoldable pub all_ready : List String → PeerChannels → Bool
  unfolding is_ready
  all_ready peer_ids st =
      let others = keep_if (λ id. not (id == st.self_id)) peer_ids in
      ltb 0 (length others) && every_ready others st

  unfoldable pub safety_numbers : Dict String Channel → Dict String String
  safety_numbers [] = []
  safety_numbers ((id, c) ∷ cs) =
      let rest = safety_numbers cs in
      elim c.safety_number [ none ↦ rest | some n ↦ if n == "" then rest else (id, n) ∷ rest ]

  unfoldable pub fingerprints : Dict String Channel → Dict String String
  unfolding to_hex
  fingerprints [] = []
  fingerprints ((id, c) ∷ cs) =
      let rest = fingerprints cs in
      elim c.remote_static_key [
        | none ↦ rest
        | some key ↦ (id, to_hex (lib.noise.sha256 key)) ∷ rest
      ]

  unfoldable pub own_fingerprint : PeerChannels → String
  unfolding to_hex
  own_fingerprint st = to_hex (lib.noise.sha256 st.static_key.public_key)

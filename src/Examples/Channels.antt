-- ===== src/Examples/Channels.antt =====
-- Two peers that meet, with toy cryptography.
use quantum_bunker.Base.{
  ℕ, ◌+◌, String, ◌≡◌, refl, arith, Bool, true, false, [], ◌∷◌, some, replicate, length-replicate,
  nat_eq, string_eq,
}
use quantum_bunker.Shared.Text.{is_before}
use quantum_bunker.Base.Dict.{lookup, has, keys}
use quantum_bunker.Client.Ratchet.{DrKeyPair, DrState, init_alice, init_bob, encrypt}
use quantum_bunker.Client.Noise.{new_handshake}
use quantum_bunker.Client.ChannelBasics.{Fresh, kem_public_key_bytes}
use quantum_bunker.Client.PeerChannels.{
  PeerChannels, Channel, NoiseFrame, ready, ensure_channel, on_signal,
}
use quantum_bunker.Client.PeerChannels.Traffic.{Slots, encrypt_each, encrypt_for_all, decrypt_from}
use quantum_bunker.Client.PeerChannels.Invariant.{
  begin, next, ensure, signal, ready_ids, encrypt_for_all_total,
}
use quantum_bunker.Client.Padding.{pad_plaintext}
use quantum_bunker.Client.Ratchet.Conversations.{init-Synced}
use quantum_bunker.Client.PeerChannels.Meeting.{blank_channel}
use quantum_bunker.Client.PeerChannels.Talking.{Hears, decrypt_from-encrypt}
use quantum_bunker.Client.PeerChannels.Sessions.{Connected, GenuineFresh, connect-Connected}
use quantum_bunker.Client.PeerChannels.Exchanges.{connect}
use quantum_bunker.Examples.Crypto.{
  toy_noise, Genuine, GenuineKem, code_list, tagged_ratchet, toy_channels,
  toy_channels-ChannelWorks,
}

abbrev pub key_pair : ℕ → DrKeyPair
key_pair n = record { public_key = replicate 32 n; secret_key = n ∷ [] }

abbrev pub fresh_of : ℕ → Fresh
fresh_of n = record {
  dr_pair = key_pair n;
  ephemeral_pair = key_pair (n + 1);
  kem_pair = record { public_key = replicate kem_public_key_bytes n; secret_key = n ∷ [] };
  coins = n ∷ [];
}

fresh_of-GenuineFresh :
    (n : ℕ) → GenuineFresh toy_channels Genuine GenuineKem toy_channels-ChannelWorks (fresh_of n)
fresh_of-GenuineFresh n = record {
  dr_genuine = refl;
  ephemeral_genuine = refl;
  kem_genuine = length-replicate kem_public_key_bytes n;
}

abbrev peer : String → ℕ → PeerChannels
peer id n = record {
  self_id = id;
  session_id = "s";
  static_key = key_pair n;
  channels = [];
  out = [];
}

ann_before_bob : is_before "ann" "bob" ≡ true
unfolding is_before
ann_before_bob = refl

no_channel : has "bob" (peer "ann" 1).channels ≡ false
unfolding has lookup
no_channel = refl

connect-Connected_example :
    (a : PeerChannels) × (b : PeerChannels) × (connect toy_channels
        (fresh_of 3)
        (fresh_of 5)
        (fresh_of 7)
        (fresh_of 9)
        (peer "ann" 1)
        (peer "bob" 2)
      ≡ some (a, b))
    × Connected toy_channels Genuine GenuineKem toy_channels-ChannelWorks
        (peer "ann" 1)
        (peer "bob" 2)
        (key_pair 3)
        (key_pair 7)
        a
        b
connect-Connected_example =
    connect-Connected toy_channels Genuine GenuineKem toy_channels-ChannelWorks (fresh_of 3)
      (fresh_of 5) (fresh_of 7) (fresh_of 9) (peer "ann" 1) (peer "bob" 2) (fresh_of-GenuineFresh 3)
      (fresh_of-GenuineFresh 5) (fresh_of-GenuineFresh 7) refl refl no_channel ann_before_bob refl

abbrev ann_first : PeerChannels
ann_first = ensure_channel toy_channels (fresh_of 3) "bob" (peer "ann" 1)

abbrev answer : NoiseFrame
answer = record { to = "ann"; step = 2; body = "ab" }

encrypt_for_all_total_example :
    (let st = on_signal toy_channels (fresh_of 5) "bob" answer ann_first in
      (slots : Slots) × ((encrypt_for_all toy_channels (λ _. key_pair 6) "hi" st).0 ≡ some slots)
      × (keys slots ≡ ready_ids toy_channels st.channels)
      × (ready_ids toy_channels (encrypt_for_all toy_channels (λ _. key_pair 6) "hi" st).1.channels
          ≡ ready_ids toy_channels st.channels))
encrypt_for_all_total_example =
    encrypt_for_all_total toy_channels (λ _. key_pair 6) "hi"
      (on_signal toy_channels (fresh_of 5) "bob" answer ann_first)
      (next (next (begin (peer "ann" 1) refl) (ensure (fresh_of 3) "bob" (peer "ann" 1)))
        (signal (fresh_of 5) "bob" answer ann_first))

abbrev channel_with : Bool → DrKeyPair → DrState → Channel
channel_with initiator pair r =
    record (blank_channel initiator pair
      (new_handshake toy_noise initiator (key_pair 1) (5 ∷ []) (6 ∷ []))) {
        phase = ready;
        ratchet = some r;
      }

abbrev ann_ratchet : DrState
ann_ratchet = init_alice tagged_ratchet (9 ∷ []) (key_pair 3) (key_pair 7).public_key

abbrev bob_ratchet : DrState
bob_ratchet = init_bob tagged_ratchet (9 ∷ []) (key_pair 7) (key_pair 3).public_key

abbrev pub ann : PeerChannels
ann = record (peer "ann" 1) {
  channels =
      ("cid", blank_channel true (key_pair 8) (channel_with true (key_pair 3) ann_ratchet).hs)
      ∷ ("bob", channel_with true (key_pair 3) ann_ratchet)
      ∷ [];
}

abbrev pub bob : PeerChannels
bob = record (peer "bob" 2) { channels = ("ann", channel_with false (key_pair 7) bob_ratchet) ∷ [] }

pub ann-bob-Hears : Hears toy_channels Genuine GenuineKem toy_channels-ChannelWorks ann bob
unfolding lookup string_eq
ann-bob-Hears = record {
  c_a = channel_with true (key_pair 3) ann_ratchet;
  c_b = channel_with false (key_pair 7) bob_ratchet;
  r_a = ann_ratchet;
  r_b = bob_ratchet;
  there_a = refl;
  there_b = refl;
  ready_a = refl;
  ready_b = refl;
  ratchet_a = refl;
  ratchet_b = refl;
  in_step = init-Synced tagged_ratchet (9 ∷ []) (key_pair 3) (key_pair 7) refl;
}

abbrev pub ann_slots : Slots
ann_slots =
    ("bob", (encrypt tagged_ratchet (key_pair 6) (pad_plaintext (code_list "hi")) ann_ratchet).0)
    ∷ []

pub ann_sends : (encrypt_for_all toy_channels (λ _. key_pair 6) "hi" ann).0 ≡ some ann_slots
unfolding encrypt_for_all encrypt_each
ann_sends = refl

decrypt_from-encrypt_example :
    ((decrypt_from toy_channels (key_pair 8) "ann" ann_slots bob).0 ≡ some "hi")
    × Hears toy_channels Genuine GenuineKem toy_channels-ChannelWorks
        (encrypt_for_all toy_channels (λ _. key_pair 6) "hi" ann).1
        (decrypt_from toy_channels (key_pair 8) "ann" ann_slots bob).1
decrypt_from-encrypt_example =
    decrypt_from-encrypt toy_channels Genuine GenuineKem toy_channels-ChannelWorks (λ _. key_pair 6)
      (key_pair 8) "hi" ann bob ann_slots (omega arith) ann-bob-Hears ann_sends

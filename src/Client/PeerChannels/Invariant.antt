-- ===== src/Client/PeerChannels/Invariant.antt =====
-- Whatever happens to the channels of a peer, a ready one can encrypt.
use quantum_bunker.Base.{
  ℕ, ◌+◌, String, ◌≡◌, refl, arith, true, false, not, List, [], ◌∷◌, Option, none, some,
  if◌then◌else◌, ◌==◌, ◌||◌, nat_eq, Option-cases, if_both, Bool-cases, inl, inr, string_eq,
}
use quantum_bunker.Base.Dict.{
  Dict, keys, lookup, erase, has, AllValues, AllValues-insert, AllValues-erase, AllValues-lookup,
}
use quantum_bunker.Client.FileStream.{Bytes}
use quantum_bunker.Client.Padding.{pad_plaintext}
use quantum_bunker.Client.Ratchet.{DrKeyPair, RatchetSlot, DrState, encrypt, decrypt}
use quantum_bunker.Client.Noise.{write_message}
use quantum_bunker.Client.ChannelBasics.{ChannelCrypto, Fresh}
use quantum_bunker.Client.PeerChannels.{
  NoiseFrame, Channel, PeerChannels, is_phase_ready, put, is_initiator, is_in_handshake,
  channel_for, new_channel, send_reply, start_channel, open_channel, ensure_channel,
  on_restart_request, on_frame, on_signal,
}
use quantum_bunker.Client.PeerChannels.Traffic.{
  Slots, encrypt_each, encrypt_for_all, decrypt_slot, decrypt_from, remove_peer,
}
use quantum_bunker.Client.PeerChannels.Soundness.{IsSound, on_frame-IsSound}

abbrev pub AllSound : PeerChannels → Type 0
AllSound st = AllValues IsSound st.channels

module _ (lib : ChannelCrypto) where
  new_channel-IsSound :
      (fresh : Fresh) (id : String) (st : PeerChannels) → IsSound (new_channel lib fresh id st)
  unfolding new_channel
  new_channel-IsSound fresh id st = record { has_parts = λ h. cc }

  send_reply-AllSound :
      (to : String) (step : ℕ) (body : Option Bytes) (st : PeerChannels)
      → AllSound st
      → AllSound (send_reply lib to step body st)
  unfolding send_reply
  send_reply-AllSound to step none st all = all
  send_reply-AllSound to step (some b) st all = all

  start_channel-AllSound :
      (fresh : Fresh) (id : String) (c : Channel) (st : PeerChannels)
      → IsSound c
      → AllSound st
      → AllSound (start_channel lib fresh id c st)
  unfolding start_channel
  start_channel-AllSound fresh id c st sound all =
      let (message, hs) = write_message lib.noise fresh.ephemeral_pair [] c.hs in
      let started : IsSound (record c { hs = hs }) = record { has_parts = sound.has_parts } in
      if_both AllSound c.initiator
        (send_reply-AllSound id 1 message (put lib id (record c { hs = hs }) st)
          (AllValues-insert IsSound id (record c { hs = hs }) st.channels started all))
        (AllValues-insert IsSound id c st.channels sound all)

  open_channel-AllSound :
      (fresh : Fresh) (id : String) (st : PeerChannels)
      → AllSound st
      → AllSound (open_channel lib fresh id st)
  unfolding open_channel
  open_channel-AllSound fresh id st all =
      start_channel-AllSound fresh id (new_channel lib fresh id st) st
        (new_channel-IsSound fresh id st) all

  ensure_channel-AllSound :
      (fresh : Fresh) (id : String) (st : PeerChannels)
      → AllSound st
      → AllSound (ensure_channel lib fresh id st)
  unfolding ensure_channel
  ensure_channel-AllSound fresh id st all =
      if_both AllSound (id == st.self_id || has id st.channels) all
        (open_channel-AllSound fresh id st all)

  on_restart_request-AllSound :
      (fresh : Fresh) (id : String) (st : PeerChannels)
      → AllSound st
      → AllSound (on_restart_request lib fresh id st)
  unfolding on_restart_request
  on_restart_request-AllSound fresh id st all =
      let erased = AllValues-erase IsSound id st.channels all in
      let st' = record st { channels = erase id st.channels } in
      if_both AllSound (not (is_initiator lib id st)) all (
        if_both AllSound (is_in_handshake lib (lookup id st.channels)) all
          (ensure_channel-AllSound fresh id st' erased))

  channel_for-IsSound :
      (fresh : Fresh) (id : String) (step : ℕ) (st : PeerChannels)
      → AllSound st
      → IsSound (channel_for lib fresh id step st)
  channel_for-IsSound fresh id step st all =
      let new = new_channel-IsSound fresh id st in
      elim (Option-cases (lookup id st.channels)) [
        | inl missing ↦ rw (missing, channel_for) new
        | inr (c, there) ↦
            rw (there, channel_for)
              (if_both IsSound (step == 1) new
                (AllValues-lookup IsSound id st.channels c there all))
      ]

  pub on_signal-AllSound :
      (fresh : Fresh) (from : String) (frame : NoiseFrame) (st : PeerChannels)
      → AllSound st
      → AllSound (on_signal lib fresh from frame st)
  unfolding on_signal
  on_signal-AllSound fresh from frame st all =
      let c = channel_for lib fresh from frame.step st in
      let sound =
        on_frame-IsSound lib fresh frame c (channel_for-IsSound fresh from frame.step st all) in
      let c' = (on_frame lib fresh frame c).1 in
      let put_back = AllValues-insert IsSound from c' st.channels sound all in
      if_both AllSound (not (frame.to == st.self_id)) all (
        if_both AllSound (frame.step == 0) (on_restart_request-AllSound fresh from st all) (
          send_reply-AllSound from (frame.step + 1) (on_frame lib fresh frame c).0
            (put lib from c' st) put_back))

  -- The ready channels, in the order of the map.
  unfoldable pub ready_ids : Dict String Channel → List String
  ready_ids [] = []
  ready_ids ((id, c) ∷ cs) =
      let rest = ready_ids cs in if is_phase_ready c.phase then id ∷ rest else rest

  pub encrypt_each-some :
      (fresh : String → DrKeyPair) (bytes : Bytes) (id : String) (c : Channel) (r : DrState)
      (cs : Dict String Channel) (slots : Slots)
      → is_phase_ready c.phase ≡ true
      → c.ratchet ≡ some r
      → (encrypt_each lib fresh bytes cs).0 ≡ some slots
      → (let (slot, r') = encrypt lib.dr (fresh id) bytes r in
          encrypt_each lib fresh bytes ((id, c) ∷ cs) ≡ (
            some ((id, slot) ∷ slots),
            (id, record c { ratchet = some r' }) ∷ (encrypt_each lib fresh bytes cs).1,
          ))
  unfolding encrypt_each
  encrypt_each-some fresh bytes id c r cs slots is_ready there rest =
      ground (arith, is_ready, there, rest)

  pub encrypt_each-none :
      (fresh : String → DrKeyPair) (bytes : Bytes) (id : String) (c : Channel)
      (cs : Dict String Channel)
      → is_phase_ready c.phase ≡ false
      → encrypt_each lib fresh bytes ((id, c) ∷ cs)
        ≡ ((encrypt_each lib fresh bytes cs).0, (id, c) ∷ (encrypt_each lib fresh bytes cs).1)
  unfolding encrypt_each
  encrypt_each-none fresh bytes id c cs idle = ground (arith, idle)

  -- What encrypting for all channels gives, and leaves.
  record Encrypted (cs : Dict String Channel) (got : Option Slots × Dict String Channel)
      : Type 0 where
    pub slots : Slots
    pub given : got.0 ≡ some slots
    pub for_ready : keys slots ≡ ready_ids cs
    pub sound : AllValues IsSound got.1
    pub same_ready : ready_ids got.1 ≡ ready_ids cs

  encrypt_each-Encrypted :
      (fresh : String → DrKeyPair) (bytes : Bytes) (cs : Dict String Channel)
      → AllValues IsSound cs
      → Encrypted cs (encrypt_each lib fresh bytes cs)
  unfolding encrypt_each ready_ids keys
  encrypt_each-Encrypted fresh bytes [] all = record {
    slots = [];
    given = refl;
    for_ready = refl;
    sound = tt;
    same_ready = refl;
  }
  encrypt_each-Encrypted fresh bytes ((id, c) ∷ cs) (sound, all) =
      let rest = encrypt_each-Encrypted fresh bytes cs all in
      elim (Bool-cases (is_phase_ready c.phase)) [
        | inl is_ready ↦ elim (Option-cases c.ratchet) [
          | inl missing ↦ absurd (ground (arith, missing, sound.has_parts is_ready))
          | inr (r, there) ↦
              rw (encrypt_each-some fresh bytes id c r cs rest.slots is_ready there rest.given)
                (record {
                  slots = _;
                  given = refl;
                  for_ready = ground (arith, is_ready, rest.for_ready);
                  sound = (
                    record {
                      has_parts = λ h. (refl, (sound.has_parts h).1, (sound.has_parts h).2);
                    },
                    rest.sound,
                  );
                  same_ready = ground (arith, is_ready, rest.same_ready);
                })
        ]
        | inr idle ↦ rw (encrypt_each-none fresh bytes id c cs idle) (record {
          slots = rest.slots;
          given = rest.given;
          for_ready = ground (arith, idle, rest.for_ready);
          sound = (sound, rest.sound);
          same_ready = ground (arith, idle, rest.same_ready);
        })
      ]

  abbrev SoundState : Option String × PeerChannels → Type 0
  SoundState o = AllSound o.1

  decrypt_slot-AllSound :
      (fresh : DrKeyPair) (from : String) (c : Channel) (r : Option DrState)
      (slot : Option RatchetSlot) (st : PeerChannels)
      → IsSound c
      → AllSound st
      → AllSound (decrypt_slot lib fresh from c r slot st).1
  unfolding decrypt_slot
  decrypt_slot-AllSound fresh from c none slot st sound all = all
  decrypt_slot-AllSound fresh from c (some r) none st sound all = all
  decrypt_slot-AllSound fresh from c (some r) (some slot) st sound all =
      let c' = record c { ratchet = some (decrypt lib.dr fresh slot r).1 } in
      let sound' : IsSound c' = record {
        has_parts = λ h. (refl, (sound.has_parts h).1, (sound.has_parts h).2);
      } in
      if_both SoundState (not (is_phase_ready c.phase) || slot.ct == "") all
        (AllValues-insert IsSound from c' st.channels sound' all)

  decrypt_from-AllSound :
      (fresh : DrKeyPair) (from : String) (slots : Slots) (st : PeerChannels)
      → AllSound st
      → AllSound (decrypt_from lib fresh from slots st).1
  unfolding decrypt_from
  decrypt_from-AllSound fresh from slots st all = elim (Option-cases (lookup from st.channels)) [
    | inl missing ↦ rw (missing, decrypt_from) all
    | inr (c, there) ↦
        rw (there, decrypt_from)
          (decrypt_slot-AllSound fresh from c c.ratchet (lookup st.self_id slots) st
            (AllValues-lookup IsSound from st.channels c there all) all)
  ]

  -- What can happen to the channels of a peer: its own calls, and any frames and payloads of others.
  pub data Step : PeerChannels → PeerChannels → Type 0 where
    ensure :
        (fresh : Fresh) (id : String) (st : PeerChannels) → Step st (ensure_channel lib fresh id st)
    signal :
        (fresh : Fresh) (from : String) (frame : NoiseFrame) (st : PeerChannels)
        → Step st (on_signal lib fresh from frame st)
    encrypts :
        (fresh : String → DrKeyPair) (text : String) (st : PeerChannels)
        → Step st (encrypt_for_all lib fresh text st).1
    decrypts :
        (fresh : DrKeyPair) (from : String) (slots : Slots) (st : PeerChannels)
        → Step st (decrypt_from lib fresh from slots st).1
    remove : (id : String) (st : PeerChannels) → Step st (remove_peer lib id st)

  pub data Reach : PeerChannels → Type 0 where
    begin : (st : PeerChannels) → st.channels ≡ [] → Reach st
    next : {st st' : PeerChannels} → Reach st → Step st st' → Reach st'

  Step-AllSound : {st st' : PeerChannels} → Step st st' → AllSound st → AllSound st'
  unfolding encrypt_for_all remove_peer
  Step-AllSound (ensure fresh id st) all = ensure_channel-AllSound fresh id st all
  Step-AllSound (signal fresh from frame st) all = on_signal-AllSound fresh from frame st all
  Step-AllSound (encrypts fresh text st) all =
      (encrypt_each-Encrypted fresh (pad_plaintext (lib.utf8 text)) st.channels all).sound
  Step-AllSound (decrypts fresh from slots st) all = decrypt_from-AllSound fresh from slots st all
  Step-AllSound (remove id st) all = AllValues-erase IsSound id st.channels all

  Reach-AllSound : {st : PeerChannels} → Reach st → AllSound st
  Reach-AllSound (begin st empty) = rw empty tt
  Reach-AllSound (next r step) = Step-AllSound step (Reach-AllSound r)

  -- Whatever frames and payloads came, and whatever was called before: encrypting never throws, gives
  -- a slot for each peer whose channel is ready, in the order of the map, and for no other peer, and
  -- leaves the same channels ready.
  pub encrypt_for_all_total :
      (fresh : String → DrKeyPair) (text : String) (st : PeerChannels)
      → Reach st
      → (slots : Slots) × ((encrypt_for_all lib fresh text st).0 ≡ some slots)
        × (keys slots ≡ ready_ids st.channels)
        × (ready_ids (encrypt_for_all lib fresh text st).1.channels ≡ ready_ids st.channels)
  unfolding encrypt_for_all
  encrypt_for_all_total fresh text st reached =
      let e =
        encrypt_each-Encrypted fresh (pad_plaintext (lib.utf8 text)) st.channels
          (Reach-AllSound reached) in
      (e.slots, e.given, e.for_ready, e.same_ready)

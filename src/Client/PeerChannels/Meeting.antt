-- ===== src/Client/PeerChannels/Meeting.antt =====
-- Two peers that meet: all four operations of the exchange.
use quantum_bunker.Base.{
  ℕ, ◌+◌, String, ◌≡◌, refl, sym, ap, subst, ◌∙◌, ◌<◌, arith, Bool, true, false, not, List, [], ◌∷◌,
  Option, none, some, if◌then◌else◌, ◌==◌, length, string_eq, nat_eq, is_some, Option-cases, inl,
  inr,
}
use quantum_bunker.Base.Dict.{lookup, has}
use quantum_bunker.Shared.Text.{is_before}
use quantum_bunker.Client.FileStream.{Bytes}
use quantum_bunker.Client.Ratchet.{DrKeyPair}
use quantum_bunker.Client.Ratchet.Channel.{RatchetWorks}
use quantum_bunker.Client.Ratchet.Turns.{Agree}
use quantum_bunker.Client.Noise.{
  HandshakeState, new_handshake, read_message, write_message, is_complete,
}
use quantum_bunker.Client.Noise.Agreement.{NoiseWorks}
use quantum_bunker.Client.ChannelBasics.{
  KemKeyPair, ChannelCrypto, Fresh, safety_number_of, join_handshake_payload,
  split_handshake_payload, kem_encapsulate, kem_decapsulate, combine_hybrid_secret,
  kem_public_key_bytes, kem_ciphertext_bytes, protocol_name, build_prologue,
}
use quantum_bunker.Client.PeerChannels.{
  Channel, PeerChannels, handshaking, ready, new_channel, put, send_noise, frame_of, send_reply,
  ensure_channel, ratchet_of, channel_for, on_signal,
}
use quantum_bunker.Client.PeerChannels.Connecting.{
  ensure_channel-new, on_first-lem, on_second-lem, on_third-lem, finalize-ready, on_signal-frame,
  on_frame-first, on_frame-second, on_frame-third,
}

-- What the third-party functions promise for the key pairs that they generate.
pub record ChannelWorks (lib : ChannelCrypto) (Genuine : DrKeyPair → Type 0)
    (GenuineKem : KemKeyPair → Type 0) : Type 0 where
  pub noise_works : NoiseWorks lib.noise Genuine
  pub ratchet_works : RatchetWorks lib.dr
  pub dr_agrees : (a b : DrKeyPair) → Genuine a → Genuine b → Agree lib.dr a b
  pub kem_agrees :
      (coins : Bytes) (pair : KemKeyPair)
      → GenuineKem pair
      → (let (ciphertext, secret) = lib.encapsulate coins pair.public_key in
          (length ciphertext ≡ kem_ciphertext_bytes)
          × (lib.decapsulate ciphertext pair.secret_key ≡ secret))
  pub kem_length :
      (pair : KemKeyPair) → GenuineKem pair → length pair.public_key ≡ kem_public_key_bytes
  pub decodes : (b : Bytes) → lib.from_base64 (lib.dr.to_base64 b) ≡ some b
  pub base64_nonempty : (b : Bytes) → 0 < length b → (lib.dr.to_base64 b == "") ≡ false
  pub seal_nonempty : (key n plain ad : Bytes) → 0 < length (lib.dr.seal key n plain ad)
  pub utf8_decodes : (s : String) → lib.from_utf8 (lib.utf8 s) ≡ s

-- A channel whose handshake has just begun.
abbrev pub blank_channel : Bool → DrKeyPair → HandshakeState → Channel
blank_channel initiator dr hs = record {
  initiator = initiator;
  phase = handshaking;
  hs = hs;
  ratchet = none;
  safety_number = none;
  remote_static_key = none;
  dr_key_pair = dr;
  remote_dr_key = none;
  kem_key_pair = none;
  pq_secret = none;
}

module _ (lib : ChannelCrypto) where
  -- The state of a handshake between `a` and `b` that `a` starts.
  abbrev pub first_state : Bool → DrKeyPair → (session a b : String) → HandshakeState
  first_state initiator key session a b =
      new_handshake lib.noise initiator key (lib.utf8 protocol_name)
        (build_prologue lib.utf8 session a b)

  new_channel-initiator :
      (fresh : Fresh) (peer : String) (st : PeerChannels)
      → is_before st.self_id peer ≡ true
      → new_channel lib fresh peer st
        ≡ blank_channel true fresh.dr_pair
            (first_state true st.static_key st.session_id st.self_id peer)
  unfolding new_channel
  new_channel-initiator fresh peer st h = ground (arith, h)

  new_channel-responder :
      (fresh : Fresh) (peer : String) (st : PeerChannels)
      → is_before st.self_id peer ≡ false
      → new_channel lib fresh peer st
        ≡ blank_channel false fresh.dr_pair
            (first_state false st.static_key st.session_id peer st.self_id)
  unfolding new_channel
  new_channel-responder fresh peer st h = ground (arith, h)

  -- The initiator opens the channel.
  pub meet_first :
      (fresh : Fresh) (peer : String) (st : PeerChannels) (m : Bytes) (hs : HandshakeState)
      → (peer == st.self_id) ≡ false
      → has peer st.channels ≡ false
      → is_before st.self_id peer ≡ true
      → write_message lib.noise fresh.ephemeral_pair []
          (first_state true st.static_key st.session_id st.self_id peer)
        ≡ (some m, hs)
      → ensure_channel lib fresh peer st
        ≡ send_noise lib peer
            (frame_of lib peer 1 m)
            (put lib peer (blank_channel true fresh.dr_pair hs) st)
  meet_first fresh peer st m hs other new before written =
      ensure_channel-new lib fresh peer st
        (blank_channel true fresh.dr_pair
          (first_state true st.static_key st.session_id st.self_id peer))
        m hs other new (new_channel-initiator fresh peer st before) refl written

  channel_for-first :
      (fresh : Fresh) (peer : String) (st : PeerChannels)
      → channel_for lib fresh peer 1 st ≡ new_channel lib fresh peer st
  unfolding quantum_bunker.Base.ℕ_discrete
  channel_for-first fresh peer st = elim (Option-cases (lookup peer st.channels)) [
    | inl missing ↦ rw (missing, channel_for) refl
    | inr (c, there) ↦ rw (there, channel_for) refl
  ]

  -- The responder answers, whatever channel it had before.
  pub meet_second :
      (fresh : Fresh) (peer : String) (st : PeerChannels) (m reply payload : Bytes)
      (hs hs' : HandshakeState)
      → lib.from_base64 (lib.dr.to_base64 m) ≡ some m
      → is_before st.self_id peer ≡ false
      → read_message lib.noise m (first_state false st.static_key st.session_id peer st.self_id)
        ≡ (some payload, hs)
      → write_message lib.noise fresh.ephemeral_pair
          (join_handshake_payload fresh.dr_pair.public_key fresh.kem_pair.public_key)
          hs
        ≡ (some reply, hs')
      → on_signal lib fresh peer (frame_of lib st.self_id 1 m) st
        ≡ send_noise lib peer (frame_of lib peer 2 reply) (
            put lib peer
              (record (blank_channel false fresh.dr_pair hs') {
                kem_key_pair = some fresh.kem_pair;
              })
              st)
  unfolding send_reply quantum_bunker.Base.ℕ_discrete
  meet_second fresh peer st m reply payload hs hs' decoded before got written =
      let c₀ = first_state false st.static_key st.session_id peer st.self_id in
      let c = blank_channel false fresh.dr_pair c₀ in
      on_signal-frame lib fresh peer (frame_of lib st.self_id 1 m) st c
        (record (blank_channel false fresh.dr_pair hs') { kem_key_pair = some fresh.kem_pair })
        (some reply) refl refl
        (channel_for-first fresh peer st ∙ new_channel-responder fresh peer st before)
        (on_frame-first lib fresh st.self_id m c decoded refl
          ∙ on_first-lem lib fresh m reply payload c hs hs' got written)

  -- The channel after `finalize`.
  abbrev pub ready_channel : Channel → (root remote : Bytes) → Channel
  ready_channel c root remote = record c {
    safety_number = some (safety_number_of lib.noise.sha256 c.hs.sym.h);
    remote_static_key = c.hs.rs;
    ratchet = some (ratchet_of lib c root remote);
    phase = ready;
  }

  abbrev pub root_of : HandshakeState → Bytes → Bytes
  root_of hs pq = combine_hybrid_secret lib hs.sym.ck pq

  -- The initiator seals the post-quantum secret, and is ready.
  pub meet_third :
      (fresh : Fresh) (peer : String) (st : PeerChannels)
      (m reply dr_key blob ciphertext secret : Bytes) (dr : DrKeyPair) (hs₀ hs hs' : HandshakeState)
      → lib.from_base64 (lib.dr.to_base64 m) ≡ some m
      → lookup peer st.channels ≡ some (blank_channel true dr hs₀)
      → read_message lib.noise m hs₀ ≡ (some (join_handshake_payload dr_key blob), hs)
      → split_handshake_payload (join_handshake_payload dr_key blob) ≡ some (dr_key, blob)
      → kem_encapsulate lib fresh.coins blob ≡ some (ciphertext, secret)
      → write_message lib.noise fresh.ephemeral_pair
          (join_handshake_payload dr.public_key ciphertext)
          hs
        ≡ (some reply, hs')
      → is_complete hs' ≡ true
      → (let c = record (blank_channel true dr hs') {
        remote_dr_key = some dr_key;
        pq_secret = some secret;
      } in
          on_signal lib fresh peer (frame_of lib st.self_id 2 m) st
          ≡ send_noise lib peer
              (frame_of lib peer 3 reply)
              (put lib peer (ready_channel c (root_of hs' secret) dr_key) st))
  unfolding send_reply quantum_bunker.Base.ℕ_discrete
  meet_third fresh peer st m reply dr_key blob ciphertext secret dr hs₀ hs hs' decoded there got
        parts sealed written done =
      let c₀ = blank_channel true dr hs₀ in
      let c = record (blank_channel true dr hs') {
        remote_dr_key = some dr_key;
        pq_secret = some secret;
      } in
      let chosen : channel_for lib fresh peer 2 st ≡ c₀ = rw (there, channel_for) refl in
      on_signal-frame lib fresh peer (frame_of lib st.self_id 2 m) st c₀
        (ready_channel c (root_of hs' secret) dr_key) (some reply) refl refl chosen
        (on_frame-second lib fresh st.self_id m c₀ decoded refl
          ∙ on_second-lem lib fresh m reply (join_handshake_payload dr_key blob) dr_key blob
              ciphertext secret c₀ hs hs' got parts sealed written
          ∙ ap (λ (x : Channel). (some reply, x))
              (finalize-ready lib c dr_key secret done refl refl))

  -- The responder opens it, and is ready.
  pub meet_fourth :
      (fresh : Fresh) (peer : String) (st : PeerChannels) (m dr_key blob secret : Bytes)
      (dr : DrKeyPair) (pair : KemKeyPair) (hs hs' : HandshakeState)
      → lib.from_base64 (lib.dr.to_base64 m) ≡ some m
      → lookup peer st.channels
        ≡ some (record (blank_channel false dr hs) { kem_key_pair = some pair })
      → read_message lib.noise m hs ≡ (some (join_handshake_payload dr_key blob), hs')
      → split_handshake_payload (join_handshake_payload dr_key blob) ≡ some (dr_key, blob)
      → kem_decapsulate lib pair.secret_key blob ≡ some secret
      → is_complete hs' ≡ true
      → (let c = record (blank_channel false dr hs') {
        kem_key_pair = some pair;
        remote_dr_key = some dr_key;
        pq_secret = some secret;
      } in
          on_signal lib fresh peer (frame_of lib st.self_id 3 m) st
          ≡ put lib peer (ready_channel c (root_of hs' secret) dr_key) st)
  unfolding send_reply quantum_bunker.Base.ℕ_discrete
  meet_fourth fresh peer st m dr_key blob secret dr pair hs hs' decoded there got parts opened
        done =
      let c₀ = record (blank_channel false dr hs) { kem_key_pair = some pair } in
      let c = record (blank_channel false dr hs') {
        kem_key_pair = some pair;
        remote_dr_key = some dr_key;
        pq_secret = some secret;
      } in
      let chosen : channel_for lib fresh peer 3 st ≡ c₀ = rw (there, channel_for) refl in
      on_signal-frame lib fresh peer (frame_of lib st.self_id 3 m) st c₀
        (ready_channel c (root_of hs' secret) dr_key) none refl refl chosen
        (on_frame-third lib fresh st.self_id m c₀ decoded refl
          ∙ ap (λ (x : Channel). (none, x))
              (on_third-lem lib m (join_handshake_payload dr_key blob) dr_key blob secret c₀ pair
                  hs' got parts refl opened
                ∙ finalize-ready lib c dr_key secret done refl refl))

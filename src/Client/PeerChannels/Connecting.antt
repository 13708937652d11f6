-- ===== src/Client/PeerChannels/Connecting.antt =====
-- Two peers set up a channel: each operation of the exchange, where nothing gets lost.
use quantum_bunker.Base.{
  ℕ, ◌+◌, String, ◌≡◌, refl, subst, ◌<◌, length-append, arith, true, false, [], ◌++◌, Option, none,
  some, ◌==◌, length, take, drop, leb, take-append, drop-append, string_eq, nat_eq,
}
use quantum_bunker.Base.Dict.{has}
use quantum_bunker.Client.FileStream.{Bytes}
use quantum_bunker.Client.Noise.{HandshakeState, read_message, write_message, is_complete}
use quantum_bunker.Client.ChannelBasics.{
  KemKeyPair, ChannelCrypto, Fresh, safety_number_of, join_handshake_payload,
  split_handshake_payload, kem_encapsulate, kem_decapsulate, combine_hybrid_secret, dr_key_bytes,
}
use quantum_bunker.Client.PeerChannels.{
  NoiseFrame, Channel, PeerChannels, ready, new_channel, put, send_noise, frame_of, send_reply,
  start_channel, open_channel, ensure_channel, ratchet_of, finalize, on_first, on_second, on_third,
  on_frame, first_read, first_replied, second_read, second_split, second_sealed, second_replied,
  third_read, third_split, third_opened, channel_for, on_signal,
}

module _ (lib : ChannelCrypto) where
  pub ensure_channel-new :
      (fresh : Fresh) (peer : String) (st : PeerChannels) (c : Channel) (m : Bytes)
      (hs : HandshakeState)
      → (peer == st.self_id) ≡ false
      → has peer st.channels ≡ false
      → new_channel lib fresh peer st ≡ c
      → c.initiator ≡ true
      → write_message lib.noise fresh.ephemeral_pair [] c.hs ≡ (some m, hs)
      → ensure_channel lib fresh peer st
        ≡ send_noise lib peer (frame_of lib peer 1 m) (put lib peer (record c { hs = hs }) st)
  unfolding ensure_channel open_channel start_channel send_reply
  ensure_channel-new fresh peer st c m hs other new made starts written =
      ground (arith, other, new, made, starts, written)

  pub on_first-lem :
      (fresh : Fresh) (m reply payload : Bytes) (c : Channel) (hs hs' : HandshakeState)
      → read_message lib.noise m c.hs ≡ (some payload, hs)
      → write_message lib.noise fresh.ephemeral_pair
          (join_handshake_payload c.dr_key_pair.public_key fresh.kem_pair.public_key)
          hs
        ≡ (some reply, hs')
      → on_first lib fresh m c
        ≡ (some reply, record c { hs = hs'; kem_key_pair = some fresh.kem_pair })
  unfolding on_first first_read first_replied
  on_first-lem fresh m reply payload c hs hs' got written = ground (arith, got, written)

  pub on_second-lem :
      (fresh : Fresh) (m reply payload dr_key blob ciphertext secret : Bytes) (c : Channel)
      (hs hs' : HandshakeState)
      → read_message lib.noise m c.hs ≡ (some payload, hs)
      → split_handshake_payload payload ≡ some (dr_key, blob)
      → kem_encapsulate lib fresh.coins blob ≡ some (ciphertext, secret)
      → write_message lib.noise fresh.ephemeral_pair
          (join_handshake_payload c.dr_key_pair.public_key ciphertext)
          hs
        ≡ (some reply, hs')
      → on_second lib fresh m c ≡ (
        some reply,
        finalize lib (record c { hs = hs'; remote_dr_key = some dr_key; pq_secret = some secret }),
      )
  unfolding on_second second_read second_split second_sealed second_replied
  on_second-lem fresh m reply payload dr_key blob ciphertext secret c hs hs' got parts sealed
        written =
      ground (arith, got, parts, sealed, written)

  pub on_third-lem :
      (m payload dr_key blob secret : Bytes) (c : Channel) (pair : KemKeyPair) (hs : HandshakeState)
      → read_message lib.noise m c.hs ≡ (some payload, hs)
      → split_handshake_payload payload ≡ some (dr_key, blob)
      → c.kem_key_pair ≡ some pair
      → kem_decapsulate lib pair.secret_key blob ≡ some secret
      → on_third lib m c
        ≡ finalize lib (record c { hs = hs; remote_dr_key = some dr_key; pq_secret = some secret })
  unfolding on_third third_read third_split third_opened
  on_third-lem m payload dr_key blob secret c pair hs got parts waits opened =
      ground (arith, got, parts, waits, opened)

  -- Both secrets are there, and the handshake is complete.
  pub finalize-ready :
      (c : Channel) (remote pq : Bytes)
      → is_complete c.hs ≡ true
      → c.remote_dr_key ≡ some remote
      → c.pq_secret ≡ some pq
      → finalize lib c ≡ record c {
        safety_number = some (safety_number_of lib.noise.sha256 c.hs.sym.h);
        remote_static_key = c.hs.rs;
        ratchet = some (ratchet_of lib c (combine_hybrid_secret lib c.hs.sym.ck pq) remote);
        phase = ready;
      }
  unfolding finalize ratchet_of
  finalize-ready c remote pq done key secret = ground (arith, done, key, secret)

  pub split-join :
      (dr_key blob : Bytes)
      → length dr_key ≡ dr_key_bytes
      → 0 < length blob
      → split_handshake_payload (join_handshake_payload dr_key blob) ≡ some (dr_key, blob)
  unfolding split_handshake_payload join_handshake_payload
  split-join dr_key blob len more =
      let whole = dr_key ++ blob in
      let taken = subst (λ (n : ℕ). take n whole ≡ dr_key) len (take-append dr_key blob) in
      let dropped = subst (λ (n : ℕ). drop n whole ≡ blob) len (drop-append dr_key blob) in
      let long : leb (length whole) dr_key_bytes ≡ false =
        ground (arith, length-append dr_key blob, len) in
      rw (long, taken, dropped) refl

  -- A frame that is addressed to this side and is not a restart request.
  pub on_signal-frame :
      (fresh : Fresh) (from : String) (frame : NoiseFrame) (st : PeerChannels) (c c' : Channel)
      (reply : Option Bytes)
      → frame.to ≡ st.self_id
      → (frame.step == 0) ≡ false
      → channel_for lib fresh from frame.step st ≡ c
      → on_frame lib fresh frame c ≡ (reply, c')
      → on_signal lib fresh from frame st
        ≡ send_reply lib from (frame.step + 1) reply (put lib from c' st)
  unfolding on_signal
  on_signal-frame fresh from frame st c c' reply to step chosen handled =
      let mine : (frame.to == st.self_id) ≡ true = ground (arith, to) in
      rw (mine, step, chosen, handled, on_signal) refl

  pub on_frame-first :
      (fresh : Fresh) (to : String) (m : Bytes) (c : Channel)
      → lib.from_base64 (lib.dr.to_base64 m) ≡ some m
      → c.initiator ≡ false
      → on_frame lib fresh (frame_of lib to 1 m) c ≡ on_first lib fresh m c
  unfolding on_frame
  on_frame-first fresh to m c decoded role = ground (arith, decoded, role)

  pub on_frame-second :
      (fresh : Fresh) (to : String) (m : Bytes) (c : Channel)
      → lib.from_base64 (lib.dr.to_base64 m) ≡ some m
      → c.initiator ≡ true
      → on_frame lib fresh (frame_of lib to 2 m) c ≡ on_second lib fresh m c
  unfolding on_frame
  on_frame-second fresh to m c decoded role = ground (arith, decoded, role)

  pub on_frame-third :
      (fresh : Fresh) (to : String) (m : Bytes) (c : Channel)
      → lib.from_base64 (lib.dr.to_base64 m) ≡ some m
      → c.initiator ≡ false
      → on_frame lib fresh (frame_of lib to 3 m) c ≡ (none, on_third lib m c)
  unfolding on_frame
  on_frame-third fresh to m c decoded role = ground (arith, decoded, role)

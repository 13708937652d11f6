-- ===== src/Client/PeerChannels.antt =====
-- src/crypto/peer-channels.ts: the handshakes with the peers of a vault. `sendNoise` writes to the list
-- `out`, newest first. The fallback identity in sessionStorage is not modelled.
use quantum_bunker.Base.{
  ℕ, zero, suc, ◌+◌, ◌-◌, ◌*◌, ◌%◌, String, ◌<>◌, Bool, true, false, not, ◌&&◌, ◌||◌, List, [], ◌∷◌,
  ◌++◌, Option, none, some, leb, ltb, if◌then◌else◌, ◌==◌, length, take, drop, keep_if, is_some,
  nat_eq, string_eq,
}
use quantum_bunker.Base.Dict.{Dict, lookup, insert, erase, has}
use quantum_bunker.Base.Decimal.{decimal}
use quantum_bunker.Shared.Text.{is_before}
use quantum_bunker.Client.Padding.{pad_plaintext, unpad_plaintext, unpadded, read_uint32}
use quantum_bunker.Client.FileStream.{Bytes}
use quantum_bunker.Client.Ratchet.{
  DrKeyPair, RatchetSlot, RatchetCrypto, DrState, plaintext, init_alice, init_bob, encrypt, decrypt,
}
use quantum_bunker.Client.Noise.{
  NoiseCrypto, HandshakeState, new_handshake, read_message, write_message, is_complete,
}
use quantum_bunker.Client.ChannelBasics.{
  protocol_name, KemKeyPair, ChannelCrypto, Fresh, safety_number_of, join_handshake_payload,
  split_handshake_payload, build_prologue, kem_encapsulate, kem_decapsulate, combine_hybrid_secret,
}
pub mod Traffic
pub mod Soundness
pub mod Invariant
pub mod Connecting
pub mod Meeting
pub mod Runs
pub mod Exchanges
pub mod Sessions
pub mod Talking

pub record NoiseFrame : Type 0 where
  pub to : String
  pub step : ℕ
  pub body : String

pub data Phase : Type 0 where
  handshaking ready failed : Phase

abbrev pub is_phase_ready : Phase → Bool
is_phase_ready ready = true
is_phase_ready _ = false

abbrev pub is_handshaking : Phase → Bool
is_handshaking handshaking = true
is_handshaking _ = false

pub record Channel : Type 0 where
  pub initiator : Bool
  pub phase : Phase
  pub hs : HandshakeState
  pub ratchet : Option DrState
  pub safety_number : Option String
  pub remote_static_key : Option Bytes
  pub dr_key_pair : DrKeyPair
  pub remote_dr_key : Option Bytes
  pub kem_key_pair : Option KemKeyPair
  pub pq_secret : Option Bytes

pub record PeerChannels : Type 0 where
  pub self_id : String
  pub session_id : String
  pub static_key : DrKeyPair
  pub channels : Dict String Channel
  pub out : List (String × NoiseFrame)

module _ (lib : ChannelCrypto) where
  abbrev pub is_initiator : String → PeerChannels → Bool
  is_initiator peer_id st = is_before st.self_id peer_id

  unfoldable pub new_channel : Fresh → String → PeerChannels → Channel
  unfolding build_prologue
  new_channel fresh peer_id st =
      let initiator = is_initiator peer_id st in
      let prologue =
        if initiator
        then build_prologue lib.utf8 st.session_id st.self_id peer_id
        else build_prologue lib.utf8 st.session_id peer_id st.self_id in
      record {
        initiator = initiator;
        phase = handshaking;
        hs = new_handshake lib.noise initiator st.static_key (lib.utf8 protocol_name) prologue;
        ratchet = none;
        safety_number = none;
        remote_static_key = none;
        dr_key_pair = fresh.dr_pair;
        remote_dr_key = none;
        kem_key_pair = none;
        pq_secret = none;
      }

  abbrev pub put : String → Channel → PeerChannels → PeerChannels
  put peer_id c st = record st { channels = insert peer_id c st.channels }

  abbrev pub send_noise : String → NoiseFrame → PeerChannels → PeerChannels
  send_noise to frame st = record st { out = (to, frame) ∷ st.out }

  abbrev pub frame_of : String → ℕ → Bytes → NoiseFrame
  frame_of to step body = record { to = to; step = step; body = lib.dr.to_base64 body }

  -- Nothing is sent where the step before has thrown, or has no answer.
  unfoldable pub send_reply : String → ℕ → Option Bytes → PeerChannels → PeerChannels
  send_reply to step none st = st
  send_reply to step (some body) st = send_noise to (frame_of to step body) st

  -- The body of `ensureChannel` past its guard, with the new channel.
  unfoldable pub start_channel : Fresh → String → Channel → PeerChannels → PeerChannels
  unfolding send_reply
  start_channel fresh peer_id c st =
      let (message, hs) = write_message lib.noise fresh.ephemeral_pair [] c.hs in
      if c.initiator
      then send_reply peer_id 1 message (put peer_id (record c { hs = hs }) st)
      else send_noise peer_id (record { to = peer_id; step = 0; body = "" }) (put peer_id c st)

  unfoldable pub open_channel : Fresh → String → PeerChannels → PeerChannels
  unfolding new_channel start_channel
  open_channel fresh peer_id st = start_channel fresh peer_id (new_channel fresh peer_id st) st

  unfoldable pub ensure_channel : Fresh → String → PeerChannels → PeerChannels
  unfolding open_channel
  ensure_channel fresh peer_id st =
      if peer_id == st.self_id || has peer_id st.channels then st else open_channel fresh peer_id st

  abbrev pub is_in_handshake : Option Channel → Bool
  is_in_handshake none = false
  is_in_handshake (some c) = is_handshaking c.phase

  unfoldable pub on_restart_request : Fresh → String → PeerChannels → PeerChannels
  unfolding ensure_channel
  on_restart_request fresh peer_id st =
      if not (is_initiator peer_id st)
      then st
      else (if is_in_handshake (lookup peer_id st.channels)
          then st
          else ensure_channel fresh peer_id (record st { channels = erase peer_id st.channels }))

  unfoldable pub ratchet_of : Channel → (root remote : Bytes) → DrState
  ratchet_of c root remote =
      if c.initiator
      then init_alice lib.dr root c.dr_key_pair remote
      else init_bob lib.dr root c.dr_key_pair remote

  -- The root is there only with both secrets.
  unfoldable pub finalize : Channel → Channel
  unfolding combine_hybrid_secret ratchet_of safety_number_of
  finalize c =
      let c' = record c {
        safety_number = some (safety_number_of lib.noise.sha256 c.hs.sym.h);
        remote_static_key = c.hs.rs;
      } in
      if not (is_complete c.hs) then c else (elim c.remote_dr_key [
        | none ↦ record c' { phase = failed }
        | some remote ↦ elim c.pq_secret [
          | none ↦ record c' { phase = failed }
          | some pq ↦ record c' {
            ratchet = some (ratchet_of c' (combine_hybrid_secret lib c.hs.sym.ck pq) remote);
            phase = ready;
          }
        ]
      ])

  -- The `catch` of `onSignal`.
  abbrev pub fail_channel : Channel → Channel
  fail_channel c = record c { phase = failed }

  -- The branches of `onSignal`, from their ends on: the body of the frame that is sent, and the channel.
  -- A step that throws gives none, and the rest is left out.
  unfoldable pub first_replied : Option Bytes → Channel → Option Bytes × Channel
  first_replied none c = (none, fail_channel c)
  first_replied (some reply) c = (some reply, c)

  unfoldable pub first_read : Fresh → Option Bytes → Channel → Option Bytes × Channel
  unfolding first_replied join_handshake_payload
  first_read fresh none c = (none, fail_channel c)
  first_read fresh (some payload) c =
      let (reply, hs) =
        write_message lib.noise fresh.ephemeral_pair
          (join_handshake_payload c.dr_key_pair.public_key fresh.kem_pair.public_key) c.hs in
      first_replied reply (record c { hs = hs; kem_key_pair = some fresh.kem_pair })

  unfoldable pub on_first : Fresh → Bytes → Channel → Option Bytes × Channel
  unfolding first_read
  on_first fresh message c =
      let (payload, hs) = read_message lib.noise message c.hs in
      first_read fresh payload (record c { hs = hs })

  unfoldable pub second_replied : Option Bytes → Channel → Option Bytes × Channel
  unfolding finalize
  second_replied none c = (none, fail_channel c)
  second_replied (some reply) c = (some reply, finalize c)

  unfoldable pub second_sealed : Fresh → Option (Bytes × Bytes) → Channel → Option Bytes × Channel
  unfolding second_replied join_handshake_payload
  second_sealed fresh none c = (none, fail_channel c)
  second_sealed fresh (some (ciphertext, secret)) c =
      let (reply, hs) =
        write_message lib.noise fresh.ephemeral_pair
          (join_handshake_payload c.dr_key_pair.public_key ciphertext) c.hs in
      second_replied reply (record c { hs = hs; pq_secret = some secret })

  unfoldable pub second_split : Fresh → Option (Bytes × Bytes) → Channel → Option Bytes × Channel
  unfolding second_sealed kem_encapsulate
  second_split fresh none c = (none, fail_channel c)
  second_split fresh (some (dr_key, blob)) c =
      second_sealed fresh (kem_encapsulate lib fresh.coins blob)
        (record c { remote_dr_key = some dr_key })

  unfoldable pub second_read : Fresh → Option Bytes → Channel → Option Bytes × Channel
  unfolding second_split split_handshake_payload
  second_read fresh none c = (none, fail_channel c)
  second_read fresh (some payload) c = second_split fresh (split_handshake_payload payload) c

  unfoldable pub on_second : Fresh → Bytes → Channel → Option Bytes × Channel
  unfolding second_read
  on_second fresh message c =
      let (payload, hs) = read_message lib.noise message c.hs in
      second_read fresh payload (record c { hs = hs })

  unfoldable pub third_opened : Option Bytes → Channel → Channel
  unfolding finalize
  third_opened none c = fail_channel c
  third_opened (some secret) c = finalize (record c { pq_secret = some secret })

  unfoldable pub third_split : Option (Bytes × Bytes) → Channel → Channel
  unfolding third_opened kem_decapsulate
  third_split none c = fail_channel c
  third_split (some (dr_key, blob)) c =
      let c' = record c { remote_dr_key = some dr_key } in
      elim c.kem_key_pair [
        | none ↦ finalize c'
        | some pair ↦ third_opened (kem_decapsulate lib pair.secret_key blob) c'
      ]

  unfoldable pub third_read : Option Bytes → Channel → Channel
  unfolding third_split split_handshake_payload
  third_read none c = fail_channel c
  third_read (some payload) c = third_split (split_handshake_payload payload) c

  unfoldable pub on_third : Bytes → Channel → Channel
  unfolding third_read
  on_third message c =
      let (payload, hs) = read_message lib.noise message c.hs in
      third_read payload (record c { hs = hs })

  -- The `try` block of `onSignal`.
  unfoldable pub on_frame : Fresh → NoiseFrame → Channel → Option Bytes × Channel
  unfolding on_first on_second on_third
  on_frame fresh frame c = elim (lib.from_base64 frame.body) [
    | none ↦ (none, fail_channel c)
    | some message ↦
        if c.initiator && frame.step == 2
        then on_second fresh message c
        else (if not c.initiator && frame.step == 1
            then on_first fresh message c
            else (if not c.initiator && frame.step == 3
                then (none, on_third message c)
                else (none, c)))
  ]

  -- The channel that a frame goes to: a new one for a first message.
  abbrev pub channel_for : Fresh → String → ℕ → PeerChannels → Channel
  channel_for fresh peer_id step st = elim (lookup peer_id st.channels) [
    | none ↦ new_channel fresh peer_id st
    | some c ↦ if step == 1 then new_channel fresh peer_id st else c
  ]

  unfoldable pub on_signal : Fresh → String → NoiseFrame → PeerChannels → PeerChannels
  unfolding on_restart_request on_frame send_reply
  on_signal fresh from frame st =
      if not (frame.to == st.self_id)
      then st
      else (if frame.step == 0
          then on_restart_request fresh from st
          else (let (reply, c) = on_frame fresh frame (channel_for fresh from frame.step st) in
              send_reply from (frame.step + 1) reply (put from c st)))

-- ===== src/Client/PeerChannels/Exchanges.antt =====
-- Two peers that exchange the frames of a handshake, and the states on the way.
use quantum_bunker.Base.{◌≡◌, arith, true, false, [], ◌∷◌, Option, none, some, string_eq, nat_eq}
use quantum_bunker.Client.FileStream.{Bytes}
use quantum_bunker.Client.Noise.{HandshakeState}
use quantum_bunker.Client.ChannelBasics.{ChannelCrypto, Fresh, join_handshake_payload}
use quantum_bunker.Client.PeerChannels.{
  NoiseFrame, Channel, PeerChannels, put, send_noise, frame_of, ensure_channel, on_signal,
}
use quantum_bunker.Client.PeerChannels.Meeting.{blank_channel, first_state, ready_channel, root_of}
use quantum_bunker.Client.PeerChannels.Runs.{Run}

-- The frame that was sent last.
abbrev pub newest : PeerChannels → Option NoiseFrame
newest st = elim st.out [ [] ↦ none | (_, frame) ∷ _ ↦ some frame ]

-- `a` opens the channel, and the frames that are sent arrive in turn.
unfoldable pub connect :
    ChannelCrypto
    → (f₁ f₂ g₁ g₂ : Fresh) → (a b : PeerChannels) → Option (PeerChannels × PeerChannels)
connect lib f₁ f₂ g₁ g₂ a b =
    let a₁ = ensure_channel lib f₁ b.self_id a in
    elim (newest a₁) [
      | none ↦ none
      | some m₁ ↦
          let b₁ = on_signal lib g₁ a.self_id m₁ b in
          elim (newest b₁) [
            | none ↦ none
            | some m₂ ↦
                let a₂ = on_signal lib f₂ b.self_id m₂ a₁ in
                elim (newest a₂) [
                  | none ↦ none
                  | some m₃ ↦ some (a₂, on_signal lib g₂ a.self_id m₃ b₁)
                ]
          ]
    ]

pub connect_steps :
    (lib : ChannelCrypto) (f₁ f₂ g₁ g₂ : Fresh) (a b a₁ b₁ a₂ b₂ : PeerChannels)
    (m₁ m₂ m₃ : NoiseFrame)
    → ensure_channel lib f₁ b.self_id a ≡ a₁
    → newest a₁ ≡ some m₁
    → on_signal lib g₁ a.self_id m₁ b ≡ b₁
    → newest b₁ ≡ some m₂
    → on_signal lib f₂ b.self_id m₂ a₁ ≡ a₂
    → newest a₂ ≡ some m₃
    → on_signal lib g₂ a.self_id m₃ b₁ ≡ b₂
    → connect lib f₁ f₂ g₁ g₂ a b ≡ some (a₂, b₂)
unfolding connect
connect_steps lib f₁ f₂ g₁ g₂ a b a₁ b₁ a₂ b₂ m₁ m₂ m₃ e₁ n₁ e₂ n₂ e₃ n₃ e₄ =
    ground (arith, e₁, n₁, e₂, n₂, e₃, n₃, e₄)

-- The channel of the responder while it waits for the last message.
abbrev pub waiting_channel : Fresh → HandshakeState → Channel
waiting_channel g hs = record (blank_channel false g.dr_pair hs) { kem_key_pair = some g.kem_pair }

-- The channels once both secrets are there.
abbrev pub agreed_initiator : Fresh → HandshakeState → (remote secret : Bytes) → Channel
agreed_initiator f hs remote secret = record (blank_channel true f.dr_pair hs) {
  remote_dr_key = some remote;
  pq_secret = some secret;
}

abbrev pub agreed_responder : Fresh → HandshakeState → (remote secret : Bytes) → Channel
agreed_responder g hs remote secret = record (waiting_channel g hs) {
  remote_dr_key = some remote;
  pq_secret = some secret;
}

-- A handshake between `a` and `b`, with what the four operations draw at random.
abbrev pub RunBetween : ChannelCrypto → (f₁ f₂ g₁ : Fresh) → (a b : PeerChannels) → Type 0
RunBetween lib f₁ f₂ g₁ a b =
    Run lib.noise f₁.ephemeral_pair g₁.ephemeral_pair f₂.ephemeral_pair
      (join_handshake_payload g₁.dr_pair.public_key g₁.kem_pair.public_key)
      (join_handshake_payload f₁.dr_pair.public_key
        (lib.encapsulate f₂.coins g₁.kem_pair.public_key).0)
      (first_state lib true a.static_key a.session_id a.self_id b.self_id)
      (first_state lib false b.static_key b.session_id a.self_id b.self_id)

-- The states of the two sides on the way.
module _ (lib : ChannelCrypto) (f₁ f₂ g₁ : Fresh) (a b : PeerChannels)
    (run : RunBetween lib f₁ f₂ g₁ a b) where
  abbrev pub shared_secret : Bytes
  shared_secret = (lib.encapsulate f₂.coins g₁.kem_pair.public_key).1

  abbrev pub opened : PeerChannels
  opened =
      send_noise lib b.self_id (frame_of lib b.self_id 1 run.m₁)
        (put lib b.self_id (blank_channel true f₁.dr_pair run.i₁) a)

  abbrev pub answered : PeerChannels
  answered =
      send_noise lib a.self_id (frame_of lib a.self_id 2 run.m₂)
        (put lib a.self_id (waiting_channel g₁ run.r₂) b)

  abbrev pub ready_initiator : Channel
  ready_initiator =
      ready_channel lib (agreed_initiator f₁ run.i₃ g₁.dr_pair.public_key shared_secret)
        (root_of lib run.i₃ shared_secret) g₁.dr_pair.public_key

  abbrev pub ready_responder : Channel
  ready_responder =
      ready_channel lib (agreed_responder g₁ run.r₃ f₁.dr_pair.public_key shared_secret)
        (root_of lib run.r₃ shared_secret) f₁.dr_pair.public_key

  abbrev pub confirmed : PeerChannels
  confirmed =
      send_noise lib b.self_id (frame_of lib b.self_id 3 run.m₃)
        (put lib b.self_id ready_initiator opened)

  abbrev pub settled : PeerChannels
  settled = put lib a.self_id ready_responder answered

-- ===== src/Client/PeerChannels/Sessions.antt =====
-- Two peers that meet share a root, and understand each other.
use quantum_bunker.Base.{
  String, ◌≡◌, refl, sym, ap, subst, ◌∙◌, ◌<◌, arith, Bool, true, false, [], Option, some, ◌==◌,
  length, string_eq, nat_eq,
}
use quantum_bunker.Base.Dict.{lookup, has, lookup-insert_self}
use quantum_bunker.Shared.Text.{is_before, is_before_irrefl, is_before_asym}
use quantum_bunker.Client.FileStream.{Bytes}
use quantum_bunker.Client.Ratchet.{DrKeyPair, DrState, init_alice, init_bob}
use quantum_bunker.Client.Noise.{new_handshake}
use quantum_bunker.Client.Noise.Agreement.{Mirror}
use quantum_bunker.Client.Noise.Handshakes.{new_handshake-Mirror}
use quantum_bunker.Client.ChannelBasics.{
  KemKeyPair, ChannelCrypto, Fresh, safety_number_of, join_handshake_payload, kem_encapsulate,
  kem_decapsulate, combine_hybrid_secret, protocol_name, build_prologue,
}
use quantum_bunker.Client.PeerChannels.{
  Channel, PeerChannels, ready, frame_of, ensure_channel, ratchet_of, on_signal,
}
use quantum_bunker.Client.PeerChannels.Connecting.{split-join}
use quantum_bunker.Client.PeerChannels.Meeting.{
  ChannelWorks, blank_channel, first_state, meet_first, meet_second, root_of, meet_third,
  meet_fourth,
}
use quantum_bunker.Client.PeerChannels.Runs.{Run-of}
use quantum_bunker.Client.PeerChannels.Exchanges.{
  connect, connect_steps, waiting_channel, agreed_initiator, agreed_responder, RunBetween, opened,
  answered, ready_initiator, ready_responder, confirmed, settled,
}

module _ (lib : ChannelCrypto) (Genuine : DrKeyPair → Type 0) (GenuineKem : KemKeyPair → Type 0)
    (works : ChannelWorks lib Genuine GenuineKem) where
  -- Both sides are ready for each other: they have one root, and see one safety number.
  pub record Connected (a b : PeerChannels) (dr_a dr_b : DrKeyPair) (a' b' : PeerChannels)
      : Type 0 where
    pub root : Bytes
    pub c_a : Channel
    pub c_b : Channel
    pub there_a : lookup b.self_id a'.channels ≡ some c_a
    pub there_b : lookup a.self_id b'.channels ≡ some c_b
    pub ready_a : c_a.phase ≡ ready
    pub ready_b : c_b.phase ≡ ready
    pub ratchet_a : c_a.ratchet ≡ some (init_alice lib.dr root dr_a dr_b.public_key)
    pub ratchet_b : c_b.ratchet ≡ some (init_bob lib.dr root dr_b dr_a.public_key)
    pub same_number : c_a.safety_number ≡ c_b.safety_number
    pub static_a : c_a.remote_static_key ≡ some b.static_key.public_key
    pub static_b : c_b.remote_static_key ≡ some a.static_key.public_key
    pub same_self : (a'.self_id ≡ a.self_id) × (b'.self_id ≡ b.self_id)

  -- What one exchange draws at random is genuine.
  pub record GenuineFresh (f : Fresh) : Type 0 where
    pub dr_genuine : Genuine f.dr_pair
    pub ephemeral_genuine : Genuine f.ephemeral_pair
    pub kem_genuine : GenuineKem f.kem_pair

  abbrev Encapsulated : (coins : Bytes) → KemKeyPair → Type 0
  Encapsulated coins pair =
      (let (ciphertext, secret) = lib.encapsulate coins pair.public_key in
        (kem_encapsulate lib coins pair.public_key ≡ some (ciphertext, secret))
        × (kem_decapsulate lib pair.secret_key ciphertext ≡ some secret)
        × (0 < length pair.public_key)
        × (0 < length ciphertext))

  kem_both_ways : (coins : Bytes) (pair : KemKeyPair) → GenuineKem pair → Encapsulated coins pair
  unfolding kem_encapsulate kem_decapsulate
  kem_both_ways coins pair g =
      let (len, opens) = works.kem_agrees coins pair g in
      let public_len = works.kem_length pair g in
      (
        ground (arith, public_len),
        ground (arith, len, opens),
        omega (arith, public_len),
        omega (arith, len),
      )

  ratchet_of-initiator :
      (c : Channel) (root remote : Bytes)
      → c.initiator ≡ true
      → ◌≡◌ {A = Option DrState}
          (some (ratchet_of lib c root remote))
          (some (init_alice lib.dr root c.dr_key_pair remote))
  unfolding ratchet_of
  ratchet_of-initiator c root remote h = ground (arith, h)

  ratchet_of-responder :
      (c : Channel) (root remote : Bytes)
      → c.initiator ≡ false
      → ◌≡◌ {A = Option DrState}
          (some (ratchet_of lib c root remote))
          (some (init_bob lib.dr root c.dr_key_pair remote))
  unfolding ratchet_of
  ratchet_of-responder c root remote h = ground (arith, h)

  first_state_key :
      (initiator : Bool) (key : DrKeyPair) (session x y : String)
      → ◌≡◌ {A = Option Bytes}
          (some (first_state lib initiator key session x y).s.public_key)
          (some key.public_key)
  unfolding new_handshake
  first_state_key initiator key session x y = refl

  connect-Run :
      (f₁ f₂ g₁ g₂ : Fresh) (a b : PeerChannels)
      → GenuineFresh f₁
      → GenuineFresh g₁
      → has b.self_id a.channels ≡ false
      → is_before a.self_id b.self_id ≡ true
      → is_before b.self_id a.self_id ≡ false
      → (b.self_id == a.self_id) ≡ false
      → (run : RunBetween lib f₁ f₂ g₁ a b)
      → connect lib f₁ f₂ g₁ g₂ a b
        ≡ some (confirmed lib f₁ f₂ g₁ a b run, settled lib f₁ f₂ g₁ a b run)
  connect-Run f₁ f₂ g₁ g₂ a b gf gg new before after other run =
      let (ciphertext, secret) = lib.encapsulate f₂.coins g₁.kem_pair.public_key in
      let (seals, opens, long_key, long_text) = kem_both_ways f₂.coins g₁.kem_pair gg.kem_genuine in
      let key_a = f₁.dr_pair.public_key in
      let key_b = g₁.dr_pair.public_key in
      let blob = g₁.kem_pair.public_key in
      let noise = works.noise_works in
      let parts₂ =
        split-join lib key_b blob (noise.public_length g₁.dr_pair gg.dr_genuine) long_key in
      let parts₃ =
        split-join lib key_a ciphertext (noise.public_length f₁.dr_pair gf.dr_genuine) long_text in
      let a₁ = opened lib f₁ f₂ g₁ a b run in
      let b₁ = answered lib f₁ f₂ g₁ a b run in
      let a₂ = confirmed lib f₁ f₂ g₁ a b run in
      let b₂ = settled lib f₁ f₂ g₁ a b run in
      let e₁ : ensure_channel lib f₁ b.self_id a ≡ a₁ =
        meet_first lib f₁ b.self_id a run.m₁ run.i₁ other new before run.wrote₁ in
      let e₂ : on_signal lib g₁ a.self_id (frame_of lib b.self_id 1 run.m₁) b ≡ b₁ =
        meet_second lib g₁ a.self_id b run.m₁ run.m₂ [] run.r₁ run.r₂ (works.decodes run.m₁) after
          run.read₁ run.wrote₂ in
      let e₃ : on_signal lib f₂ b.self_id (frame_of lib a.self_id 2 run.m₂) a₁ ≡ a₂ =
        meet_third lib f₂ b.self_id a₁ run.m₂ run.m₃ key_b blob ciphertext secret f₁.dr_pair run.i₁
          run.i₂ run.i₃ (works.decodes run.m₂)
          (lookup-insert_self b.self_id (blank_channel true f₁.dr_pair run.i₁) a.channels) run.read₂
          parts₂ seals run.wrote₃ run.i_complete in
      let e₄ : on_signal lib g₂ a.self_id (frame_of lib b.self_id 3 run.m₃) b₁ ≡ b₂ =
        meet_fourth lib g₂ a.self_id b₁ run.m₃ key_a ciphertext secret g₁.dr_pair g₁.kem_pair run.r₂
          run.r₃ (works.decodes run.m₃)
          (lookup-insert_self a.self_id (waiting_channel g₁ run.r₂) b.channels) run.read₃ parts₃
          opens run.r_complete in
      connect_steps lib f₁ f₂ g₁ g₂ a b a₁ b₁ a₂ b₂ (frame_of lib b.self_id 1 run.m₁)
        (frame_of lib a.self_id 2 run.m₂) (frame_of lib b.self_id 3 run.m₃) e₁ refl e₂ refl e₃ refl
        e₄

  Run-Connected :
      (f₁ f₂ g₁ : Fresh) (a b : PeerChannels) (run : RunBetween lib f₁ f₂ g₁ a b)
      → Connected a b f₁.dr_pair g₁.dr_pair
          (confirmed lib f₁ f₂ g₁ a b run)
          (settled lib f₁ f₂ g₁ a b run)
  Run-Connected f₁ f₂ g₁ a b run =
      let (ciphertext, secret) = lib.encapsulate f₂.coins g₁.kem_pair.public_key in
      let key_a = f₁.dr_pair.public_key in
      let key_b = g₁.dr_pair.public_key in
      let c = ready_initiator lib f₁ f₂ g₁ a b run in
      let d = ready_responder lib f₁ f₂ g₁ a b run in
      record {
        root = root_of lib run.i₃ secret;
        c_a = c;
        c_b = d;
        there_a = lookup-insert_self b.self_id c (opened lib f₁ f₂ g₁ a b run).channels;
        there_b = lookup-insert_self a.self_id d (answered lib f₁ f₂ g₁ a b run).channels;
        ready_a = refl;
        ready_b = refl;
        ratchet_a =
            ratchet_of-initiator (agreed_initiator f₁ run.i₃ key_b secret)
              (root_of lib run.i₃ secret) key_b refl;
        ratchet_b =
            ratchet_of-responder (agreed_responder g₁ run.r₃ key_a secret)
              (root_of lib run.r₃ secret) key_a refl
            ∙ ap
                (λ ck.
                  some (init_bob lib.dr (combine_hybrid_secret lib ck secret) g₁.dr_pair key_a))
                (sym run.same_chain);
        same_number = ap (λ h. some (safety_number_of lib.noise.sha256 h)) run.same_hash;
        static_a =
            run.initiator_knows
            ∙ first_state_key false b.static_key b.session_id a.self_id b.self_id;
        static_b =
            run.responder_knows
            ∙ first_state_key true a.static_key a.session_id a.self_id b.self_id;
        same_self = (refl, refl);
      }

  pub connect-Connected :
      (f₁ f₂ g₁ g₂ : Fresh) (a b : PeerChannels)
      → GenuineFresh f₁
      → GenuineFresh f₂
      → GenuineFresh g₁
      → Genuine a.static_key
      → Genuine b.static_key
      → has b.self_id a.channels ≡ false
      → is_before a.self_id b.self_id ≡ true
      → a.session_id ≡ b.session_id
      → (a' : PeerChannels) × (b' : PeerChannels) × (connect lib f₁ f₂ g₁ g₂ a b ≡ some (a', b'))
        × Connected a b f₁.dr_pair g₁.dr_pair a' b'
  unfolding new_handshake
  connect-Connected f₁ f₂ g₁ g₂ a b gf₁ gf₂ gg ga gb new before session =
      let noise = works.noise_works in
      let sealed = lib.encapsulate f₂.coins g₁.kem_pair.public_key in
      let mirror =
        new_handshake-Mirror lib.noise Genuine noise a.static_key b.static_key
          (lib.utf8 protocol_name) (build_prologue lib.utf8 b.session_id a.self_id b.self_id) ga
          gb in
      let mirror' =
        subst
          (λ (s : String).
            Mirror lib.noise Genuine noise (first_state lib true a.static_key s a.self_id b.self_id)
              (first_state lib false b.static_key b.session_id a.self_id b.self_id))
          (sym session) mirror in
      let run =
        Run-of lib.noise Genuine noise f₁.ephemeral_pair g₁.ephemeral_pair f₂.ephemeral_pair
          (join_handshake_payload g₁.dr_pair.public_key g₁.kem_pair.public_key)
          (join_handshake_payload f₁.dr_pair.public_key sealed.0)
          (first_state lib true a.static_key a.session_id a.self_id b.self_id)
          (first_state lib false b.static_key b.session_id a.self_id b.self_id)
          gf₁.ephemeral_genuine gg.ephemeral_genuine gf₂.ephemeral_genuine mirror' refl refl in
      (
        _,
        _,
        connect-Run f₁ f₂ g₁ g₂ a b gf₁ gg new before (is_before_asym a.self_id b.self_id before)
            (ground (arith, is_before_irrefl a.self_id, before)) run,
        Run-Connected f₁ f₂ g₁ a b run,
      )

-- ===== src/Client/Noise/Handshakes.antt =====
-- A whole handshake: three messages, each written by one side and read by the other.
use quantum_bunker.Base.{
  ◌≡◌, inl, refl, sym, ap, ◌∙◌, arith, true, false, not, [], ◌∷◌, Option, none, some, get_elem?,
}
use quantum_bunker.Client.Ratchet.{DrKeyPair}
use quantum_bunker.Client.FileStream.{Bytes}
use quantum_bunker.Client.Noise.{
  NoiseCrypto, CipherState, SymmetricState, ephemeral, static, ee, es, se, HandshakeState,
  public_of, new_handshake, message_patterns, transport,
}
use quantum_bunker.Client.Noise.Agreement.{NoiseWorks, Mirror}
use quantum_bunker.Client.Noise.Writing.{write_first, write_second, write_third}
use quantum_bunker.Client.Noise.Deliveries.{deliver, Delivered, deliver-Delivered}

-- The three messages, with the payloads that the sides want to send.
unfoldable pub handshake :
    NoiseCrypto
    → (e_i e_r : DrKeyPair) → (p₁ p₂ p₃ : Bytes) → (i r : HandshakeState)
    → Option (Bytes × Bytes × Bytes × HandshakeState × HandshakeState)
handshake lib e_i e_r p₁ p₂ p₃ i r = elim (deliver lib e_i p₁ i r) [
  | none ↦ none
  | some (q₁, i₁, r₁) ↦ elim (deliver lib e_r p₂ r₁ i₁) [
    | none ↦ none
    | some (q₂, r₂, i₂) ↦ elim (deliver lib e_i p₃ i₂ r₂) [
      | none ↦ none
      | some (q₃, i₃, r₃) ↦ some (q₁, q₂, q₃, i₃, r₃)
    ]
  ]
]

module _ (lib : NoiseCrypto) (Genuine : DrKeyPair → Type 0) (works : NoiseWorks lib Genuine) where
  pub new_handshake-Mirror :
      (i_key r_key : DrKeyPair) (name prologue : Bytes)
      → Genuine i_key
      → Genuine r_key
      → Mirror lib Genuine works
          (new_handshake lib true i_key name prologue)
          (new_handshake lib false r_key name prologue)
  unfolding new_handshake
  new_handshake-Mirror i_key r_key name prologue gi gr = record {
    roles = refl;
    same_sym = refl;
    same_index = refl;
    same_ciphers = refl;
    re_b = refl;
    re_a = refl;
    rs_b = inl refl;
    rs_a = inl refl;
    genuine_s = (gi, gr);
    genuine_e = (tt, tt);
  }

  Mirror-sym : {a b : HandshakeState} → Mirror lib Genuine works a b → Mirror lib Genuine works b a
  Mirror-sym m = record {
    roles = ground (arith, m.roles);
    same_sym = sym m.same_sym;
    same_index = sym m.same_index;
    same_ciphers = sym m.same_ciphers;
    re_b = m.re_a;
    re_a = m.re_b;
    rs_b = m.rs_a;
    rs_a = m.rs_b;
    genuine_s = (m.genuine_s.1, m.genuine_s.0);
    genuine_e = (m.genuine_e.1, m.genuine_e.0);
  }

  transport_of :
      (i r : HandshakeState) (c₁ c₂ : CipherState)
      → i.is_initiator ≡ true
      → i.is_initiator ≡ not r.is_initiator
      → i.cipher_pair ≡ some (c₁, c₂)
      → i.cipher_pair ≡ r.cipher_pair
      → (transport i ≡ some (record { send = c₁; recv = c₂ }))
        × (transport r ≡ some (record { send = c₂; recv = c₁ }))
  unfolding transport
  transport_of i r c₁ c₂ role roles pair same = (ground arith, ground arith)

  -- Both sides are done and have the same secrets, and each knows the other's static key.
  pub record Agreed (i_key r_key : DrKeyPair) (i r : HandshakeState) : Type 0 where
    pub same_hash : i.sym.h ≡ r.sym.h
    pub same_chain : i.sym.ck ≡ r.sym.ck
    pub initiator_knows : i.rs ≡ some r_key.public_key
    pub responder_knows : r.rs ≡ some i_key.public_key
    pub channels :
        (c₁ : CipherState) × (c₂ : CipherState) × (transport i
          ≡ some (record { send = c₁; recv = c₂ }))
        × (transport r ≡ some (record { send = c₂; recv = c₁ }))

  pub first_message :
      (e_i : DrKeyPair) (p : Bytes) (i r : HandshakeState)
      → Genuine e_i
      → Mirror lib Genuine works i r
      → i.message_index ≡ 0
      → (i' : HandshakeState) × (r' : HandshakeState) × (deliver lib e_i p i r ≡ some (p, i', r'))
        × Delivered lib Genuine works false (some e_i) i r i' r'
  first_message e_i p i r g m index =
      deliver-Delivered lib Genuine works e_i p (ephemeral ∷ []) false (some e_i) i r g m
        (ap (λ n. get_elem? message_patterns n) index) tt (λ h. cc)
        (write_first lib Genuine works e_i i)

  pub second_message :
      (e_i e_r : DrKeyPair) (p : Bytes) (i₀ r₀ i r : HandshakeState)
      → Genuine e_i
      → Genuine e_r
      → i₀.message_index ≡ 0
      → i₀.is_initiator ≡ true
      → Delivered lib Genuine works false (some e_i) i₀ r₀ i r
      → (r' : HandshakeState) × (i' : HandshakeState) × (deliver lib e_r p r i ≡ some (p, r', i'))
        × Delivered lib Genuine works true (some e_r) r i r' i'
  second_message e_i e_r p i₀ r₀ i r gi gr index role f =
      let m = f.mirror in
      let next : r.message_index ≡ 1 = omega (arith, f.next, m.same_index, index) in
      let other : r.is_initiator ≡ false = ground (arith, m.roles, f.role, role) in
      let pattern = ap (λ n. get_elem? message_patterns n) next in
      deliver-Delivered lib Genuine works e_r p (ephemeral ∷ ee ∷ static ∷ es ∷ []) false (some e_r)
        r i gr (Mirror-sym m) pattern (refl, tt) (λ h. cc)
        (write_second lib Genuine works e_r e_i r gr gi m.genuine_s.1 other
          (m.re_b ∙ ap public_of f.writer_e))

  pub third_message :
      (e_i e_r : DrKeyPair) (p : Bytes) (r₁ i₁ r i : HandshakeState)
      → Genuine e_i
      → Genuine e_r
      → r₁.message_index ≡ 1
      → r₁.is_initiator ≡ false
      → Delivered lib Genuine works true (some e_r) r₁ i₁ r i
      → (i' : HandshakeState) × (r' : HandshakeState) × (deliver lib e_i p i r ≡ some (p, i', r'))
        × Delivered lib Genuine works true i.e i r i' r'
        × (i.message_index ≡ 2)
        × (i.is_initiator ≡ true)
  third_message e_i e_r p r₁ i₁ r i gi gr index role f =
      let m = f.mirror in
      let next : i.message_index ≡ 2 = omega (arith, f.next, m.same_index, index) in
      let other : i.is_initiator ≡ true = ground (arith, m.roles, f.role, role) in
      let pattern = ap (λ n. get_elem? message_patterns n) next in
      let (i', r', d, f') =
        deliver-Delivered lib Genuine works e_i p (static ∷ se ∷ []) false i.e i r gi (Mirror-sym m)
          pattern (refl, tt) (λ h. cc)
          (write_third lib Genuine works e_i e_r i gr m.genuine_s.1 other
            (m.re_b ∙ ap public_of f.writer_e)) in
      (i', r', d, f', next, other)

  abbrev public_key_of : DrKeyPair → Option Bytes
  public_key_of pair = some pair.public_key

  pub Agreed-of :
      (e_i e_r : DrKeyPair) (e : Option DrKeyPair) (i₀ r₀ i₁ r₁ i₂ r₂ i₃ r₃ : HandshakeState)
      → Delivered lib Genuine works false (some e_i) i₀ r₀ i₁ r₁
      → Delivered lib Genuine works true (some e_r) r₁ i₁ r₂ i₂
      → Delivered lib Genuine works true e i₂ r₂ i₃ r₃
      → i₂.message_index ≡ 2
      → i₂.is_initiator ≡ true
      → Agreed i₀.s r₀.s i₃ r₃
  Agreed-of e_i e_r e i₀ r₀ i₁ r₁ i₂ r₂ i₃ r₃ f₁ f₂ f₃ index role =
      let m = f₃.mirror in
      let (pair, done) = f₃.done index in
      let sides = transport_of i₃ r₃ pair.0 pair.1 (f₃.role ∙ role) m.roles done m.same_ciphers in
      record {
        same_hash = ap (λ (x : SymmetricState). x.h) m.same_sym;
        same_chain = ap (λ (x : SymmetricState). x.ck) m.same_sym;
        initiator_knows = f₃.writer_rs ∙ f₂.knows refl ∙ ap public_key_of f₁.reader_s;
        responder_knows = f₃.knows refl ∙ ap public_key_of (f₂.reader_s ∙ f₁.writer_s);
        channels = (pair.0, pair.1, sides.0, sides.1);
      }

  handshake_of :
      (e_i e_r : DrKeyPair) (p₁ p₂ p₃ : Bytes) (i₀ r₀ : HandshakeState)
      → Genuine e_i
      → Genuine e_r
      → Mirror lib Genuine works i₀ r₀
      → i₀.message_index ≡ 0
      → i₀.is_initiator ≡ true
      → (i : HandshakeState) × (r : HandshakeState) × (handshake lib e_i e_r p₁ p₂ p₃ i₀ r₀
          ≡ some (p₁, p₂, p₃, i, r))
        × Agreed i₀.s r₀.s i r
  unfolding handshake
  handshake_of e_i e_r p₁ p₂ p₃ i₀ r₀ gi gr m index role =
      let (i₁, r₁, d₁, f₁) = first_message e_i p₁ i₀ r₀ gi m index in
      let index₁ : r₁.message_index ≡ 1 = omega (arith, f₁.next, f₁.mirror.same_index, index) in
      let role₁ : r₁.is_initiator ≡ false = ground (arith, f₁.mirror.roles, f₁.role, role) in
      let (r₂, i₂, d₂, f₂) = second_message e_i e_r p₂ i₀ r₀ i₁ r₁ gi gr index role f₁ in
      let (i₃, r₃, d₃, f₃, index₂, role₂) =
        third_message e_i e_r p₃ r₁ i₁ r₂ i₂ gi gr index₁ role₁ f₂ in
      (
        i₃,
        r₃,
        ground (arith, d₁, d₂, d₃),
        Agreed-of e_i e_r i₂.e i₀ r₀ i₁ r₁ i₂ r₂ i₃ r₃ f₁ f₂ f₃ index₂ role₂,
      )

  -- Whatever the keys, the prologue and the payloads are: a handshake over three messages succeeds,
  -- each payload arrives as it was sent, and at the end both sides have the same hash and chaining
  -- key and mirrored ciphers, and each knows the other's static key, if the key pairs are genuine and
  -- the third-party functions keep their promises.
  pub handshake-Agreed :
      (i_key r_key e_i e_r : DrKeyPair) (name prologue p₁ p₂ p₃ : Bytes)
      → Genuine i_key
      → Genuine r_key
      → Genuine e_i
      → Genuine e_r
      → (i : HandshakeState) × (r : HandshakeState) × (handshake lib e_i e_r p₁ p₂ p₃
            (new_handshake lib true i_key name prologue)
            (new_handshake lib false r_key name prologue)
          ≡ some (p₁, p₂, p₃, i, r))
        × Agreed i_key r_key i r
  unfolding new_handshake
  handshake-Agreed i_key r_key e_i e_r name prologue p₁ p₂ p₃ gi gr ge_i ge_r =
      handshake_of e_i e_r p₁ p₂ p₃ _ _ ge_i ge_r
        (new_handshake-Mirror i_key r_key name prologue gi gr) refl refl

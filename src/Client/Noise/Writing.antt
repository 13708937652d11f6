-- ===== src/Client/Noise/Writing.antt =====
-- The side whose turn it is can write its message.
use quantum_bunker.Base.{
  ℕ, ◌+◌, ◌≡◌, ◌⊎◌, inl, inr, refl, arith, true, false, List, [], ◌∷◌, ◌++◌, Option, some,
  get_elem?,
}
use quantum_bunker.Client.Ratchet.{DrKeyPair}
use quantum_bunker.Client.FileStream.{Bytes}
use quantum_bunker.Client.Noise.{
  NoiseCrypto, CipherState, Token, ephemeral, static, ee, es, se, HandshakeState, token_secret,
  mix_key, encrypt_and_hash, split, advance, write_token, write_tokens, write_message,
  message_patterns,
}
use quantum_bunker.Client.Noise.Agreement.{NoiseWorks, mix_dh-some}

module _ (lib : NoiseCrypto) (Genuine : DrKeyPair → Type 0) (works : NoiseWorks lib Genuine) where
  -- The writer's state after it wrote, but for the hashes.
  pub record Wrote (i : ℕ) (a : HandshakeState) (e : Option DrKeyPair)
      (got : Option Bytes × HandshakeState) : Type 0 where
    pub written : (m : Bytes) × (got.0 ≡ some m)
    pub same_e : got.1.e ≡ e
    pub next : got.1.message_index ≡ i
    pub role : got.1.is_initiator ≡ a.is_initiator
    pub same_s : got.1.s ≡ a.s
    pub same_rs : got.1.rs ≡ a.rs

  pub write_message-Wrote :
      (fresh : DrKeyPair) (payload : Bytes) (tokens : List Token) (a : HandshakeState)
      (e : Option DrKeyPair)
      → get_elem? message_patterns a.message_index ≡ some tokens
      → Wrote a.message_index a e (write_tokens lib fresh tokens a)
      → Wrote (a.message_index + 1) a e (write_message lib fresh payload a)
  unfolding write_message advance
  write_message-Wrote fresh payload tokens a e pattern w =
      let (parts, there) = w.written in
      record {
        written = (
          parts ++ (encrypt_and_hash lib payload (write_tokens lib fresh tokens a).1.sym).0,
          ground (arith, pattern, there),
        );
        same_e = ground (arith, pattern, there, w.same_e);
        next = ground (arith, pattern, there, w.next);
        role = ground (arith, pattern, there, w.role);
        same_s = ground (arith, pattern, there, w.same_s);
        same_rs = ground (arith, pattern, there, w.same_rs);
      }

  -- The third message completes the handshake.
  pub write_message-done :
      (fresh : DrKeyPair) (payload : Bytes) (tokens : List Token) (a : HandshakeState)
      (e : Option DrKeyPair)
      → get_elem? message_patterns a.message_index ≡ some tokens
      → Wrote a.message_index a e (write_tokens lib fresh tokens a)
      → a.message_index ≡ 2
      → (pair : CipherState × CipherState) × ((write_message lib fresh payload a).1.cipher_pair
          ≡ some pair)
  unfolding write_message advance
  write_message-done fresh payload tokens a e pattern w last =
      let (parts, there) = w.written in
      (
        split lib (encrypt_and_hash lib payload (write_tokens lib fresh tokens a).1.sym).1,
        ground (arith, pattern, there, w.next, last),
      )

  Wrote-cons :
      {i : ℕ} {a₀ : HandshakeState} {e : Option DrKeyPair} (fresh : DrKeyPair) (t : Token)
      (ts : List Token) (a a' : HandshakeState) (part : Bytes)
      → write_token lib fresh t a ≡ (some part, a')
      → Wrote i a₀ e (write_tokens lib fresh ts a')
      → Wrote i a₀ e (write_tokens lib fresh (t ∷ ts) a)
  unfolding write_tokens
  Wrote-cons fresh t ts a a' part h w =
      let (parts, there) = w.written in
      let both : write_tokens lib fresh (t ∷ ts) a
          ≡ (some (part ++ parts), (write_tokens lib fresh ts a').1) =
        ground (arith, h, there) in
      rw both (record {
        written = (part ++ parts, refl);
        same_e = w.same_e;
        next = w.next;
        role = w.role;
        same_s = w.same_s;
        same_rs = w.same_rs;
      })

  write_token-dh :
      (fresh : DrKeyPair) (t : Token) (a : HandshakeState) (k : Bytes)
      → (t ≡ ee) ⊎ (t ≡ es) ⊎ (t ≡ se)
      → token_secret lib t a ≡ some k
      → write_token lib fresh t a ≡ (some [], record a { sym = mix_key lib k a.sym })
  unfolding write_token
  write_token-dh fresh ee a k dh h = rw (mix_dh-some lib Genuine works ee a k h) refl
  write_token-dh fresh es a k dh h = rw (mix_dh-some lib Genuine works es a k h) refl
  write_token-dh fresh se a k dh h = rw (mix_dh-some lib Genuine works se a k h) refl
  write_token-dh fresh ephemeral a k dh h = absurd (ground arith)
  write_token-dh fresh static a k dh h = absurd (ground arith)

  write_tokens-nil :
      (fresh : DrKeyPair) (a a₀ : HandshakeState) (e : Option DrKeyPair)
      → a.e ≡ e
      → a.message_index ≡ a₀.message_index
      → a.is_initiator ≡ a₀.is_initiator
      → a.s ≡ a₀.s
      → a.rs ≡ a₀.rs
      → Wrote a₀.message_index a₀ e (write_tokens lib fresh [] a)
  unfolding write_tokens
  write_tokens-nil fresh a a₀ e same_e index role same_s same_rs = record {
    written = ([], refl);
    same_e = same_e;
    next = index;
    role = role;
    same_s = same_s;
    same_rs = same_rs;
  }

  pub write_first :
      (fresh : DrKeyPair) (a : HandshakeState)
      → Wrote a.message_index a (some fresh) (write_tokens lib fresh (ephemeral ∷ []) a)
  unfolding write_token
  write_first fresh a =
      Wrote-cons fresh ephemeral [] a _ _ refl
        (write_tokens-nil fresh _ a _ refl refl refl refl refl)

  pub write_second :
      (fresh remote : DrKeyPair) (a : HandshakeState)
      → Genuine fresh
      → Genuine remote
      → Genuine a.s
      → a.is_initiator ≡ false
      → a.re ≡ some remote.public_key
      → Wrote a.message_index a
          (some fresh)
          (write_tokens lib fresh (ephemeral ∷ ee ∷ static ∷ es ∷ []) a)
  unfolding write_token
  write_second fresh remote a gf gr gs role re =
      let (k₁, there₁, _) = works.agrees fresh remote gf gr in
      let (k₂, there₂, _) = works.agrees a.s remote gs gr in
      let a₁ = (write_token lib fresh ephemeral a).1 in
      let a₂ = record a₁ { sym = mix_key lib k₁ a₁.sym } in
      let a₃ = (write_token lib fresh static a₂).1 in
      Wrote-cons fresh ephemeral _ a _ _ refl (
        Wrote-cons fresh ee _ a₁ _ _
          (write_token-dh fresh ee a₁ k₁ (inl refl) (ground (arith, re, there₁)))
          (Wrote-cons fresh static _ a₂ _ _ refl (
            Wrote-cons fresh es _ a₃ _ _
              (write_token-dh fresh es a₃ k₂ (inr (inl refl)) (ground (arith, re, role, there₂)))
              (write_tokens-nil fresh _ a _ refl refl refl refl refl))))

  pub write_third :
      (fresh remote : DrKeyPair) (a : HandshakeState)
      → Genuine remote
      → Genuine a.s
      → a.is_initiator ≡ true
      → a.re ≡ some remote.public_key
      → Wrote a.message_index a a.e (write_tokens lib fresh (static ∷ se ∷ []) a)
  unfolding write_token
  write_third fresh remote a gr gs role re =
      let (k, there, _) = works.agrees a.s remote gs gr in
      let a₁ = (write_token lib fresh static a).1 in
      Wrote-cons fresh static _ a _ _ refl (
        Wrote-cons fresh se _ a₁ _ _
          (write_token-dh fresh se a₁ k (inr (inr refl)) (ground (arith, re, role, there)))
          (write_tokens-nil fresh _ a _ refl refl refl refl refl))

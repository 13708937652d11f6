-- ===== src/Client/Noise/Agreement.antt =====
-- The two sides of a Noise handshake stay mirror images of each other.
use quantum_bunker.Base.{
  ◌+◌, ◌≡◌, ◌⊎◌, inl, inr, refl, sym, ◌∙◌, arith, true, not, Option, none, some, if◌then◌else◌,
  length, Option-cases,
}
use quantum_bunker.Client.Ratchet.{DrKeyPair}
use quantum_bunker.Client.FileStream.{Bytes}
use quantum_bunker.Client.Noise.{
  NoiseCrypto, dh_len, tag_length, nonce_bytes, SymmetricState, Token, ephemeral, static, ee, es,
  se, HandshakeState, public_of, has_key, encrypt_with_ad, decrypt_with_ad, mix_key,
  encrypt_and_hash, decrypt_and_hash, mix_dh, token_secret, agree,
}

-- What the third-party functions promise for the key pairs that they generate: public keys have 32
-- bytes, both sides of a key agreement get one secret, and what is sealed is 16 bytes longer and opens.
pub record NoiseWorks (lib : NoiseCrypto) (Genuine : DrKeyPair → Type 0) : Type 0 where
  pub public_length : (a : DrKeyPair) → Genuine a → length a.public_key ≡ dh_len
  pub agrees :
      (a b : DrKeyPair)
      → Genuine a
      → Genuine b
      → (k : Bytes) × (lib.shared_key a.secret_key b.public_key ≡ some k)
        × (lib.shared_key b.secret_key a.public_key ≡ some k)
  pub opens : (key n plain ad : Bytes) → lib.unseal key n (lib.seal key n plain ad) ad ≡ some plain
  pub seal_length :
      (key n plain ad : Bytes) → length (lib.seal key n plain ad) ≡ length plain + tag_length

module _ (lib : NoiseCrypto) (Genuine : DrKeyPair → Type 0) (works : NoiseWorks lib Genuine) where
  -- `b` knows of the key pair of the other side nothing but its public key.
  abbrev pub Known : Option Bytes → DrKeyPair → Type 0
  Known key pair = (key ≡ none) ⊎ (key ≡ some pair.public_key)

  abbrev pub GenuineIf : Option DrKeyPair → Type 0
  GenuineIf none = Unit {0}
  GenuineIf (some pair) = Genuine pair

  -- `a` and `b` are the two sides of one handshake, at the same point of it.
  pub record Mirror (a b : HandshakeState) : Type 0 where
    pub roles : a.is_initiator ≡ not b.is_initiator
    pub same_sym : a.sym ≡ b.sym
    pub same_index : a.message_index ≡ b.message_index
    pub same_ciphers : a.cipher_pair ≡ b.cipher_pair
    pub re_b : b.re ≡ public_of a.e
    pub re_a : a.re ≡ public_of b.e
    pub rs_b : Known b.rs a.s
    pub rs_a : Known a.rs b.s
    pub genuine_s : Genuine a.s × Genuine b.s
    pub genuine_e : GenuineIf a.e × GenuineIf b.e

  pub decrypt_and_hash-encrypt :
      (plain : Bytes) (s : SymmetricState)
      → decrypt_and_hash lib (encrypt_and_hash lib plain s).0 s
        ≡ (some plain, (encrypt_and_hash lib plain s).1)
  unfolding decrypt_and_hash encrypt_and_hash decrypt_with_ad encrypt_with_ad
  decrypt_and_hash-encrypt plain s = elim (Option-cases s.cipher.k) [
    | inl bare ↦ ground (arith, bare)
    | inr (k, keyed) ↦ ground (arith, keyed, works.opens k (nonce_bytes s.cipher.n) plain s.h)
  ]

  pub length-encrypt_and_hash :
      (plain : Bytes) (s : SymmetricState)
      → length (encrypt_and_hash lib plain s).0
        ≡ length plain + (if has_key s then tag_length else 0)
  unfolding encrypt_and_hash encrypt_with_ad
  length-encrypt_and_hash plain s = elim (Option-cases s.cipher.k) [
    | inl bare ↦ ground (arith, bare)
    | inr (k, keyed) ↦ ground (arith, keyed, works.seal_length k (nonce_bytes s.cipher.n) plain s.h)
  ]

  agree-public :
      (p q : Option DrKeyPair)
      → GenuineIf p
      → GenuineIf q
      → agree lib p (public_of q) ≡ agree lib q (public_of p)
  agree-public none none gp gq = refl
  agree-public none (some q) gp gq = refl
  agree-public (some p) none gp gq = refl
  agree-public (some p) (some q) gp gq =
      let (k, there, back) = works.agrees p q gp gq in there ∙ sym back

  -- The writer's static key has to be read before a token that uses it.
  abbrev pub Needs : Token → HandshakeState → HandshakeState → Type 0
  Needs es a b = b.rs ≡ some a.s.public_key
  Needs se a b = b.rs ≡ some a.s.public_key
  Needs ee a b = Unit {0}
  Needs ephemeral a b = Unit {0}
  Needs static a b = Unit {0}

  -- Both sides mix in the same secret.
  pub token_secret-eq :
      (t : Token) (a b : HandshakeState)
      → Mirror a b
      → Needs t a b
      → (k : Bytes) → token_secret lib t a ≡ some k
      → token_secret lib t b ≡ some k
  token_secret-eq ephemeral a b m needs k h = h
  token_secret-eq static a b m needs k h = h
  token_secret-eq ee a b m needs k h =
      ground (arith, m.re_a, m.re_b, agree-public a.e b.e m.genuine_e.0 m.genuine_e.1)
  token_secret-eq es a b m needs k h = ground (
    arith,
    m.roles,
    m.re_a,
    m.re_b,
    m.rs_a,
    agree-public a.e (some b.s) m.genuine_e.0 m.genuine_s.1,
    agree-public (some a.s) b.e m.genuine_s.0 m.genuine_e.1,
  )
  token_secret-eq se a b m needs k h = ground (
    arith,
    m.roles,
    m.re_a,
    m.re_b,
    m.rs_a,
    agree-public a.e (some b.s) m.genuine_e.0 m.genuine_s.1,
    agree-public (some a.s) b.e m.genuine_s.0 m.genuine_e.1,
  )

  pub mix_dh-some :
      (t : Token) (a : HandshakeState) (k : Bytes)
      → token_secret lib t a ≡ some k
      → mix_dh lib t a ≡ (true, record a { sym = mix_key lib k a.sym })
  unfolding mix_dh
  mix_dh-some t a k h = ground (arith, h)

  pub mix_dh-returned :
      (t : Token) (a : HandshakeState)
      → (mix_dh lib t a).0 ≡ true
      → (k : Bytes) × (token_secret lib t a ≡ some k)
  unfolding mix_dh
  mix_dh-returned t a h = elim (Option-cases (token_secret lib t a)) [
    | inl missing ↦ absurd (ground (arith, missing))
    | inr found ↦ found
  ]

-- ===== src/Client/Noise/Tokens.antt =====
-- What one side of a handshake writes for a token, the other reads.
use quantum_bunker.Base.{
  ℕ, ◌+◌, ◌≡◌, inr, refl, sym, ap, subst, arith, true, [], ◌++◌, Option, some, if◌then◌else◌,
  length, take, drop, take-append, drop-append,
}
use quantum_bunker.Client.Ratchet.{DrKeyPair}
use quantum_bunker.Client.FileStream.{Bytes}
use quantum_bunker.Client.Noise.{
  NoiseCrypto, dh_len, tag_length, Token, ephemeral, static, ee, es, se, HandshakeState, has_key,
  mix_key, mix_hash, encrypt_and_hash, mix_dh, write_token, read_static, read_token,
}
use quantum_bunker.Client.Noise.Agreement.{
  NoiseWorks, Mirror, Needs, decrypt_and_hash-encrypt, length-encrypt_and_hash, token_secret-eq,
  mix_dh-some, mix_dh-returned,
}

module _ (lib : NoiseCrypto) (Genuine : DrKeyPair → Type 0) (works : NoiseWorks lib Genuine) where
  -- What the reader knows of the writer's static key after a token.
  abbrev pub Learned : Token → (a b b' : HandshakeState) → Type 0
  Learned static a b b' = b'.rs ≡ some a.s.public_key
  Learned ephemeral a b b' = b'.rs ≡ b.rs
  Learned ee a b b' = b'.rs ≡ b.rs
  Learned es a b b' = b'.rs ≡ b.rs
  Learned se a b b' = b'.rs ≡ b.rs

  -- The reader got `got`, and the sides `a` and `b` have become `a'` and `b'`.
  pub record ReadBack (t : Token) (a b a' : HandshakeState) (rest : Bytes)
      (got : Option Bytes × HandshakeState) : Type 0 where
    pub opened : got.0 ≡ some rest
    pub mirror : Mirror lib Genuine works a' got.1
    pub learned : Learned t a b got.1
    pub same_s : a'.s ≡ a.s

  read_token-dh :
      (t : Token) (a b : HandshakeState)
      → Mirror lib Genuine works a b
      → Needs lib Genuine works t a b
      → (mix_dh lib t a).0 ≡ true
      → ((mix_dh lib t b).0 ≡ true)
        × Mirror lib Genuine works (mix_dh lib t a).1 (mix_dh lib t b).1
        × ((mix_dh lib t b).1.rs ≡ b.rs)
        × ((mix_dh lib t a).1.s ≡ a.s)
  read_token-dh t a b m needs h =
      let (k, there) = mix_dh-returned lib Genuine works t a h in
      let back = token_secret-eq lib Genuine works t a b m needs k there in
      rw (mix_dh-some lib Genuine works t a k there, mix_dh-some lib Genuine works t b k back)
        (
          refl,
          record {
            roles = m.roles;
            same_sym = ap (mix_key lib k) m.same_sym;
            same_index = m.same_index;
            same_ciphers = m.same_ciphers;
            re_b = m.re_b;
            re_a = m.re_a;
            rs_b = m.rs_b;
            rs_a = m.rs_a;
            genuine_s = m.genuine_s;
            genuine_e = m.genuine_e;
          },
          refl,
          refl,
        )

  take-key : (key rest : Bytes) → length key ≡ dh_len → take dh_len (key ++ rest) ≡ key
  take-key key rest h = subst (λ (n : ℕ). take n (key ++ rest) ≡ key) h (take-append key rest)

  drop-key : (key rest : Bytes) → length key ≡ dh_len → drop dh_len (key ++ rest) ≡ rest
  drop-key key rest h = subst (λ (n : ℕ). drop n (key ++ rest) ≡ rest) h (drop-append key rest)

  read_token-ephemeral :
      (fresh : DrKeyPair) (a b : HandshakeState) (rest : Bytes)
      → Genuine fresh
      → Mirror lib Genuine works a b
      → ReadBack ephemeral a b
          (write_token lib fresh ephemeral a).1
          rest
          (read_token lib ephemeral (fresh.public_key ++ rest) b)
  unfolding write_token read_token
  read_token-ephemeral fresh a b rest g m =
      let len = works.public_length fresh g in
      rw (take-key fresh.public_key rest len, drop-key fresh.public_key rest len)
        (record {
          opened = refl;
          mirror = record {
            roles = m.roles;
            same_sym = ap (mix_hash lib fresh.public_key) m.same_sym;
            same_index = m.same_index;
            same_ciphers = m.same_ciphers;
            re_b = refl;
            re_a = m.re_a;
            rs_b = m.rs_b;
            rs_a = m.rs_a;
            genuine_s = m.genuine_s;
            genuine_e = (g, m.genuine_e.1);
          };
          learned = refl;
          same_s = refl;
        })

  read_static-encrypt :
      (key rest : Bytes) (b : HandshakeState)
      → (let (part, sym) = encrypt_and_hash lib key b.sym in
          read_static lib (length part) (part ++ rest) b
          ≡ (some rest, record b { rs = some key; sym = sym }))
  unfolding read_static
  read_static-encrypt key rest b =
      let part = (encrypt_and_hash lib key b.sym).0 in
      let taken = take-append part rest in
      let dropped = drop-append part rest in
      let opened = decrypt_and_hash-encrypt lib Genuine works key b.sym in
      ground (arith, taken, dropped, opened)

  -- The sides after the writer's static key.
  read_token-static :
      (a b : HandshakeState) (rest : Bytes)
      → Mirror lib Genuine works a b
      → (let (part, sym) = encrypt_and_hash lib a.s.public_key a.sym in
          read_token lib static (part ++ rest) b
          ≡ (some rest, record b { rs = some a.s.public_key; sym = sym }))
  unfolding read_token
  read_token-static a b rest m =
      let key = a.s.public_key in
      let len : dh_len + (if has_key b.sym then tag_length else 0)
          ≡ length (encrypt_and_hash lib key b.sym).0 =
        ground (
          arith,
          length-encrypt_and_hash lib Genuine works key b.sym,
          works.public_length a.s m.genuine_s.0,
        ) in
      rw (m.same_sym, len) (read_static-encrypt key rest b)

  -- What is read for one token is what was written for it, and the rest of the message follows.
  pub read_token-write :
      (fresh : DrKeyPair) (t : Token) (a b : HandshakeState) (part rest : Bytes)
      → Genuine fresh
      → Mirror lib Genuine works a b
      → Needs lib Genuine works t a b
      → (write_token lib fresh t a).0 ≡ some part
      → ReadBack t a b (write_token lib fresh t a).1 rest (read_token lib t (part ++ rest) b)
  unfolding write_token read_token
  read_token-write fresh ephemeral a b part rest g m needs h =
      subst
        (λ p.
          ReadBack ephemeral a b (write_token lib fresh ephemeral a).1 rest
            (read_token lib ephemeral (p ++ rest) b))
        (ground (arith, h)) (read_token-ephemeral fresh a b rest g m)
  read_token-write fresh static a b part rest g m needs h =
      let after = (encrypt_and_hash lib a.s.public_key a.sym).1 in
      let written : (encrypt_and_hash lib a.s.public_key a.sym).0 ≡ part = ground (arith, h) in
      subst
        (λ p.
          ReadBack static a b (write_token lib fresh static a).1 rest
            (read_token lib static (p ++ rest) b))
        written
        (rw (read_token-static a b rest m) (record {
          opened = refl;
          mirror = record {
            roles = m.roles;
            same_sym = refl;
            same_index = m.same_index;
            same_ciphers = m.same_ciphers;
            re_b = m.re_b;
            re_a = m.re_a;
            rs_b = inr refl;
            rs_a = m.rs_a;
            genuine_s = m.genuine_s;
            genuine_e = m.genuine_e;
          };
          learned = refl;
          same_s = refl;
        }))
  read_token-write fresh ee a b part rest g m needs h =
      let (returned, mirror, same_rs, same_s) = read_token-dh ee a b m needs (ground (arith, h)) in
      let empty : part ≡ [] = ground (arith, h) in
      rw (empty, returned)
        (record { opened = refl; mirror = mirror; learned = same_rs; same_s = same_s })
  read_token-write fresh es a b part rest g m needs h =
      let (returned, mirror, same_rs, same_s) = read_token-dh es a b m needs (ground (arith, h)) in
      let empty : part ≡ [] = ground (arith, h) in
      rw (empty, returned)
        (record { opened = refl; mirror = mirror; learned = same_rs; same_s = same_s })
  read_token-write fresh se a b part rest g m needs h =
      let (returned, mirror, same_rs, same_s) = read_token-dh se a b m needs (ground (arith, h)) in
      let empty : part ≡ [] = ground (arith, h) in
      rw (empty, returned)
        (record { opened = refl; mirror = mirror; learned = same_rs; same_s = same_s })

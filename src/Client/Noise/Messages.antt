-- ===== src/Client/Noise/Messages.antt =====
-- What one side of a handshake writes as a message, the other reads.
use quantum_bunker.Base.{
  ℕ, ◌+◌, ◌≡◌, inl, inr, refl, sym, ap, subst, ◌∙◌, arith, Bool, true, List, [], ◌∷◌, ◌++◌, Option,
  some, Option-cases, get_elem?,
}
use mathlib.Core.List.{append_assoc}
use quantum_bunker.Client.Ratchet.{DrKeyPair}
use quantum_bunker.Client.FileStream.{Bytes}
use quantum_bunker.Client.Noise.{
  NoiseCrypto, SymmetricState, Token, ephemeral, static, ee, es, se, HandshakeState,
  encrypt_and_hash, decrypt_and_hash, advance, write_token, read_token, write_tokens, read_tokens,
  write_message, read_message, message_patterns,
}
use quantum_bunker.Client.Noise.Agreement.{NoiseWorks, Mirror, Needs, decrypt_and_hash-encrypt}
use quantum_bunker.Client.Noise.Tokens.{Learned, read_token-write}

module _ (lib : NoiseCrypto) (Genuine : DrKeyPair → Type 0) (works : NoiseWorks lib Genuine) where
  -- The static key stands before the tokens that use it.
  abbrev pub Ordered : Bool → List Token → Type 0
  Ordered known [] = Unit {0}
  Ordered known (ephemeral ∷ ts) = Ordered known ts
  Ordered known (static ∷ ts) = Ordered true ts
  Ordered known (ee ∷ ts) = Ordered known ts
  Ordered known (es ∷ ts) = (known ≡ true) × Ordered known ts
  Ordered known (se ∷ ts) = (known ≡ true) × Ordered known ts

  abbrev pub learns : Bool → List Token → Bool
  learns known [] = known
  learns known (static ∷ ts) = learns true ts
  learns known (ephemeral ∷ ts) = learns known ts
  learns known (ee ∷ ts) = learns known ts
  learns known (es ∷ ts) = learns known ts
  learns known (se ∷ ts) = learns known ts

  abbrev pub Knows : Bool → HandshakeState → HandshakeState → Type 0
  Knows known a b = known ≡ true → b.rs ≡ some a.s.public_key

  -- One token's step for the induction: the writer's part, what was read, and the facts afterwards.
  write_tokens-cons :
      (fresh : DrKeyPair) (t : Token) (ts : List Token) (a : HandshakeState) (bytes : Bytes)
      → (write_tokens lib fresh (t ∷ ts) a).0 ≡ some bytes
      → (part : Bytes) × (parts : Bytes) × ((write_token lib fresh t a).0 ≡ some part)
        × ((write_tokens lib fresh ts (write_token lib fresh t a).1).0 ≡ some parts)
        × (bytes ≡ part ++ parts)
        × ((write_tokens lib fresh (t ∷ ts) a).1
            ≡ (write_tokens lib fresh ts (write_token lib fresh t a).1).1)
  unfolding write_tokens
  write_tokens-cons fresh t ts a bytes h =
      let a' = (write_token lib fresh t a).1 in
      elim (Option-cases (write_token lib fresh t a).0) [
        | inl missing ↦ absurd (ground (arith, missing))
        | inr (part, there) ↦ elim (Option-cases (write_tokens lib fresh ts a').0) [
          | inl missing ↦ absurd (ground (arith, there, missing))
          | inr (parts, rest) ↦
              (part, parts, there, rest, ground (arith, there, rest), ground (arith, there, rest))
        ]
      ]

  read_tokens-cons :
      (t : Token) (ts : List Token) (message rest : Bytes) (b : HandshakeState)
      → (read_token lib t message b).0 ≡ some rest
      → read_tokens lib (t ∷ ts) message b ≡ read_tokens lib ts rest (read_token lib t message b).1
  unfolding read_tokens
  read_tokens-cons t ts message rest b h = ground (arith, h)

  -- The reader got the rest, and the two sides are mirror images again.
  pub record Met (known : Bool) (a a' : HandshakeState) (rest : Bytes)
      (got : Option Bytes × HandshakeState) : Type 0 where
    pub opened : got.0 ≡ some rest
    pub mirror : Mirror lib Genuine works a' got.1
    pub knows : Knows known a got.1
    pub same_s : a'.s ≡ a.s

  Needs-of :
      (known : Bool) (t : Token) (ts : List Token) (a b : HandshakeState)
      → Ordered known (t ∷ ts)
      → Knows known a b
      → Needs lib Genuine works t a b
  Needs-of known ephemeral ts a b o k = tt
  Needs-of known static ts a b o k = tt
  Needs-of known ee ts a b o k = tt
  Needs-of known es ts a b o k = k o.0
  Needs-of known se ts a b o k = k o.0

  abbrev then_knows : Bool → Token → Bool
  then_knows known t = learns known (t ∷ [])

  Ordered-tail :
      (known : Bool) (t : Token) (ts : List Token)
      → Ordered known (t ∷ ts)
      → Ordered (then_knows known t) ts
  Ordered-tail known ephemeral ts o = o
  Ordered-tail known static ts o = o
  Ordered-tail known ee ts o = o
  Ordered-tail known es ts o = o.1
  Ordered-tail known se ts o = o.1

  learns_tail :
      (known : Bool) (t : Token) (ts : List Token)
      → learns (then_knows known t) ts ≡ learns known (t ∷ ts)
  learns_tail known ephemeral ts = refl
  learns_tail known static ts = refl
  learns_tail known ee ts = refl
  learns_tail known es ts = refl
  learns_tail known se ts = refl

  Knows-tail :
      (known : Bool) (t : Token) (a b a' b' : HandshakeState)
      → Learned lib Genuine works t a b b'
      → a'.s ≡ a.s
      → Knows known a b
      → Knows (then_knows known t) a' b'
  Knows-tail known ephemeral a b a' b' l same k h = ground (arith, k h)
  Knows-tail known static a b a' b' l same k h = ground arith
  Knows-tail known ee a b a' b' l same k h = ground (arith, k h)
  Knows-tail known es a b a' b' l same k h = ground (arith, k h)
  Knows-tail known se a b a' b' l same k h = ground (arith, k h)

  Met-after :
      {known known' : Bool} {a a₁ a₂ a₃ : HandshakeState} {rest : Bytes}
      {got got' : Option Bytes × HandshakeState}
      → known' ≡ known
      → a₂ ≡ a₃
      → got ≡ got'
      → a₁.s ≡ a.s
      → Met known' a₁ a₃ rest got'
      → Met known a a₂ rest got
  Met-after e₁ e₂ e₃ same met =
      rw (← e₁, e₂, e₃)
        (record {
          opened = met.opened;
          mirror = met.mirror;
          knows = λ h. met.knows h ∙ ap (λ (p : DrKeyPair). some p.public_key) same;
          same_s = met.same_s ∙ same;
        })

  -- Whatever tokens one side writes, the other reads.
  read_tokens-write :
      (fresh : DrKeyPair) (ts : List Token) (known : Bool) (a b : HandshakeState)
      (bytes rest : Bytes)
      → Genuine fresh
      → Mirror lib Genuine works a b
      → Ordered known ts
      → Knows known a b
      → (write_tokens lib fresh ts a).0 ≡ some bytes
      → Met
          (learns known ts)
          a
          (write_tokens lib fresh ts a).1
          rest
          (read_tokens lib ts (bytes ++ rest) b)
  unfolding write_tokens read_tokens
  read_tokens-write fresh [] known a b bytes rest g m o k h =
      let empty : bytes ≡ [] = ground arith in
      rw empty (record { opened = refl; mirror = m; knows = k; same_s = refl })
  read_tokens-write fresh (t ∷ ts) known a b bytes rest g m o k h =
      let (part, parts, there, later, whole, after) = write_tokens-cons fresh t ts a bytes h in
      let read =
        read_token-write lib Genuine works fresh t a b part (parts ++ rest) g m
          (Needs-of known t ts a b o k) there in
      let b' = (read_token lib t (part ++ (parts ++ rest)) b).1 in
      let a' = (write_token lib fresh t a).1 in
      let met =
        read_tokens-write fresh ts (then_knows known t) a' b' parts rest g read.mirror
          (Ordered-tail known t ts o) (Knows-tail known t a b a' b' read.learned read.same_s k)
          later in
      Met-after (learns_tail known t ts) after
        (ap (λ m. read_tokens lib (t ∷ ts) m b)
            (ap (λ x. x ++ rest) whole ∙ append_assoc part parts rest)
          ∙ read_tokens-cons t ts (part ++ (parts ++ rest)) (parts ++ rest) b read.opened)
        read.same_s met

  advance-Mirror :
      (a b : HandshakeState) (sym : SymmetricState)
      → Mirror lib Genuine works a b
      → Mirror lib Genuine works
          (advance lib (record a { sym = sym }))
          (advance lib (record b { sym = sym }))
  unfolding advance
  advance-Mirror a b sym m = record {
    roles = m.roles;
    same_sym = refl;
    same_index = ap (λ (i : ℕ). i + 1) m.same_index;
    same_ciphers = rw (m.same_index, m.same_ciphers) refl;
    re_b = m.re_b;
    re_a = m.re_a;
    rs_b = m.rs_b;
    rs_a = m.rs_a;
    genuine_s = m.genuine_s;
    genuine_e = m.genuine_e;
  }

  advance_keeps : (a : HandshakeState) → ((advance lib a).s ≡ a.s) × ((advance lib a).rs ≡ a.rs)
  unfolding advance
  advance_keeps a = (refl, refl)

  write_message-some :
      (fresh : DrKeyPair) (payload : Bytes) (tokens : List Token) (a : HandshakeState)
      (message : Bytes)
      → get_elem? message_patterns a.message_index ≡ some tokens
      → (write_message lib fresh payload a).0 ≡ some message
      → (let a' = (write_tokens lib fresh tokens a).1 in
          let (sealed, after) = encrypt_and_hash lib payload a'.sym in
          (parts : Bytes) × ((write_tokens lib fresh tokens a).0 ≡ some parts)
          × (message ≡ parts ++ sealed)
          × ((write_message lib fresh payload a).1 ≡ advance lib (record a' { sym = after })))
  unfolding write_message
  write_message-some fresh payload tokens a message pattern h =
      elim (Option-cases (write_tokens lib fresh tokens a).0) [
        | inl missing ↦ absurd (ground (arith, pattern, missing))
        | inr (parts, there) ↦
            (parts, there, ground (arith, pattern, there), ground (arith, pattern, there))
      ]

  read_message-some :
      (payload : Bytes) (tokens : List Token) (b b' : HandshakeState) (message sealed : Bytes)
      (sym : SymmetricState)
      → get_elem? message_patterns b.message_index ≡ some tokens
      → read_tokens lib tokens message b ≡ (some sealed, b')
      → decrypt_and_hash lib sealed b'.sym ≡ (some payload, sym)
      → read_message lib message b ≡ (some payload, advance lib (record b' { sym = sym }))
  unfolding read_message
  read_message-some payload tokens b b' message sealed sym pattern h opened =
      ground (arith, pattern, h, opened)

  -- What one side writes, the other reads, and the two are mirror images again.
  pub read_message-write :
      (fresh : DrKeyPair) (payload : Bytes) (tokens : List Token) (known : Bool)
      (a b : HandshakeState) (message : Bytes)
      → Genuine fresh
      → Mirror lib Genuine works a b
      → get_elem? message_patterns a.message_index ≡ some tokens
      → Ordered known tokens
      → Knows known a b
      → (write_message lib fresh payload a).0 ≡ some message
      → Met
          (learns known tokens)
          a
          (write_message lib fresh payload a).1
          payload
          (read_message lib message b)
  read_message-write fresh payload tokens known a b message g m pattern o k h =
      let a' = (write_tokens lib fresh tokens a).1 in
      let sealed = (encrypt_and_hash lib payload a'.sym).0 in
      let after = (encrypt_and_hash lib payload a'.sym).1 in
      let (parts, there, whole, written) =
        write_message-some fresh payload tokens a message pattern h in
      let met = read_tokens-write fresh tokens known a b parts sealed g m o k there in
      let b' = (read_tokens lib tokens (parts ++ sealed) b).1 in
      let opened =
        subst (λ (s : SymmetricState). decrypt_and_hash lib sealed s ≡ (some payload, after))
          met.mirror.same_sym (decrypt_and_hash-encrypt lib Genuine works payload a'.sym) in
      let read =
        read_message-some payload tokens b b' (parts ++ sealed) sealed after
          (ap (λ i. get_elem? message_patterns i) (sym m.same_index) ∙ pattern)
          (ap (λ o. (o, b')) met.opened) opened in
      rw (whole, written, read)
        (record {
          opened = refl;
          mirror = advance-Mirror a' b' after met.mirror;
          knows = λ h. (advance_keeps (record b' { sym = after })).1 ∙ met.knows h;
          same_s = (advance_keeps (record a' { sym = after })).0 ∙ met.same_s;
        })

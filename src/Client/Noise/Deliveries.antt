-- ===== src/Client/Noise/Deliveries.antt =====
-- One message of a handshake, from the side that writes it to the side that reads it.
use quantum_bunker.Base.{
  ◌+◌, ◌≡◌, inl, inr, refl, arith, Bool, List, [], ◌∷◌, Option, none, some, Option-cases, get_elem?,
}
use quantum_bunker.Client.Ratchet.{DrKeyPair}
use quantum_bunker.Client.FileStream.{Bytes}
use quantum_bunker.Client.Noise.{
  NoiseCrypto, CipherState, Token, ephemeral, static, ee, es, se, HandshakeState, mix_dh, advance,
  write_tokens, write_message, read_message, message_patterns, read_static, read_token, read_tokens,
}
use quantum_bunker.Client.Noise.Agreement.{NoiseWorks, Mirror}
use quantum_bunker.Client.Noise.Messages.{Knows, Ordered, learns, read_message-write}
use quantum_bunker.Client.Noise.Writing.{Wrote, write_message-Wrote, write_message-done}

-- One message, from the side that writes it to the side that reads it.
unfoldable pub deliver :
    NoiseCrypto
    → DrKeyPair
    → Bytes
    → (a b : HandshakeState) → Option (Bytes × HandshakeState × HandshakeState)
deliver lib fresh payload a b =
    let (message, a') = write_message lib fresh payload a in
    elim message [
      | none ↦ none
      | some m ↦
          let (got, b') = read_message lib m b in
          elim got [ none ↦ none | some p ↦ some (p, a', b') ]
    ]

module _ (lib : NoiseCrypto) where
  read_token_keeps :
      (t : Token) (message : Bytes) (b : HandshakeState) → (read_token lib t message b).1.s ≡ b.s
  unfolding read_token read_static mix_dh
  read_token_keeps ephemeral message b = refl
  read_token_keeps static message b = ground arith
  read_token_keeps ee message b = ground arith
  read_token_keeps es message b = ground arith
  read_token_keeps se message b = ground arith

  read_tokens_keeps :
      (ts : List Token) (message : Bytes) (b : HandshakeState)
      → (read_tokens lib ts message b).1.s ≡ b.s
  unfolding read_tokens
  read_tokens_keeps [] message b = refl
  read_tokens_keeps (t ∷ ts) message b =
      let b' = (read_token lib t message b).1 in
      elim (Option-cases (read_token lib t message b).0) [
        | inl missing ↦ ground (arith, missing, read_token_keeps t message b)
        | inr (rest, there) ↦
            ground (arith, there, read_tokens_keeps ts rest b', read_token_keeps t message b)
      ]

  read_message_keeps :
      (message : Bytes) (b : HandshakeState) → (read_message lib message b).1.s ≡ b.s
  unfolding read_message advance
  read_message_keeps message b = elim (Option-cases (get_elem? message_patterns b.message_index)) [
    | inl missing ↦ ground (arith, missing)
    | inr (ts, there) ↦ ground (arith, there, read_tokens_keeps ts message b)
  ]

module _ (lib : NoiseCrypto) (Genuine : DrKeyPair → Type 0) (works : NoiseWorks lib Genuine) where
  -- The message arrived, and `a` and `b` have become `a'` and `b'`.
  pub record Delivered (learned : Bool) (e : Option DrKeyPair) (a b a' b' : HandshakeState)
      : Type 0 where
    pub mirror : Mirror lib Genuine works a' b'
    pub knows : Knows lib Genuine works learned a b'
    pub writer_e : a'.e ≡ e
    pub next : a'.message_index ≡ a.message_index + 1
    pub role : a'.is_initiator ≡ a.is_initiator
    pub writer_s : a'.s ≡ a.s
    pub writer_rs : a'.rs ≡ a.rs
    pub reader_s : b'.s ≡ b.s
    pub done :
        a.message_index ≡ 2 → (pair : CipherState × CipherState) × (a'.cipher_pair ≡ some pair)

  pub deliver-Delivered :
      (fresh : DrKeyPair) (payload : Bytes) (tokens : List Token) (known : Bool)
      (e : Option DrKeyPair) (a b : HandshakeState)
      → Genuine fresh
      → Mirror lib Genuine works a b
      → get_elem? message_patterns a.message_index ≡ some tokens
      → Ordered lib Genuine works known tokens
      → Knows lib Genuine works known a b
      → Wrote lib Genuine works a.message_index a e (write_tokens lib fresh tokens a)
      → (a' : HandshakeState) × (b' : HandshakeState) × (deliver lib fresh payload a b
          ≡ some (payload, a', b'))
        × Delivered (learns lib Genuine works known tokens) e a b a' b'
  unfolding deliver
  deliver-Delivered fresh payload tokens known e a b g m pattern o k w =
      let wrote = write_message-Wrote lib Genuine works fresh payload tokens a e pattern w in
      let (message, there) = wrote.written in
      let met =
        read_message-write lib Genuine works fresh payload tokens known a b message g m pattern o k
          there in
      let opened = met.opened in
      (
        (write_message lib fresh payload a).1,
        (read_message lib message b).1,
        ground (arith, there, opened),
        record {
          mirror = met.mirror;
          knows = met.knows;
          writer_e = wrote.same_e;
          next = wrote.next;
          role = wrote.role;
          writer_s = wrote.same_s;
          writer_rs = wrote.same_rs;
          reader_s = read_message_keeps lib message b;
          done = write_message-done lib Genuine works fresh payload tokens a e pattern w;
        },
      )

  -- What was written and read when a message arrived.
  pub deliver_parts :
      (fresh : DrKeyPair) (payload p : Bytes) (a b a' b' : HandshakeState)
      → deliver lib fresh payload a b ≡ some (p, a', b')
      → (m : Bytes) × (write_message lib fresh payload a ≡ (some m, a'))
        × (read_message lib m b ≡ (some p, b'))
  unfolding deliver
  deliver_parts fresh payload p a b a' b' h =
      elim (Option-cases (write_message lib fresh payload a).0) [
        | inl missing ↦ absurd (ground (arith, missing))
        | inr (m, there) ↦ elim (Option-cases (read_message lib m b).0) [
          | inl missing ↦ absurd (ground (arith, there, missing))
          | inr (q, got) ↦ (m, ground (arith, there, got), ground (arith, there, got))
        ]
      ]

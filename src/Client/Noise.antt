-- ===== src/Client/Noise.antt =====
-- src/crypto/noise-primitives.ts and noise-xx.ts: the Noise XX handshake. SHA-256, HKDF, X25519 and
-- ChaCha20-Poly1305 are parameters; fresh ephemeral keys are arguments. An operation that throws gives
-- no result and the state that it has come to, since the code changes its objects in place.
use quantum_bunker.Base.{
  ℕ, suc, ◌+◌, ◌-◌, Bool, true, false, List, [], ◌∷◌, ◌++◌, Option, none, some, leb, if◌then◌else◌,
  length, take, drop, replicate, get_elem?,
}
use quantum_bunker.Client.Ratchet.{DrKeyPair}
use quantum_bunker.Client.FileStream.{Bytes, le_bytes}
pub mod Agreement
pub mod Tokens
pub mod Messages
pub mod Writing
pub mod Deliveries
pub mod Handshakes

pub record NoiseCrypto : Type 0 where
  pub sha256 : Bytes → Bytes
  -- `hkdf(chainingKey, ikm, 2)`.
  pub hkdf : (ck ikm : Bytes) → Bytes × Bytes
  -- X25519, which throws on keys of a wrong length.
  pub shared_key : (secret public : Bytes) → Option Bytes
  pub seal : (key nonce plain ad : Bytes) → Bytes
  pub unseal : (key nonce sealed ad : Bytes) → Option Bytes

abbrev pub hash_len : ℕ
hash_len = 32

abbrev pub dh_len : ℕ
dh_len = 32

abbrev pub tag_length : ℕ
tag_length = 16

unfoldable pub nonce_bytes : ℕ → Bytes
unfolding le_bytes
nonce_bytes n = replicate 4 0 ++ le_bytes 8 n

pub record CipherState : Type 0 where
  pub k : Option Bytes
  pub n : ℕ

unfoldable pub initialize_key : Option Bytes → CipherState
initialize_key key = record { k = key; n = 0 }

pub record SymmetricState : Type 0 where
  pub ck : Bytes
  pub h : Bytes
  pub cipher : CipherState

abbrev pub has_key : SymmetricState → Bool
has_key s = elim s.cipher.k [ none ↦ false | some _ ↦ true ]

pub data Token : Type 0 where
  ephemeral static ee es se : Token

abbrev pub message_patterns : List (List Token)
message_patterns = (ephemeral ∷ []) ∷ (ephemeral ∷ ee ∷ static ∷ es ∷ []) ∷ (static ∷ se ∷ []) ∷ []

pub record HandshakeState : Type 0 where
  pub is_initiator : Bool
  pub sym : SymmetricState
  pub s : DrKeyPair
  pub e : Option DrKeyPair
  pub rs : Option Bytes
  pub re : Option Bytes
  pub message_index : ℕ
  pub cipher_pair : Option (CipherState × CipherState)

abbrev pub public_of : Option DrKeyPair → Option Bytes
public_of none = none
public_of (some pair) = some pair.public_key

abbrev pub is_complete : HandshakeState → Bool
is_complete hs = elim hs.cipher_pair [ none ↦ false | some _ ↦ true ]

module _ (lib : NoiseCrypto) where
  unfoldable pub encrypt_with_ad : (ad plain : Bytes) → CipherState → Bytes × CipherState
  unfolding nonce_bytes
  encrypt_with_ad ad plain c = elim c.k [
    | none ↦ (plain, c)
    | some k ↦ (lib.seal k (nonce_bytes c.n) plain ad, record c { n = c.n + 1 })
  ]

  unfoldable pub decrypt_with_ad : (ad sealed : Bytes) → CipherState → Option Bytes × CipherState
  unfolding nonce_bytes
  decrypt_with_ad ad sealed c = elim c.k [
    | none ↦ (some sealed, c)
    | some k ↦ elim (lib.unseal k (nonce_bytes c.n) sealed ad) [
      | none ↦ (none, c)
      | some opened ↦ (some opened, record c { n = c.n + 1 })
    ]
  ]

  unfoldable pub new_symmetric : (name : Bytes) → SymmetricState
  unfolding initialize_key
  new_symmetric name =
      let h =
        if leb (length name) hash_len
        then name ++ replicate (hash_len - length name) 0
        else lib.sha256 name in
      record { ck = h; h = h; cipher = initialize_key none }

  unfoldable pub mix_key : Bytes → SymmetricState → SymmetricState
  unfolding initialize_key
  mix_key ikm s =
      let (ck, temp_k) = lib.hkdf s.ck ikm in
      record s { ck = ck; cipher = initialize_key (some temp_k) }

  unfoldable pub mix_hash : Bytes → SymmetricState → SymmetricState
  mix_hash b s = record s { h = lib.sha256 (s.h ++ b) }

  unfoldable pub encrypt_and_hash : Bytes → SymmetricState → Bytes × SymmetricState
  unfolding encrypt_with_ad mix_hash
  encrypt_and_hash plain s =
      let (ciphertext, cipher) = encrypt_with_ad s.h plain s.cipher in
      (ciphertext, mix_hash ciphertext (record s { cipher = cipher }))

  unfoldable pub decrypt_and_hash : Bytes → SymmetricState → Option Bytes × SymmetricState
  unfolding decrypt_with_ad mix_hash
  decrypt_and_hash ciphertext s =
      let (plain, cipher) = decrypt_with_ad s.h ciphertext s.cipher in
      elim plain [
        | none ↦ (none, record s { cipher = cipher })
        | some p ↦ (some p, mix_hash ciphertext (record s { cipher = cipher }))
      ]

  unfoldable pub split : SymmetricState → CipherState × CipherState
  unfolding initialize_key
  split s = let (k₁, k₂) = lib.hkdf s.ck [] in (initialize_key (some k₁), initialize_key (some k₂))

  unfoldable pub new_handshake : Bool → DrKeyPair → (name prologue : Bytes) → HandshakeState
  unfolding new_symmetric mix_hash
  new_handshake is_initiator static_key name prologue = record {
    is_initiator = is_initiator;
    sym = mix_hash prologue (new_symmetric name);
    s = static_key;
    e = none;
    rs = none;
    re = none;
    message_index = 0;
    cipher_pair = none;
  }

  -- `sharedKey(own!.secretKey, remote!)`, which throws where either is missing.
  abbrev pub agree : Option DrKeyPair → Option Bytes → Option Bytes
  agree none remote = none
  agree (some own) none = none
  agree (some own) (some remote) = lib.shared_key own.secret_key remote

  -- The secret that a token of `mixDH` mixes in.
  abbrev pub token_secret : Token → HandshakeState → Option Bytes
  token_secret ee hs = agree hs.e hs.re
  token_secret es hs = if hs.is_initiator then agree hs.e hs.rs else agree (some hs.s) hs.re
  token_secret se hs = if hs.is_initiator then agree (some hs.s) hs.re else agree hs.e hs.rs
  token_secret ephemeral hs = some []
  token_secret static hs = some []

  -- `mixDH`: whether it returned, and the state.
  unfoldable pub mix_dh : Token → HandshakeState → Bool × HandshakeState
  unfolding mix_key
  mix_dh token hs = elim (token_secret token hs) [
    | none ↦ (false, hs)
    | some secret ↦ (true, record hs { sym = mix_key secret hs.sym })
  ]

  unfoldable pub advance : HandshakeState → HandshakeState
  unfolding split
  advance hs =
      let i = hs.message_index + 1 in
      record hs {
        message_index = i;
        cipher_pair =
            if leb (length message_patterns) i then some (split hs.sym) else hs.cipher_pair;
      }

  -- What `writeMessage` pushes for one token.
  unfoldable pub write_token : DrKeyPair → Token → HandshakeState → Option Bytes × HandshakeState
  unfolding mix_hash encrypt_and_hash mix_dh
  write_token fresh ephemeral hs =
      (some fresh.public_key, record hs { e = some fresh; sym = mix_hash fresh.public_key hs.sym })
  write_token fresh static hs =
      let (part, sym) = encrypt_and_hash hs.s.public_key hs.sym in
      (some part, record hs { sym = sym })
  write_token fresh token hs =
      let (returned, hs') = mix_dh token hs in (if returned then some [] else none, hs')

  unfoldable pub write_tokens :
      DrKeyPair → List Token → HandshakeState → Option Bytes × HandshakeState
  unfolding write_token
  write_tokens fresh [] hs = (some [], hs)
  write_tokens fresh (t ∷ ts) hs =
      let (part, hs') = write_token fresh t hs in
      let (parts, hs'') = write_tokens fresh ts hs' in
      elim part [
        | none ↦ (none, hs')
        | some b ↦ (elim parts [ none ↦ none | some bs ↦ some (b ++ bs) ], hs'')
      ]

  unfoldable pub write_message :
      DrKeyPair → (payload : Bytes) → HandshakeState → Option Bytes × HandshakeState
  unfolding write_tokens encrypt_and_hash advance
  write_message fresh payload hs = elim (get_elem? message_patterns hs.message_index) [
    | none ↦ (none, hs)
    | some tokens ↦
        let (parts, hs') = write_tokens fresh tokens hs in
        elim parts [
          | none ↦ (none, hs')
          | some bs ↦
              let (sealed, sym) = encrypt_and_hash payload hs'.sym in
              (some (bs ++ sealed), advance (record hs' { sym = sym }))
        ]
  ]

  -- The branch of `readMessage` for `s`, with the length of the sealed key.
  unfoldable pub read_static :
      ℕ → (message : Bytes) → HandshakeState → Option Bytes × HandshakeState
  unfolding decrypt_and_hash
  read_static len message hs =
      let (rs, sym) = decrypt_and_hash (take len message) hs.sym in
      elim rs [
        | none ↦ (none, record hs { sym = sym })
        | some key ↦ (some (drop len message), record hs { rs = some key; sym = sym })
      ]

  -- What `readMessage` does for one token: the rest of the message.
  unfoldable pub read_token :
      Token → (message : Bytes) → HandshakeState → Option Bytes × HandshakeState
  unfolding mix_hash read_static mix_dh
  read_token ephemeral message hs =
      let re = take dh_len message in
      (some (drop dh_len message), record hs { re = some re; sym = mix_hash re hs.sym })
  read_token static message hs =
      read_static (dh_len + (if has_key hs.sym then tag_length else 0)) message hs
  read_token token message hs =
      let (returned, hs') = mix_dh token hs in (if returned then some message else none, hs')

  unfoldable pub read_tokens :
      List Token → (message : Bytes) → HandshakeState → Option Bytes × HandshakeState
  unfolding read_token
  read_tokens [] message hs = (some message, hs)
  read_tokens (t ∷ ts) message hs =
      let (rest, hs') = read_token t message hs in
      elim rest [ none ↦ (none, hs') | some m ↦ read_tokens ts m hs' ]

  unfoldable pub read_message : (message : Bytes) → HandshakeState → Option Bytes × HandshakeState
  unfolding read_tokens decrypt_and_hash advance
  read_message message hs = elim (get_elem? message_patterns hs.message_index) [
    | none ↦ (none, hs)
    | some tokens ↦
        let (rest, hs') = read_tokens tokens message hs in
        elim rest [
          | none ↦ (none, hs')
          | some sealed ↦
              let (payload, sym) = decrypt_and_hash sealed hs'.sym in
              elim payload [
                | none ↦ (none, record hs' { sym = sym })
                | some p ↦ (some p, advance (record hs' { sym = sym }))
              ]
        ]
  ]

pub record Transport : Type 0 where
  pub send : CipherState
  pub recv : CipherState

-- None where the code throws NOISE_HANDSHAKE_INCOMPLETE.
unfoldable pub transport : HandshakeState → Option Transport
transport hs = elim hs.cipher_pair [
  | none ↦ none
  | some (c₁, c₂) ↦
      some (
        if hs.is_initiator
        then record { send = c₁; recv = c₂ }
        else record { send = c₂; recv = c₁ })
]

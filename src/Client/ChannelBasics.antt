-- ===== src/Client/ChannelBasics.antt =====
-- src/crypto/hybrid-kem.ts, and the texts and bytes of peer-channels.ts. ML-KEM, the UTF-8 codec and the
-- decoding of base64 are parameters; what the code draws at random is an argument.
use quantum_bunker.Base.{
  ℕ, zero, suc, ◌-◌, ◌*◌, ◌%◌, String, ◌<>◌, ◌++◌, Option, none, some, leb, ltb, if◌then◌else◌,
  ◌==◌, length, take, drop, nat_eq, string_eq,
}
use quantum_bunker.Base.Decimal.{decimal}
use quantum_bunker.Client.Padding.{read_uint32}
use quantum_bunker.Client.FileStream.{Bytes}
use quantum_bunker.Client.Ratchet.{DrKeyPair, RatchetCrypto}
use quantum_bunker.Client.Noise.{NoiseCrypto}

abbrev pub dr_key_bytes : ℕ
dr_key_bytes = 32

abbrev pub kem_public_key_bytes : ℕ
kem_public_key_bytes = 1184

abbrev pub kem_ciphertext_bytes : ℕ
kem_ciphertext_bytes = 1088

abbrev pub protocol_name : String
protocol_name = "Noise_XX_25519_ChaChaPoly_SHA256"

pub record KemKeyPair : Type 0 where
  pub public_key : Bytes
  pub secret_key : Bytes

pub record ChannelCrypto : Type 0 where
  pub noise : NoiseCrypto
  pub dr : RatchetCrypto
  -- `ml_kem768.encapsulate`, with its random coins: the ciphertext and the shared secret.
  pub encapsulate : (coins public : Bytes) → Bytes × Bytes
  pub decapsulate : (ciphertext secret : Bytes) → Bytes
  -- `new HKDF(SHA256, ikm, undefined, HYBRID_INFO).expand(32)`.
  pub expand_hybrid : Bytes → Bytes
  pub utf8 : String → Bytes
  pub from_utf8 : Bytes → String
  pub from_base64 : String → Option Bytes

-- What one operation may draw at random.
pub record Fresh : Type 0 where
  pub dr_pair : DrKeyPair
  pub ephemeral_pair : DrKeyPair
  pub kem_pair : KemKeyPair
  pub coins : Bytes

-- `s.padStart(width, '0')` for a text of `n` characters.
unfoldable pub zeros : ℕ → String
zeros zero = ""
zeros (suc n) = "0" <> zeros n

abbrev pub digit_count : ℕ → ℕ
digit_count n =
    if ltb n 10
    then 1
    else (if ltb n 100 then 2 else (if ltb n 1000 then 3 else (if ltb n 10000 then 4 else 5)))

unfoldable pub group_of : Bytes → ℕ → String
unfolding zeros read_uint32
group_of digest i =
    let n = read_uint32 (drop (i * 4) digest) % 100000 in zeros (5 - digit_count n) <> decimal n

unfoldable pub safety_number_of : (sha256 : Bytes → Bytes) → (handshake_hash : Bytes) → String
unfolding group_of
safety_number_of sha256 handshake_hash =
    let digest = sha256 handshake_hash in
    group_of digest 0
    <> (" "
        <> (group_of digest 1
            <> (" "
                <> (group_of digest 2
                    <> (" "
                        <> (group_of digest 3
                            <> (" " <> (group_of digest 4 <> (" " <> group_of digest 5)))))))))

unfoldable pub join_handshake_payload : (dr_key kem_blob : Bytes) → Bytes
join_handshake_payload dr_key kem_blob = dr_key ++ kem_blob

unfoldable pub split_handshake_payload : Bytes → Option (Bytes × Bytes)
split_handshake_payload payload =
    if leb (length payload) dr_key_bytes
    then none
    else some (take dr_key_bytes payload, drop dr_key_bytes payload)

unfoldable pub build_prologue :
    (utf8 : String → Bytes) → (session initiator responder : String) → Bytes
build_prologue utf8 session initiator responder =
    let field = λ (s : String). decimal (length (utf8 s)) <> (":" <> s) in
    utf8 (
      field protocol_name
      <> ("|" <> (field session <> ("|" <> (field initiator <> ("|" <> field responder))))))

module _ (lib : ChannelCrypto) where
  -- None where the code throws KEM_BAD_PUBLIC_KEY.
  unfoldable pub kem_encapsulate : (coins remote : Bytes) → Option (Bytes × Bytes)
  kem_encapsulate coins remote =
      if length remote == kem_public_key_bytes then some (lib.encapsulate coins remote) else none

  -- None where the code throws KEM_BAD_CIPHERTEXT.
  unfoldable pub kem_decapsulate : (secret ciphertext : Bytes) → Option Bytes
  kem_decapsulate secret ciphertext =
      if length ciphertext == kem_ciphertext_bytes
      then some (lib.decapsulate ciphertext secret)
      else none

  unfoldable pub combine_hybrid_secret : (classical pq : Bytes) → Bytes
  combine_hybrid_secret classical pq = lib.expand_hybrid (classical ++ pq)

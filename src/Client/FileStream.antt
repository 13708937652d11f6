-- ===== src/Client/FileStream.antt =====
-- src/crypto/file-stream.ts. ChaCha20-Poly1305, HKDF and base64 are parameters.
use quantum_bunker.Base.{
  ℕ, zero, suc, ◌+◌, ◌-◌, ◌*◌, ◌/◌, ◌%◌, String, Bool, true, false, not, ◌&&◌, ◌||◌, List, [], ◌∷◌,
  ◌++◌, Option, none, some, leb, ltb, if◌then◌else◌, ◌==◌, length, take, drop, replicate, nat_eq,
  string_eq,
}
use quantum_bunker.Limits.{file_chunk_bytes}
use quantum_bunker.Client.Padding.{uint32_bytes, read_uint32}
pub mod Frames
pub mod Transfer
pub mod Receiving

abbrev pub Bytes : Type 0
Bytes = List ℕ

pub record StreamCrypto : Type 0 where
  pub seal : (key nonce plain ad : Bytes) → Bytes
  pub unseal : (key nonce sealed ad : Bytes) → Option Bytes
  -- The first output of `hkdf(fileId, fileKey, 2)`.
  pub hkdf_first : (file_id file_key : Bytes) → Bytes
  pub to_base64 : Bytes → String
  pub from_base64 : String → Bytes

abbrev pub magic : ℕ
magic = 0x51424653

abbrev pub version : ℕ
version = 1

abbrev pub file_id_bytes : ℕ
file_id_bytes = 16

abbrev pub header_bytes : ℕ
header_bytes = 30

abbrev pub tag_bytes : ℕ
tag_bytes = 16

-- The fields that the transfer reads; `enc_size` is there when the bytes are a locked file's.
pub record FileStreamInit : Type 0 where
  pub file_id : String
  pub key : String
  pub size : ℕ
  pub chunks : ℕ
  pub locked : Bool
  pub enc_size : Option ℕ

unfoldable pub chunk_count : ℕ → ℕ
chunk_count size = if size == 0 then 0 else (size + (file_chunk_bytes - 1)) / file_chunk_bytes

-- The `k` bytes of a number, least significant first.
unfoldable pub le_bytes : (k n : ℕ) → Bytes
le_bytes zero n = []
le_bytes (suc k) n = (n % 256) ∷ le_bytes k (n / 256)

-- `nonce`: twelve bytes, the index in the last eight.
unfoldable pub nonce : ℕ → Bytes
unfolding le_bytes
nonce index = replicate 4 0 ++ le_bytes 8 index

unfoldable pub frame_header : Bytes → (index total : ℕ) → Bytes
frame_header file_id index total =
    uint32_bytes magic ++ (version ∷ (0 ∷ (uint32_bytes index ++ (uint32_bytes total ++ file_id))))

abbrev pub byte_at : ℕ → Bytes → ℕ
byte_at i bytes = elim (drop i bytes) [ [] ↦ 0 | b ∷ rest ↦ b ]

pub record ParsedFrame : Type 0 where
  pub file_id : Bytes
  pub index : ℕ
  pub total : ℕ
  pub header : Bytes
  pub ciphertext : Bytes

unfoldable pub parse_frame : Bytes → Option ParsedFrame
parse_frame frame =
    if ltb (length frame) (header_bytes + tag_bytes)
    then none
    else (if not (read_uint32 frame == magic) || not (byte_at 4 frame == version)
        then none
        else some (record {
          file_id = take file_id_bytes (drop 14 frame);
          index = read_uint32 (drop 6 frame);
          total = read_uint32 (drop 10 frame);
          header = take header_bytes frame;
          ciphertext = drop header_bytes frame;
        }))

-- `frameFileId`.
unfoldable pub frame_file_id : StreamCrypto → Bytes → Option String
unfolding parse_frame
frame_file_id lib frame = elim (parse_frame frame) [
  | none ↦ none
  | some p ↦ some (lib.to_base64 p.file_id)
]

-- `source.slice(start, end)` for the chunk at an index.
unfoldable pub chunk_at : ℕ → Bytes → Bytes
chunk_at index source = take file_chunk_bytes (drop (index * file_chunk_bytes) source)

unfoldable pub seal_chunk :
    StreamCrypto → (aead_key file_id : Bytes) → (index total : ℕ) → Bytes → Bytes
unfolding nonce frame_header
seal_chunk lib aead_key file_id index total plain =
    let header = frame_header file_id index total in
    header ++ lib.seal aead_key (nonce index) plain header

-- The loop of `frames`: `left` chunks from `index` on.
unfoldable pub frames_from :
    StreamCrypto → (aead_key file_id : Bytes) → (total : ℕ) → Bytes → (index left : ℕ) → List Bytes
unfolding seal_chunk chunk_at
frames_from lib aead_key file_id total source index zero = []
frames_from lib aead_key file_id total source index (suc left) =
    seal_chunk lib aead_key file_id index total (chunk_at index source)
    ∷ frames_from lib aead_key file_id total source (suc index) left

-- `createFileStream` without a lock, for the given random id and key.
unfoldable pub stream_init : StreamCrypto → (file_id file_key : Bytes) → Bytes → FileStreamInit
unfolding chunk_count
stream_init lib file_id file_key source = record {
  file_id = lib.to_base64 file_id;
  key = lib.to_base64 file_key;
  size = length source;
  chunks = chunk_count (length source);
  locked = false;
  enc_size = none;
}

unfoldable pub stream_frames : StreamCrypto → (file_id file_key : Bytes) → Bytes → List Bytes
unfolding chunk_count frames_from
stream_frames lib file_id file_key source =
    let total = chunk_count (length source) in
    frames_from lib (lib.hkdf_first file_id file_key) file_id total source 0 total

-- `parts` holds the decrypted chunks, in order.
pub record Receiver : Type 0 where
  pub parts : List Bytes
  pub next : ℕ
  pub received : ℕ
  pub failed : Bool
  pub complete : Bool

unfoldable pub new_receiver : FileStreamInit → Receiver
new_receiver init = record {
  parts = [];
  next = 0;
  received = 0;
  failed = false;
  complete = init.chunks == 0;
}

pub data Accepted : Type 0 where
  accepted stream_rejected stream_closed : Accepted

unfoldable pub fail : Receiver → Accepted × Receiver
fail r = (stream_rejected, record r { failed = true; parts = [] })

unfoldable pub take_part : FileStreamInit → Bytes → Receiver → Receiver
take_part init plain r = record r {
  parts = r.parts ++ plain ∷ [];
  next = r.next + 1;
  received = r.received + length plain;
  complete = if r.next + 1 == init.chunks then true else r.complete;
}

abbrev pub aead_key_of : StreamCrypto → FileStreamInit → Bytes
aead_key_of lib init = lib.hkdf_first (lib.from_base64 init.file_id) (lib.from_base64 init.key)

-- Past the checks of the header.
unfoldable pub open_frame :
    StreamCrypto → FileStreamInit → ParsedFrame → Receiver → Accepted × Receiver
unfolding nonce fail take_part
open_frame lib init p r =
    elim (lib.unseal (aead_key_of lib init) (nonce p.index) p.ciphertext p.header) [
      | none ↦ fail r
      | some plain ↦ (accepted, take_part init plain r)
    ]

abbrev pub is_expected : StreamCrypto → FileStreamInit → ParsedFrame → Receiver → Bool
is_expected lib init p r =
    p.total == init.chunks && (p.index == r.next && lib.to_base64 p.file_id == init.file_id)

-- `acceptFrame`.
unfoldable pub accept_frame : StreamCrypto → FileStreamInit → Bytes → Receiver → Accepted × Receiver
unfolding parse_frame open_frame fail
accept_frame lib init frame r =
    if r.failed || r.complete then (stream_closed, r) else elim (parse_frame frame) [
      | none ↦ fail r
      | some p ↦ if is_expected lib init p r then open_frame lib init p r else fail r
    ]

abbrev pub expected_bytes : FileStreamInit → ℕ
expected_bytes init =
    if init.locked then (elim init.enc_size [ none ↦ 0 | some n ↦ n ]) else init.size

pub data StreamResult : Type 0 where
  whole : Bytes → StreamResult
  rejected incomplete : StreamResult

abbrev pub concat_bytes : List Bytes → Bytes
concat_bytes [] = []
concat_bytes (p ∷ ps) = p ++ concat_bytes ps

-- `resultBytes`.
unfoldable pub result_bytes : FileStreamInit → Receiver → StreamResult
result_bytes init r =
    if r.failed
    then rejected
    else (if not r.complete || not (r.received == expected_bytes init)
        then incomplete
        else whole (concat_bytes r.parts))

-- A receiver that is fed frames one after the other.
unfoldable pub accept_all : StreamCrypto → FileStreamInit → List Bytes → Receiver → Receiver
unfolding accept_frame
accept_all lib init [] r = r
accept_all lib init (f ∷ fs) r = accept_all lib init fs (accept_frame lib init f r).1

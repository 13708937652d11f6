-- ===== src/Client/Padding.antt =====
-- src/crypto/message-padding.ts. A `Uint8Array` is a list of numbers below 256.
use quantum_bunker.Base.{
  ℕ, ◌+◌, ◌-◌, ◌*◌, ◌/◌, ◌%◌, ◌^◌, String, Bool, true, false, List, [], ◌∷◌, ◌++◌, leb, ltb,
  if◌then◌else◌, length, take, drop, replicate,
}
use quantum_bunker.Limits.{length_prefix_bytes, padding_buckets}
pub mod Sizes

-- `targetSize`: the first bucket that fits.
unfoldable pub first_fit : ℕ → List ℕ → ℕ
first_fit n [] = n
first_fit n (bucket ∷ buckets) = if leb n bucket then bucket else first_fit n buckets

unfoldable pub target_size : ℕ → ℕ
unfolding first_fit
target_size framed_length = first_fit framed_length padding_buckets

-- `setUint32(_, n, false)`: the four bytes, most significant first, of `n` modulo 2 ^ 32.
unfoldable pub uint32_bytes : ℕ → List ℕ
uint32_bytes n = (n / 16777216) % 256 ∷ ((n / 65536) % 256 ∷ ((n / 256) % 256 ∷ (n % 256 ∷ [])))

-- `getUint32(_, false)` of the first four bytes; more than four are not looked at.
unfoldable pub read_uint32 : List ℕ → ℕ
read_uint32 (a ∷ b ∷ c ∷ d ∷ rest) = ((a * 256 + b) * 256 + c) * 256 + d
read_uint32 _ = 0

unfoldable pub pad_plaintext : List ℕ → List ℕ
unfolding target_size uint32_bytes
pad_plaintext content =
    let framed_length = length_prefix_bytes + length content in
    uint32_bytes (length content)
    ++ (content ++ replicate (target_size framed_length - framed_length) 0)

pub data Unpadded : Type 0 where
  unpadded : List ℕ → Unpadded
  header_truncated length_out_of_range : Unpadded

unfoldable pub unpad_plaintext : List ℕ → Unpadded
unfolding read_uint32
unpad_plaintext padded =
    let end = length_prefix_bytes + read_uint32 padded in
    if ltb (length padded) length_prefix_bytes
    then header_truncated
    else (if ltb (length padded) end
        then length_out_of_range
        else unpadded (take (end - length_prefix_bytes) (drop length_prefix_bytes padded)))

-- ===== src/Client/Padding/Sizes.antt =====
-- Padding loses nothing and leaves only a few sizes.
use quantum_bunker.Base.{
  ℕ, ◌+◌, ◌-◌, ◌≤◌, ◌<◌, ◌≡◌, arith, List, [], ◌∷◌, ◌++◌, ltb, length, take, drop, replicate,
  length-append, length-replicate, take-append, ◌⊎◌, inl, inr, Bool-cases, length-take, length-drop,
}
use quantum_bunker.Limits.{padding_buckets}
use quantum_bunker.Client.Padding.{
  first_fit, target_size, uint32_bytes, read_uint32, pad_plaintext, unpadded, header_truncated,
  length_out_of_range, unpad_plaintext,
}

read_uint32-bytes :
    (n : ℕ) (rest : List ℕ) → n < 4294967296 → read_uint32 (uint32_bytes n ++ rest) ≡ n
unfolding uint32_bytes read_uint32
read_uint32-bytes n rest lt = omega arith

first_fit-le : (n : ℕ) (buckets : List ℕ) → n ≤ first_fit n buckets
unfolding first_fit
first_fit-le n [] = omega arith
first_fit-le n (b ∷ buckets) = ground (arith, first_fit-le n buckets)

pub length-pad_plaintext :
    (content : List ℕ) → length (pad_plaintext content) ≡ target_size (4 + length content)
unfolding pad_plaintext uint32_bytes target_size
length-pad_plaintext content =
    let n = 4 + length content in
    omega (
      arith,
      length-append {0} content (replicate (target_size n - n) 0),
      length-replicate {A = ℕ} (target_size n - n) 0,
      first_fit-le n padding_buckets,
    )

-- What was padded is unpadded to what it was, for any content below 4 GB.
pub unpad_plaintext-pad :
    (content : List ℕ)
    → length content < 4294967296
    → unpad_plaintext (pad_plaintext content) ≡ unpadded content
unfolding unpad_plaintext
unpad_plaintext-pad content lt =
    let n = length content in
    let filler : List ℕ = replicate (target_size (4 + n) - (4 + n)) 0 in
    let size = length-pad_plaintext content in
    let read : read_uint32 (pad_plaintext content) ≡ n =
      unfold pad_plaintext in read_uint32-bytes n (content ++ filler) lt in
    let body : take n (drop 4 (pad_plaintext content)) ≡ content =
      unfold pad_plaintext uint32_bytes in take-append content filler in
    let fits : 4 + n ≤ target_size (4 + n) =
      unfold target_size in first_fit-le (4 + n) padding_buckets in
    ground (arith, size, read, fits, body)

-- The padded size of a content is one of the four buckets, the least one that fits, or, past all of
-- them, the framed length; so two contents that fit the same bucket cannot be told apart by size.
pub length-pad_plaintext_buckets :
    (content : List ℕ)
    → let n = 4 + length content in
      let size = length (pad_plaintext content) in
      (n ≤ 8192 → size ≡ 8192)
      × (8192 < n → n ≤ 65536 → size ≡ 65536)
      × (65536 < n → n ≤ 524288 → size ≡ 524288)
      × (524288 < n → n ≤ 4194304 → size ≡ 4194304)
      × (4194304 < n → size ≡ n)
unfolding target_size first_fit
length-pad_plaintext_buckets content =
    let size = length-pad_plaintext content in
    (
      λ a. ground (arith, size),
      λ a b. ground (arith, size),
      λ a b. ground (arith, size),
      λ a b. ground (arith, size),
      λ a. ground (arith, size),
    )

-- Unpadding fails exactly when the header is cut off or records more than there is; else it returns as
-- many bytes as the header records.
unpad_plaintext_outcome :
    (padded : List ℕ)
    → ((unpad_plaintext padded ≡ header_truncated) × (length padded < 4))
      ⊎ ((unpad_plaintext padded ≡ length_out_of_range)
          × (4 ≤ length padded)
          × (length padded < 4 + read_uint32 padded))
      ⊎ ((content : List ℕ) × (unpad_plaintext padded ≡ unpadded content)
          × (length content ≡ read_uint32 padded)
          × (4 + length content ≤ length padded))
unfolding unpad_plaintext
unpad_plaintext_outcome padded = elim (Bool-cases (ltb (length padded) 4)) [
  | inl cut ↦ inl (ground (arith, cut))
  | inr whole ↦ elim (Bool-cases (ltb (length padded) (4 + read_uint32 padded))) [
    | inl over ↦ inr (inl (ground (arith, whole, over)))
    | inr fits ↦
        let n = read_uint32 padded in
        let content = take n (drop 4 padded) in
        let measured : length content ≡ n =
          ground (arith, fits, length-take {0} n (drop 4 padded), length-drop {0} 4 padded) in
        inr (inr (content, ground (arith, whole, fits), measured, ground (arith, fits, measured)))
  ]
]

-- ===== src/Client/FileStream/Frames.antt =====
-- A frame is parsed to what it was built from.
use quantum_bunker.Base.{
  ℕ, ◌≤◌, ◌<◌, ◌≡◌, refl, subst, arith, ◌∷◌, ◌++◌, some, length, take, drop, take-append,
  drop-append, length-append, nat_eq,
}
use quantum_bunker.Client.Padding.{uint32_bytes, read_uint32}
use quantum_bunker.Client.FileStream.{Bytes, frame_header, parse_frame, magic, version}

pub length-frame_header :
    (fid : Bytes) (index total : ℕ) → length fid ≡ 16 → length (frame_header fid index total) ≡ 30
unfolding frame_header uint32_bytes
length-frame_header fid index total h = omega arith

-- A frame that was built for a file id of 16 bytes, an index and a total below 2 ^ 32, and a ciphertext
-- that is at least as long as a tag, is parsed to just these, with its header.
pub parse_frame-header :
    (fid : Bytes) (index total : ℕ) (ciphertext : Bytes)
    → length fid ≡ 16
    → index < 4294967296
    → total < 4294967296
    → 16 ≤ length ciphertext
    → parse_frame (frame_header fid index total ++ ciphertext)
      ≡ some (record {
        file_id = fid;
        index = index;
        total = total;
        header = frame_header fid index total;
        ciphertext = ciphertext;
      })
unfolding parse_frame
parse_frame-header fid index total ciphertext h li lt lc =
    let header = frame_header fid index total in
    let frame = header ++ ciphertext in
    let size = length-frame_header fid index total h in
    let long = length-append header ciphertext in
    let m : read_uint32 frame ≡ magic = unfold frame_header uint32_bytes read_uint32 in refl in
    let i : read_uint32 (drop 6 frame) ≡ index =
      unfold frame_header uint32_bytes read_uint32 in omega arith in
    let t : read_uint32 (drop 10 frame) ≡ total =
      unfold frame_header uint32_bytes read_uint32 in omega arith in
    let v : drop 4 frame ≡ version ∷ drop 5 frame = unfold frame_header uint32_bytes in refl in
    let f : take 16 (drop 14 frame) ≡ fid =
      unfold frame_header uint32_bytes in
      subst (λ n. take n (fid ++ ciphertext) ≡ fid) h (take-append fid ciphertext) in
    let hd : take 30 frame ≡ header =
      subst (λ n. take n frame ≡ header) size (take-append header ciphertext) in
    let ct : drop 30 frame ≡ ciphertext =
      subst (λ n. drop n frame ≡ ciphertext) size (drop-append header ciphertext) in
    ground (arith, size, long, m, i, t, v, f, hd, ct)

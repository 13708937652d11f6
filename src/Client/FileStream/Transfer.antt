-- ===== src/Client/FileStream/Transfer.antt =====
-- A file that is sent whole arrives as it was.
use quantum_bunker.Base.{
  ℕ, zero, suc, ◌+◌, ◌*◌, ◌≤◌, ◌<◌, ◌≡◌, refl, ap, sym, ◌∙◌, subst, arith, false, List, [], ◌∷◌,
  ◌++◌, some, length, take, drop, length-append, nat_eq, string_eq, ◌==◌,
}
use mathlib.Core.List.{append_assoc, append-nil}
use quantum_bunker.Limits.{file_chunk_bytes}
use quantum_bunker.Client.FileStream.{
  Bytes, StreamCrypto, FileStreamInit, chunk_count, nonce, frame_header, chunk_at, seal_chunk,
  frames_from, stream_init, stream_frames, Receiver, new_receiver, accepted, take_part, aead_key_of,
  open_frame, accept_frame, whole, concat_bytes, result_bytes, accept_all, expected_bytes,
}
use quantum_bunker.Client.FileStream.Frames.{parse_frame-header}

-- What the third-party functions promise: a sealed chunk opens with the same key, nonce and header and
-- holds at least a tag, and base64 can be decoded.
pub record CryptoWorks (lib : StreamCrypto) : Type 0 where
  pub opens : (key n plain ad : Bytes) → lib.unseal key n (lib.seal key n plain ad) ad ≡ some plain
  pub tagged : (key n plain ad : Bytes) → 16 ≤ length (lib.seal key n plain ad)
  pub decodes : (b : Bytes) → lib.from_base64 (lib.to_base64 b) ≡ b

take-nil : (n : ℕ) → ◌≡◌ {A = Bytes} (take n []) []
take-nil zero = refl
take-nil (suc n) = refl

take-take-drop : (m n : ℕ) (xs : Bytes) → take m xs ++ take n (drop m xs) ≡ take (m + n) xs
take-take-drop zero n xs = ap (λ k. take k xs) (omega arith)
take-take-drop (suc m) zero [] = sym (take-nil (suc m + 0))
take-take-drop (suc m) (suc n) [] = sym (take-nil (suc m + suc n))
take-take-drop (suc m) n (x ∷ xs) =
    ap (λ l. x ∷ l) (take-take-drop m n xs)
    ∙ ap (λ k. take k (x ∷ xs)) (let e : suc (m + n) ≡ suc m + n = omega arith in e)

take_all : (n : ℕ) (xs : Bytes) → length xs ≤ n → take n xs ≡ xs
take_all zero [] le = refl
take_all (suc n) [] le = refl
take_all (suc n) (x ∷ xs) le = ap (λ l. x ∷ l) (take_all n xs (omega arith))
take_all zero (x ∷ xs) le = absurd (omega arith)

pub concat_bytes-append :
    (ps : List Bytes) (p : Bytes) → concat_bytes (ps ++ p ∷ []) ≡ concat_bytes ps ++ p
concat_bytes-append [] p = append-nil p
concat_bytes-append (q ∷ ps) p =
    ap (λ l. q ++ l) (concat_bytes-append ps p) ∙ sym (append_assoc q (concat_bytes ps) p)

module _ (lib : StreamCrypto) (works : CryptoWorks lib) (init : FileStreamInit) (fid source : Bytes)
    (sized : length fid ≡ 16) (named : init.file_id ≡ lib.to_base64 fid)
    (small : init.chunks < 4294967296) where
  accept_frame-seal :
      (plain : Bytes) (r : Receiver)
      → r.failed ≡ false
      → r.complete ≡ false
      → r.next < 4294967296
      → accept_frame lib init (seal_chunk lib (aead_key_of lib init) fid r.next init.chunks plain) r
        ≡ (accepted, take_part init plain r)
  unfolding accept_frame open_frame seal_chunk
  accept_frame-seal plain r going ongoing lt =
      let key = aead_key_of lib init in
      let header = frame_header fid r.next init.chunks in
      let sealed = lib.seal key (nonce r.next) plain header in
      let parsed =
        parse_frame-header fid r.next init.chunks sealed sized lt small
          (works.tagged key (nonce r.next) plain header) in
      let opened = works.opens key (nonce r.next) plain header in
      ground (arith, going, ongoing, parsed, opened, named)

  -- After the chunks before `i`.
  record Progress (i : ℕ) (r : Receiver) : Type 0 where
    so_far : concat_bytes r.parts ≡ take (i * file_chunk_bytes) source
    at : r.next ≡ i
    counted : r.received ≡ length (concat_bytes r.parts)
    going : r.failed ≡ false
    ends : r.complete ≡ (i == init.chunks)

  take_part-Progress :
      (i : ℕ) (r : Receiver)
      → i < init.chunks
      → Progress i r
      → Progress (suc i) (take_part init (chunk_at i source) r)
  unfolding take_part chunk_at
  take_part-Progress i r lt pr =
      let chunk = take file_chunk_bytes (drop (i * file_chunk_bytes) source) in
      let so_far = pr.so_far in
      let at = pr.at in
      let counted = pr.counted in
      let ends = pr.ends in
      let joined = concat_bytes-append r.parts chunk in
      let more : concat_bytes r.parts ++ chunk ≡ take (suc i * file_chunk_bytes) source =
        ap (λ l. l ++ chunk) so_far
        ∙ take-take-drop (i * file_chunk_bytes) file_chunk_bytes source
        ∙ ap (λ n. take n source) (omega arith) in
      record {
        so_far = joined ∙ more;
        at = omega (arith, at);
        counted = ground (arith, counted, joined, length-append (concat_bytes r.parts) chunk);
        going = pr.going;
        ends = ground (arith, at, ends);
      }

  accept_all-next :
      (f : Bytes) (fs : List Bytes) (r r' : Receiver)
      → (accept_frame lib init f r).1 ≡ r'
      → accept_all lib init (f ∷ fs) r ≡ accept_all lib init fs r'
  unfolding accept_all
  accept_all-next f fs r r' e = ap (accept_all lib init fs) e

  accept_all-Progress :
      (left i : ℕ) (r : Receiver)
      → i + left ≡ init.chunks
      → Progress i r
      → Progress init.chunks (
          accept_all lib init
            (frames_from lib (aead_key_of lib init) fid init.chunks source i left)
            r)
  unfolding accept_all frames_from
  accept_all-Progress zero i r e pr = subst (λ n. Progress n r) (omega (arith, e)) pr
  accept_all-Progress (suc left) i r e pr =
      let lt : i < init.chunks = omega (arith, e) in
      let at = pr.at in
      let ends = pr.ends in
      let step : (accept_frame lib init
            (seal_chunk lib (aead_key_of lib init) fid i init.chunks (chunk_at i source)) r).1
          ≡ take_part init (chunk_at i source) r =
        ap (λ x. x.1)
          (subst
            (λ n.
              accept_frame lib init
                (seal_chunk lib (aead_key_of lib init) fid n init.chunks (chunk_at i source)) r
              ≡ (accepted, take_part init (chunk_at i source) r))
            at
            (accept_frame-seal (chunk_at i source) r pr.going (ground (arith, ends, lt))
              (omega (arith, at, lt)))) in
      let rest = frames_from lib (aead_key_of lib init) fid init.chunks source (suc i) left in
      subst (Progress init.chunks)
        (sym (
          accept_all-next
            (seal_chunk lib (aead_key_of lib init) fid i init.chunks (chunk_at i source)) rest r
            (take_part init (chunk_at i source) r) step))
        (accept_all-Progress left (suc i) (take_part init (chunk_at i source) r) (omega (arith, e))
          (take_part-Progress i r lt pr))

  result_bytes-Progress :
      (r : Receiver)
      → length source ≤ init.chunks * file_chunk_bytes
      → expected_bytes init ≡ length source
      → Progress init.chunks r
      → result_bytes init r ≡ whole source
  unfolding result_bytes
  result_bytes-Progress r le expected pr =
      let all : concat_bytes r.parts ≡ source =
        pr.so_far ∙ take_all (init.chunks * file_chunk_bytes) source le in
      let counted = pr.counted in
      let going = pr.going in
      let ends = pr.ends in
      let size : r.received ≡ length source = counted ∙ ap (λ l. length l) all in
      ground (arith, going, ends, size, expected, all)

-- A file of fewer than 2 ^ 32 chunks, streamed with a file id of 16 bytes, arrives as it was: the
-- receiver of the transfer's opening message, fed all frames in order, returns exactly its bytes.
pub result_bytes-stream :
    (lib : StreamCrypto) (file_id file_key source : Bytes)
    → CryptoWorks lib
    → length file_id ≡ 16
    → chunk_count (length source) < 4294967296
    → let init = stream_init lib file_id file_key source in
      result_bytes init
        (accept_all lib init (stream_frames lib file_id file_key source) (new_receiver init))
      ≡ whole source
unfolding stream_init stream_frames new_receiver
result_bytes-stream lib fid fkey source works sized small =
    let init = stream_init lib fid fkey source in
    let start : Receiver = new_receiver init in
    let key : aead_key_of lib init ≡ lib.hkdf_first fid fkey =
      ap (λ a. lib.hkdf_first a (lib.from_base64 init.key)) (works.decodes fid)
      ∙ ap (λ b. lib.hkdf_first fid b) (works.decodes fkey) in
    let fed =
      accept_all-Progress lib works init fid source sized refl small init.chunks 0 start
        (omega arith)
        (record { so_far = refl; at = refl; counted = refl; going = refl; ends = ground arith }) in
    let enough : length source ≤ chunk_count (length source) * file_chunk_bytes =
      unfold chunk_count in ground arith in
    result_bytes-Progress lib works init fid source sized refl small _ enough refl (rw key at fed)

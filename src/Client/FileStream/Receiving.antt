-- ===== src/Client/FileStream/Receiving.antt =====
-- What a receiver accepts, whatever it is fed.
use quantum_bunker.Base.{
  ℕ, suc, ◌+◌, ◌≡◌, refl, ap, sym, ◌∙◌, subst, arith, true, false, ◌||◌, List, [], ◌∷◌, ◌++◌, some,
  if◌then◌else◌, none, length, length-append, nat_eq, string_eq, ◌⊎◌, inl, inr, Bool-cases,
  Option-cases,
}
use quantum_bunker.Client.FileStream.{
  Bytes, StreamCrypto, FileStreamInit, ParsedFrame, nonce, parse_frame, Receiver, new_receiver,
  Accepted, accepted, stream_rejected, stream_closed, fail, take_part, aead_key_of, open_frame,
  is_expected, accept_frame, whole, rejected, concat_bytes, result_bytes, accept_all,
}

module _ (lib : StreamCrypto) (init : FileStreamInit) where
  -- The chunk was opened, as authentic, with the key of the transfer and the nonce of its index.
  abbrev pub Authentic : ℕ → Bytes → Type 0
  Authentic index plain =
      (sealed : Bytes) × (ad : Bytes) × (lib.unseal (aead_key_of lib init) (nonce index) sealed ad
        ≡ some plain)

  abbrev pub AuthenticFrom : ℕ → List Bytes → Type 0
  AuthenticFrom index [] = Unit
  AuthenticFrom index (p ∷ ps) = Authentic index p × AuthenticFrom (suc index) ps

  -- The frame carries the next chunk of this transfer, and it is authentic.
  abbrev pub Accepts : Bytes → Receiver → Accepted × Receiver → Type 0
  Accepts frame r out =
      (p : ParsedFrame) × (plain : Bytes) × (parse_frame frame ≡ some p)
      × (p.index ≡ r.next)
      × (p.total ≡ init.chunks)
      × (lib.to_base64 p.file_id ≡ init.file_id)
      × (lib.unseal (aead_key_of lib init) (nonce p.index) p.ciphertext p.header ≡ some plain)
      × (out ≡ (accepted, take_part init plain r))

  abbrev pub Rejects : Receiver → Accepted × Receiver → Type 0
  Rejects r out = (out.0 ≡ stream_rejected) × (out.1.failed ≡ true) × (out.1.parts ≡ [])

  open_frame_outcome :
      (frame : Bytes) (p : ParsedFrame) (r : Receiver)
      → parse_frame frame ≡ some p
      → is_expected lib init p r ≡ true
      → Accepts frame r (open_frame lib init p r) ⊎ Rejects r (open_frame lib init p r)
  unfolding open_frame fail
  open_frame_outcome frame p r parsed expected =
      elim (Option-cases
        (lib.unseal (aead_key_of lib init) (nonce p.index) p.ciphertext p.header)) [
          | inl forged ↦ rw (forged, open_frame) (inr (refl, refl, refl))
          | inr (plain, opened) ↦ inl (
            p,
            plain,
            parsed,
            ground (arith, expected),
            ground (arith, expected),
            ground (arith, expected),
            opened,
            rw (opened, open_frame),
          )
        ]

  -- All branches: a frame is accepted only if it parses, names this transfer and its number of chunks,
  -- has the next index and is authentic; a finished or failed receiver is closed and stays as it is;
  -- and any other frame fails the receiver for good, which forgets what it had.
  pub accept_frame_outcome :
      (frame : Bytes) (r : Receiver)
      → (((r.failed || r.complete) ≡ true) × (accept_frame lib init frame r ≡ (stream_closed, r)))
        ⊎ (((r.failed || r.complete) ≡ false)
            × (Accepts frame r (accept_frame lib init frame r)
                ⊎ Rejects r (accept_frame lib init frame r)))
  unfolding accept_frame fail
  accept_frame_outcome frame r = elim (Bool-cases (r.failed || r.complete)) [
    | inl over ↦ inl (over, ground (arith, over))
    | inr going ↦ elim (Option-cases (parse_frame frame)) [
      | inl bad ↦ inr (going, inr (ground (arith, going, bad)))
      | inr (p, parsed) ↦ elim (Bool-cases (is_expected lib init p r)) [
        | inr wrong ↦ inr (going, inr (ground (arith, going, parsed, wrong)))
        | inl right ↦
            let same : accept_frame lib init frame r ≡ open_frame lib init p r =
              ground (arith, going, parsed, right) in
            inr (
              going,
              subst (λ out. Accepts frame r out ⊎ Rejects r out) (sym same)
                  (open_frame_outcome frame p r parsed right),
            )
      ]
    ]
  ]

  AuthenticFrom-append :
      (index : ℕ) (ps : List Bytes) (p : Bytes)
      → AuthenticFrom index ps
      → Authentic (index + length ps) p
      → AuthenticFrom index (ps ++ p ∷ [])
  AuthenticFrom-append index [] p all a = (subst (λ n. Authentic n p) (omega arith) a, tt)
  AuthenticFrom-append index (q ∷ ps) p (b, all) a =
      (b, AuthenticFrom-append (suc index) ps p all (subst (λ n. Authentic n p) (omega arith) a))

  length-concat_bytes :
      (ps : List Bytes) (p : Bytes)
      → length (concat_bytes (ps ++ p ∷ [])) ≡ length (concat_bytes ps) + length p
  length-concat_bytes [] p = omega (arith, length-append p [])
  length-concat_bytes (q ∷ ps) p = omega (
    arith,
    length-concat_bytes ps p,
    length-append q (concat_bytes (ps ++ p ∷ [])),
    length-append q (concat_bytes ps),
  )

  -- The bytes that the sender announces: those of the locked file, where the file is locked.
  abbrev pub announced : ℕ
  announced = if init.locked then (elim init.enc_size [ none ↦ 0 | some n ↦ n ]) else init.size

  -- Of a receiver that has not failed.
  pub record Honest (r : Receiver) : Type 0 where
    pub counted : r.failed ≡ false → r.next ≡ length r.parts
    pub genuine : r.failed ≡ false → AuthenticFrom 0 r.parts
    pub measured : r.failed ≡ false → r.received ≡ length (concat_bytes r.parts)
    pub full : r.failed ≡ false → r.complete ≡ true → r.next ≡ init.chunks

  take_part-Honest :
      (plain : Bytes) (r : Receiver)
      → r.failed ≡ false
      → r.complete ≡ false
      → Authentic r.next plain
      → Honest r
      → Honest (take_part init plain r)
  unfolding take_part
  take_part-Honest plain r going ongoing a honest =
      let counted = honest.counted going in
      record {
        counted = λ g. omega (arith, counted, length-append r.parts (plain ∷ []));
        genuine = λ g.
            AuthenticFrom-append 0 r.parts plain (honest.genuine going)
              (subst (λ n. Authentic n plain) (omega (arith, counted)) a);
        measured = λ g. omega (arith, honest.measured going, length-concat_bytes r.parts plain);
        full = λ g c. ground (arith, ongoing);
      }

  accept_frame-Honest :
      (frame : Bytes) (r : Receiver) → Honest r → Honest (accept_frame lib init frame r).1
  accept_frame-Honest frame r honest = elim (accept_frame_outcome frame r) [
    | inl (over, same) ↦ subst (λ out. Honest out.1) (sym same) honest
    | inr (going, inr (_, failed, _)) ↦ record {
      counted = λ g. absurd (let f = failed in cc);
      genuine = λ g. absurd (let f = failed in cc);
      measured = λ g. absurd (let f = failed in cc);
      full = λ g c. absurd (let f = failed in cc);
    }
    | inr (going, inl (p, plain, parsed, index, _, _, opened, same)) ↦
        subst (λ out. Honest out.1) (sym same)
          (take_part-Honest plain r (ground (arith, going)) (ground (arith, going))
            (subst (λ n. Authentic n plain) index (p.ciphertext, p.header, opened)) honest)
  ]

  accept_all-Honest :
      (fs : List Bytes) (r : Receiver) → Honest r → Honest (accept_all lib init fs r)
  unfolding accept_all
  accept_all-Honest [] r honest = honest
  accept_all-Honest (f ∷ fs) r honest =
      accept_all-Honest fs (accept_frame lib init f r).1 (accept_frame-Honest f r honest)

  new_receiver-Honest : Honest (new_receiver init)
  unfolding new_receiver
  new_receiver-Honest = record {
    counted = λ g. refl;
    genuine = λ g. tt;
    measured = λ g. refl;
    full = λ g c. ground arith;
  }

  -- Whatever frames arrive, in whatever order: if the receiver returns bytes, they are the chunks
  -- 0, 1, and so on, each authentic under its own index, all of them, and as many bytes as announced.
  pub result_bytes-authentic :
      (fs : List Bytes) (b : Bytes)
      → result_bytes init (accept_all lib init fs (new_receiver init)) ≡ whole b
      → (parts : List Bytes) × (concat_bytes parts ≡ b)
        × (length parts ≡ init.chunks)
        × AuthenticFrom 0 parts
        × (length b ≡ announced)
  unfolding result_bytes
  result_bytes-authentic fs b returned =
      let r = accept_all lib init fs (new_receiver init) in
      let honest = accept_all-Honest fs (new_receiver init) new_receiver-Honest in
      let going : r.failed ≡ false = ground (arith, returned) in
      let done : r.complete ≡ true = ground (arith, returned) in
      let counted = honest.counted going in
      let full = honest.full going done in
      let same : concat_bytes r.parts ≡ b = ground (arith, returned) in
      let size : r.received ≡ announced = ground (arith, returned) in
      (
        r.parts,
        same,
        omega (arith, counted, full),
        honest.genuine going,
        ap length (sym same) ∙ sym (honest.measured going) ∙ size,
      )

  accept_all-failed :
      (fs : List Bytes) (r : Receiver) → r.failed ≡ true → accept_all lib init fs r ≡ r
  unfolding accept_all accept_frame
  accept_all-failed [] r failed = refl
  accept_all-failed (f ∷ fs) r failed =
      let same : (accept_frame lib init f r).1 ≡ r = ground (arith, failed) in
      ap (accept_all lib init fs) same ∙ accept_all-failed fs r failed

  -- Once a frame was rejected, the transfer stays rejected whatever frames follow.
  pub result_bytes-rejected :
      (frame : Bytes) (r : Receiver) (fs : List Bytes)
      → (accept_frame lib init frame r).0 ≡ stream_rejected
      → result_bytes init (accept_all lib init fs (accept_frame lib init frame r).1) ≡ rejected
  unfolding result_bytes
  result_bytes-rejected frame r fs out =
      let failed : (accept_frame lib init frame r).1.failed ≡ true =
        elim (accept_frame_outcome frame r) [
          | inl (_, same) ↦ absurd (let a = ap (λ o. o.0) same in cc)
          | inr (_, inr (_, failed, _)) ↦ failed
          | inr (_, inl (_, _, _, _, _, _, _, same)) ↦ absurd (let a = ap (λ o. o.0) same in cc)
        ] in
      ap (result_bytes init) (accept_all-failed fs (accept_frame lib init frame r).1 failed)
      ∙ ground (arith, failed)

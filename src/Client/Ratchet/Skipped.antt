-- ===== src/Client/Ratchet/Skipped.antt =====
-- What a frame can do to the receiving side.
use quantum_bunker.Base.{
  ℕ, zero, suc, ◌+◌, ◌-◌, ◌≤◌, ◌≡◌, refl, ap, arith, [], ◌∷◌, some, length, String, string_eq,
  Option-cases, inl, inr, ◌⊎◌, nat_eq,
}
use quantum_bunker.Base.Dict.{Dict, lookup, insert, erase, length-erase-le}
use quantum_bunker.Client.Ratchet.{
  Bytes, DrKeyPair, RatchetHeader, RatchetSlot, RatchetCrypto, max_skipped_keys, DrState,
  skipped_key, evict, DrError, decrypt_failed, skip_limit_exceeded, no_recv_chain, DrResult,
  plaintext, failed, kdf_ck, decrypt_msg, dh_ratchet, skip_loop, skip_message_keys, commit,
  open_next, base64_or_empty, turn, decrypt_new, decrypt,
}

length-evict-le : (cap : ℕ) (d : Dict String Bytes) → length (evict cap d) ≤ cap
unfolding evict
length-evict-le cap [] = omega arith
length-evict-le cap (_ ∷ d) = ground (arith, length-evict-le cap d)

abbrev pub IsBounded : DrState → Type 0
IsBounded s = length s.mk_skipped ≤ max_skipped_keys

module _ (lib : RatchetCrypto) where
  skip_loop-IsBounded :
      (left : ℕ) (dh : String) (ck : Bytes) (s : DrState)
      → IsBounded s
      → IsBounded (skip_loop lib left dh ck s)
  unfolding skip_loop
  skip_loop-IsBounded zero dh ck s le = le
  skip_loop-IsBounded (suc left) dh ck s le = skip_loop-IsBounded left dh (kdf_ck lib ck).1 _ (
      length-evict-le max_skipped_keys
        (insert (skipped_key dh s.nr) (kdf_ck lib ck).0 s.mk_skipped))

  skip_message_keys-IsBounded :
      (until : ℕ) (dh : String) (s s' : DrState)
      → IsBounded s
      → skip_message_keys lib until dh s ≡ some s'
      → IsBounded s'
  unfolding skip_message_keys
  skip_message_keys-IsBounded until dh s s' le e = elim (Option-cases s.ckr) [
    | inl unset ↦ ground (arith, unset, e)
    | inr (ck, set) ↦ ground (arith, set, e, skip_loop-IsBounded (until - s.nr) dh ck s le)
  ]

  turn-IsBounded :
      (fresh : DrKeyPair) (h : RatchetHeader) (s s' : DrState)
      → IsBounded s
      → turn lib fresh h s ≡ some s'
      → IsBounded s'
  unfolding turn dh_ratchet
  turn-IsBounded fresh h s s' le e =
      elim (Option-cases (skip_message_keys lib h.pn (base64_or_empty lib s.dhr) s)) [
        | inl over ↦ ground (arith, over, e)
        | inr (t, skipped) ↦ ground (
          arith,
          skipped,
          e,
          skip_message_keys-IsBounded h.pn (base64_or_empty lib s.dhr) s t le skipped,
        )
      ]

  -- The frame opens with its header, or the state is left as it is.
  abbrev pub Outcome : RatchetSlot → DrState → DrResult × DrState → Type 0
  Outcome slot s out =
      ((e : DrError) × (out ≡ (failed e, s)))
      ⊎ ((mk : Bytes) × (plain : Bytes) × (out.0 ≡ plaintext plain)
          × (decrypt_msg lib mk (lib.from_base64 slot.ct) (lib.header_bytes slot.h) ≡ some plain)
          × IsBounded out.1)

  commit-Outcome :
      (slot : RatchetSlot) (mk : Bytes) (next s : DrState)
      → IsBounded next
      → Outcome slot s (
          commit lib
            (decrypt_msg lib mk (lib.from_base64 slot.ct) (lib.header_bytes slot.h))
            next
            s)
  commit-Outcome slot mk next s le =
      elim (Option-cases (decrypt_msg lib mk (lib.from_base64 slot.ct) (lib.header_bytes slot.h))) [
        | inl forged ↦ rw forged (inl (decrypt_failed, refl))
        | inr (plain, opened) ↦
            inr (mk, plain, ap (λ o. (commit lib o next s).0) opened, opened, (rw opened le))
      ]

  open_next-Outcome :
      (slot : RatchetSlot) (next s : DrState)
      → IsBounded next
      → Outcome slot s (open_next lib slot next s)
  unfolding open_next
  open_next-Outcome slot next s le = elim (Option-cases next.ckr) [
    | inl unset ↦ inl (no_recv_chain, ground (arith, unset))
    | inr (ckr, set) ↦
        rw (set, open_next)
          (commit-Outcome slot (kdf_ck lib ckr).0
            (record next { ckr = some (kdf_ck lib ckr).1; nr = next.nr + 1 }) s le)
  ]

  -- Whatever frame arrives: either the state stays exactly as it was, the frame being refused, or the
  -- frame opened, its header with it, under some key; and no more than 1000 skipped keys are kept, if
  -- no more were kept before.
  pub decrypt-Outcome :
      (fresh : DrKeyPair) (slot : RatchetSlot) (s : DrState)
      → IsBounded s
      → Outcome slot s (decrypt lib fresh slot s)
  unfolding decrypt decrypt_new
  decrypt-Outcome fresh slot s le =
      let key = skipped_key slot.h.dh slot.h.n in
      elim (Option-cases (lookup key s.mk_skipped)) [
        | inr (mk, kept) ↦
            rw (kept, decrypt)
              (commit-Outcome slot mk (record s { mk_skipped = erase key s.mk_skipped }) s
                (omega (arith, length-erase-le {0, 0} key s.mk_skipped, le)))
        | inl fresh_key ↦ elim (Option-cases (turn lib fresh slot.h s)) [
          | inl over ↦ inl (skip_limit_exceeded, ground (arith, fresh_key, over))
          | inr (next, turned) ↦
              elim (Option-cases (skip_message_keys lib slot.h.n slot.h.dh next)) [
                | inl over ↦ inl (skip_limit_exceeded, ground (arith, fresh_key, turned, over))
                | inr (ready, skipped) ↦
                    rw (fresh_key, decrypt, turned, decrypt_new, skipped)
                      (open_next-Outcome slot ready s (
                        skip_message_keys-IsBounded slot.h.n slot.h.dh next ready
                          (turn-IsBounded fresh slot.h s next le turned) skipped))
              ]
        ]
      ]

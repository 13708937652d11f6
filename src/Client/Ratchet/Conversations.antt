-- ===== src/Client/Ratchet/Conversations.antt =====
-- Conversations over one chain: in order, and with two messages swapped.
use quantum_bunker.Base.{
  ℕ, ◌+◌, ◌-◌, ◌<◌, ◌≡◌, refl, sym, ap, subst, ◌∙◌, arith, List, [], ◌∷◌, none, some, map, String,
  string_eq, Bool-cases, inl, inr, ◌==◌, nat_eq, replicate,
}
use quantum_bunker.Base.Dict.{Dict, lookup, insert, erase, lookup-insert, lookup-erase}
use quantum_bunker.Client.Ratchet.{
  Bytes, DrKeyPair, RatchetHeader, RatchetSlot, RatchetCrypto, max_skipped_keys, DrState,
  skipped_key, evict, DrResult, plaintext, kdf_rk, kdf_ck, encrypt_msg, decrypt_msg, skip_loop,
  skip_message_keys, init_alice, init_bob, encrypt_with, encrypt, open_next, turn, decrypt_new,
  decrypt,
}
use quantum_bunker.Client.Ratchet.Channel.{
  RatchetWorks, Synced, next_slot, decrypt-encrypt, bytes_equal_refl,
}

lookup-evict-none :
    (cap : ℕ) (k : String) (d : Dict String Bytes)
    → lookup k d ≡ none
    → lookup k (evict cap d) ≡ none
unfolding evict lookup
lookup-evict-none cap k [] h = refl
lookup-evict-none cap k (_ ∷ d) h = ground (arith, lookup-evict-none cap k d)

-- What is inserted last is not evicted.
lookup-evict-insert :
    (cap : ℕ) (k : String) (v : Bytes) (d : Dict String Bytes)
    → 0 < cap
    → lookup k d ≡ none
    → lookup k (evict cap (insert k v d)) ≡ some v
unfolding evict lookup insert
lookup-evict-insert cap k v [] pos h = ground arith
lookup-evict-insert cap k v (_ ∷ d) pos h =
    ground (arith, lookup-evict-insert cap k v d pos, lookup-insert k k v d)

-- A key that was taken is gone, and no other key has come.
lookup-erase-evict :
    (cap : ℕ) (k key : String) (v : Bytes) (d : Dict String Bytes)
    → lookup k d ≡ none
    → lookup k (erase key (evict cap (insert key v d))) ≡ none
lookup-erase-evict cap k key v d h = elim (Bool-cases (k == key)) [
  | inl same ↦ ground (arith, same, lookup-erase k key (evict cap (insert key v d)))
  | inr other ↦ ground (
    arith,
    other,
    lookup-erase k key (evict cap (insert key v d)),
    lookup-evict-none cap k (insert key v d),
    lookup-insert k key v d,
  )
]

module _ (lib : RatchetCrypto) where
  -- The initiator's and the responder's first states are in step.
  pub init-Synced :
      (chain_key : Bytes) (alice bob : DrKeyPair)
      → lib.shared_key alice.secret_key bob.public_key
        ≡ lib.shared_key bob.secret_key alice.public_key
      → Synced lib
          (init_alice lib chain_key alice bob.public_key)
          (init_bob lib chain_key bob alice.public_key)
  unfolding init_alice init_bob lookup
  init-Synced chain_key alice bob agree = record {
    ck = (kdf_rk lib chain_key (lib.shared_key bob.secret_key alice.public_key)).1;
    sends = rw agree;
    receives = refl;
    from = refl;
    count = refl;
    ahead = λ n le. refl;
  }

  -- What the receiver gets of messages that arrive as they were sent.
  abbrev pub exchange : DrKeyPair → List Bytes → DrState → DrState → List DrResult
  exchange fresh [] a b = []
  exchange fresh (p ∷ ps) a b =
      let r = decrypt lib fresh (next_slot lib fresh p a) b in
      r.0 ∷ exchange fresh ps (encrypt lib fresh p a).1 r.1

  exchange-Synced :
      (fresh : DrKeyPair) (ps : List Bytes) (a b : DrState)
      → RatchetWorks lib
      → Synced lib a b
      → exchange fresh ps a b ≡ map plaintext ps
  exchange-Synced fresh [] a b works sync = refl
  exchange-Synced fresh (p ∷ ps) a b works sync =
      let (opened, sync') = decrypt-encrypt lib fresh fresh p a b works sync in
      let rest = exchange-Synced fresh ps _ _ works sync' in
      ap
        (λ r.
          r
          ∷ exchange fresh ps (encrypt lib fresh p a).1
              (decrypt lib fresh (next_slot lib fresh p a) b).1)
        opened
      ∙ ap (λ rs. plaintext p ∷ rs) rest

  -- After a handshake in which both sides agree on the secret, any number of messages of the initiator
  -- that arrive in order open to what was sent.
  pub exchange-init :
      (fresh alice bob : DrKeyPair) (chain_key : Bytes) (ps : List Bytes)
      → RatchetWorks lib
      → lib.shared_key alice.secret_key bob.public_key
        ≡ lib.shared_key bob.secret_key alice.public_key
      → exchange fresh ps
          (init_alice lib chain_key alice bob.public_key)
          (init_bob lib chain_key bob alice.public_key)
        ≡ map plaintext ps
  exchange-init fresh alice bob chain_key ps works agree =
      exchange-Synced fresh ps _ _ works (init-Synced chain_key alice bob agree)

  skip_message_keys-one :
      (n : ℕ) (dh : String) (ck : Bytes) (s : DrState)
      → s.ckr ≡ some ck
      → s.nr ≡ n
      → skip_message_keys lib (n + 1) dh s
        ≡ some (record s {
          mk_skipped =
              evict max_skipped_keys (insert (skipped_key dh s.nr) (kdf_ck lib ck).0 s.mk_skipped);
          nr = s.nr + 1;
          ckr = some (kdf_ck lib ck).1;
        })
  unfolding skip_message_keys skip_loop
  skip_message_keys-one n dh ck s set at =
      let one : n + 1 - s.nr ≡ 1 = omega (arith, at) in ground (arith, set, at, one)

-- Two messages, `p` and `q`, of which the second arrives first.
module _ (lib : RatchetCrypto) (fresh : DrKeyPair) (p q : Bytes) (a b : DrState)
    (works : RatchetWorks lib) (sync : Synced lib a b) where
  abbrev dh : String
  dh = lib.to_base64 a.dhs.public_key

  abbrev first_key : Bytes
  first_key = (kdf_ck lib sync.ck).0

  abbrev chain_after : Bytes
  chain_after = (kdf_ck lib sync.ck).1

  abbrev second_key : Bytes
  second_key = (kdf_ck lib chain_after).0

  abbrev chain_end : Bytes
  chain_end = (kdf_ck lib chain_after).1

  abbrev first_header : RatchetHeader
  first_header = record { dh = dh; n = a.ns; pn = a.pn }

  abbrev second_header : RatchetHeader
  second_header = record { dh = dh; n = a.ns + 1; pn = a.pn }

  abbrev first_sealed : Bytes
  first_sealed = lib.seal first_key (replicate 12 0) p (lib.header_bytes first_header)

  abbrev second_sealed : Bytes
  second_sealed = lib.seal second_key (replicate 12 0) q (lib.header_bytes second_header)

  abbrev first_slot : RatchetSlot
  first_slot = record { h = first_header; ct = lib.to_base64 first_sealed }

  abbrev second_slot : RatchetSlot
  second_slot = record { h = second_header; ct = lib.to_base64 second_sealed }

  abbrev between : DrState
  between = record a { cks = some chain_after; ns = a.ns + 1 }

  abbrev sender_end : DrState
  sender_end = record a { cks = some chain_end; ns = a.ns + 2 }

  abbrev receiver_late : DrState
  receiver_late = record b {
    mk_skipped = evict max_skipped_keys (insert (skipped_key dh a.ns) first_key b.mk_skipped);
    nr = a.ns + 2;
    ckr = some chain_end;
  }

  abbrev receiver_end : DrState
  receiver_end = record receiver_late {
    mk_skipped = erase (skipped_key dh a.ns) receiver_late.mk_skipped;
  }

  encrypt-first : encrypt lib fresh p a ≡ (first_slot, between)
  unfolding encrypt encrypt_with encrypt_msg
  encrypt-first = let sends = sync.sends in ground (arith, sends)

  encrypt-second : encrypt lib fresh q between ≡ (second_slot, sender_end)
  unfolding encrypt encrypt_with encrypt_msg
  encrypt-second = ground arith

  decrypt-second : decrypt lib fresh second_slot b ≡ (plaintext q, receiver_late)
  unfolding decrypt decrypt_new turn open_next decrypt_msg
  decrypt-second =
      let from = sync.from in
      let count = sync.count in
      let equal = bytes_equal_refl a.dhs.public_key in
      let known = works.decodes a.dhs.public_key in
      let absent = sync.ahead (a.ns + 1) (omega arith) in
      let skip = skip_message_keys-one lib a.ns dh sync.ck b sync.receives count in
      let opened = works.opens second_key (replicate 12 0) q (lib.header_bytes second_header) in
      let decoded = works.decodes second_sealed in
      ground (arith, from, count, absent, skip, known, equal, opened, decoded)

  decrypt-first : decrypt lib fresh first_slot receiver_late ≡ (plaintext p, receiver_end)
  unfolding decrypt decrypt_msg
  decrypt-first =
      let found =
        lookup-evict-insert max_skipped_keys (skipped_key dh a.ns) first_key b.mk_skipped
          (omega arith) (sync.ahead a.ns (omega arith)) in
      let opened = works.opens first_key (replicate 12 0) p (lib.header_bytes first_header) in
      let decoded = works.decodes first_sealed in ground (arith, found, opened, decoded)

  end-Synced : Synced lib sender_end receiver_end
  end-Synced = record {
    ck = chain_end;
    sends = refl;
    receives = refl;
    from = sync.from;
    count = refl;
    ahead = λ n le.
        lookup-erase-evict max_skipped_keys (skipped_key dh n) (skipped_key dh a.ns) first_key
          b.mk_skipped (sync.ahead n (omega (arith, le)));
  }

  late :
      decrypt lib fresh (next_slot lib fresh q (encrypt lib fresh p a).1) b
      ≡ (plaintext q, receiver_late)
  late =
      ap (λ (x : RatchetSlot × DrState). decrypt lib fresh (next_slot lib fresh q x.1) b)
        encrypt-first
      ∙ ap (λ (x : RatchetSlot × DrState). decrypt lib fresh x.0 b) encrypt-second
      ∙ decrypt-second

  early : decrypt lib fresh (next_slot lib fresh p a) receiver_late ≡ (plaintext p, receiver_end)
  early =
      ap (λ (x : RatchetSlot × DrState). decrypt lib fresh x.0 receiver_late) encrypt-first
      ∙ decrypt-first

  sent : (encrypt lib fresh q (encrypt lib fresh p a).1).1 ≡ sender_end
  sent =
      ap (λ (x : RatchetSlot × DrState). (encrypt lib fresh q x.1).1) encrypt-first
      ∙ ap (λ (x : RatchetSlot × DrState). x.1) encrypt-second

  -- Of two messages that arrive in the wrong order, both open to what was sent, and the two sides are
  -- in step again: the key of the first one is kept until it comes. This holds for a sender and a
  -- receiver that are in step at first, with third-party functions that keep their promises.
  pub decrypt_swapped :
      let a₁ = (encrypt lib fresh p a).1 in
      let late = decrypt lib fresh (next_slot lib fresh q a₁) b in
      let early = decrypt lib fresh (next_slot lib fresh p a) late.1 in
      (late.0 ≡ plaintext q)
      × (early.0 ≡ plaintext p)
      × Synced lib (encrypt lib fresh q a₁).1 early.1
  decrypt_swapped = rw late (
    refl,
    ap (λ (x : DrResult × DrState). x.0) early,
    subst (λ x. Synced lib x (decrypt lib fresh (next_slot lib fresh p a) receiver_late).1)
        (sym sent)
        (subst (λ (y : DrResult × DrState). Synced lib sender_end y.1) (sym early) end-Synced),
  )

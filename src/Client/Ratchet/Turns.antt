-- ===== src/Client/Ratchet/Turns.antt =====
-- Conversations in which both sides speak: each change of the speaker is a step of the DH ratchet.
use quantum_bunker.Base.{
  ℕ, ◌+◌, ◌≤◌, ◌≡◌, refl, sym, ap, ◌∙◌, arith, String, false, List, [], ◌∷◌, some, map,
  Option-cases, inl, inr, replicate, nat_eq, string_eq,
}
use quantum_bunker.Base.Dict.{lookup}
use quantum_bunker.Client.Ratchet.{
  Bytes, DrKeyPair, RatchetHeader, RatchetCrypto, DrState, DrResult, bytes_equal, same_sender,
  plaintext, kdf_rk, kdf_ck, encrypt_msg, decrypt_msg, dh_ratchet, skip_message_keys, init_alice,
  init_bob, start_sending, encrypt_with, encrypt, open_next, turn, decrypt_new, decrypt,
  base64_or_empty,
}
use quantum_bunker.Client.Ratchet.Channel.{RatchetWorks, next_slot}

-- Both sides of a key agreement get the same secret.
abbrev pub Agree : RatchetCrypto → (own other : DrKeyPair) → Type 0
Agree lib own other =
    lib.shared_key own.secret_key other.public_key ≡ lib.shared_key other.secret_key own.public_key

module _ (lib : RatchetCrypto) where
  skip_message_keys-done :
      (until : ℕ) (dh : String) (s : DrState)
      → until ≤ s.nr
      → skip_message_keys lib until dh s ≡ some s
  unfolding skip_message_keys
  skip_message_keys-done until dh s le = elim (Option-cases s.ckr) [
    | inl h ↦ ground (arith, h)
    | inr (_, h) ↦ ground (arith, h)
  ]

  -- It is the turn of `a`: its chain is new to `b`, who can derive it, and neither side misses a
  -- message of the other.
  pub record Due (a b : DrState) : Type 0 where
    pub ck : Bytes
    pub sends : a.cks ≡ some ck
    pub derived : kdf_rk lib b.rk (lib.shared_key b.dhs.secret_key a.dhs.public_key) ≡ (a.rk, ck)
    pub unseen : same_sender lib b.dhr a.dhs.public_key ≡ false
    pub knows : a.dhr ≡ some b.dhs.public_key
    pub first : a.ns ≡ 0
    pub got : a.pn ≤ b.nr
    pub gave : b.ns ≤ a.nr
    pub skipped_a : a.mk_skipped ≡ []
    pub skipped_b : b.mk_skipped ≡ []

  -- The receiver after a turn.
  abbrev turned : DrKeyPair → Bytes → (a b : DrState) → DrState
  turned fresh ck a b =
      let (rk₂, cks) = kdf_rk lib a.rk (lib.shared_key fresh.secret_key a.dhs.public_key) in
      record {
        rk = rk₂;
        cks = some cks;
        ckr = some (kdf_ck lib ck).1;
        dhs = fresh;
        dhr = some a.dhs.public_key;
        ns = 0;
        nr = 1;
        pn = b.ns;
        mk_skipped = b.mk_skipped;
      }

  -- The ratchet step that the receiver takes for the new key.
  turn-new :
      (fresh : DrKeyPair) (h : RatchetHeader) (a b : DrState)
      → Due a b
      → lib.from_base64 h.dh ≡ a.dhs.public_key
      → h.pn ≡ a.pn
      → turn lib fresh h b ≡ some (dh_ratchet lib fresh a.dhs.public_key b)
  unfolding turn
  turn-new fresh h a b due decoded pn =
      let unseen = due.unseen in
      let kept = skip_message_keys-done a.pn (base64_or_empty lib b.dhr) b due.got in
      ground (arith, unseen, kept, decoded, pn)

  turned-lem :
      (own fresh : DrKeyPair) (plain : Bytes) (a b : DrState) (works : RatchetWorks lib)
      (due : Due a b)
      → decrypt lib fresh (next_slot lib own plain a) b ≡ (plaintext plain, turned fresh due.ck a b)
  unfolding encrypt encrypt_with encrypt_msg decrypt decrypt_new open_next decrypt_msg lookup
      dh_ratchet
  turned-lem own fresh plain a b works due =
      let sends = due.sends in
      let first = due.first in
      let derived = due.derived in
      let empty = due.skipped_b in
      let (mk, new_ck) = kdf_ck lib due.ck in
      let pub_key = a.dhs.public_key in
      let h : RatchetHeader = record { dh = lib.to_base64 pub_key; n = a.ns; pn = a.pn } in
      let sealed = lib.seal mk (replicate 12 0) plain (lib.header_bytes h) in
      let new = turn-new fresh h a b due (works.decodes pub_key) refl in
      let next = dh_ratchet lib fresh pub_key b in
      let none_missed = skip_message_keys-done a.ns h.dh next (omega (arith, first)) in
      let decoded = works.decodes sealed in
      let opened = works.opens mk (replicate 12 0) plain (lib.header_bytes h) in
      ground (arith, sends, derived, empty, new, none_missed, decoded, opened)

  sent-lem :
      (own : DrKeyPair) (plain : Bytes) (a b : DrState) (due : Due a b)
      → (encrypt lib own plain a).1 ≡ record a { cks = some (kdf_ck lib due.ck).1; ns = a.ns + 1 }
  unfolding encrypt encrypt_with
  sent-lem own plain a b due = let sends = due.sends in ground (arith, sends)

  -- After the turn of `a` it is the turn of `b`.
  turned-Due :
      (fresh : DrKeyPair) (a b : DrState) (due : Due a b)
      → Agree lib fresh a.dhs
      → bytes_equal fresh.public_key b.dhs.public_key ≡ false
      → Due (turned fresh due.ck a b) (record a { cks = some (kdf_ck lib due.ck).1; ns = a.ns + 1 })
  turned-Due fresh a b due agree new = record {
    ck = (kdf_rk lib a.rk (lib.shared_key fresh.secret_key a.dhs.public_key)).1;
    sends = refl;
    derived = ap (kdf_rk lib a.rk) (sym agree);
    unseen = ap (λ dhr. same_sender lib dhr fresh.public_key) due.knows ∙ new;
    knows = refl;
    first = refl;
    got = due.gave;
    gave = (let first = due.first in omega (arith, first));
    skipped_a = due.skipped_b;
    skipped_b = due.skipped_a;
  }

  -- The key pairs that are generated in turn are good: each agrees with the key pair of the side that
  -- speaks, and differs from the one that it replaces.
  unfoldable pub NewKeys : (own other : DrKeyPair) → List (DrKeyPair × Bytes) → Type 0
  NewKeys own other [] = Unit
  NewKeys own other ((fresh, _) ∷ turns) =
      Agree lib fresh own
      × (bytes_equal fresh.public_key other.public_key ≡ false)
      × NewKeys fresh own turns

  -- What the two sides receive when they speak in turn, `a` first; the receiver of each message
  -- generates the key pair that stands with it, and `a` generates `own` if it has no chain yet.
  abbrev pub alternate : DrKeyPair → List (DrKeyPair × Bytes) → (a b : DrState) → List DrResult
  alternate own [] a b = []
  alternate own ((fresh, p) ∷ turns) a b =
      let r = decrypt lib fresh (next_slot lib own p a) b in
      r.0 ∷ alternate fresh turns r.1 (encrypt lib own p a).1

  alternate-Due :
      (own : DrKeyPair) (turns : List (DrKeyPair × Bytes)) (a b : DrState)
      → RatchetWorks lib
      → Due a b
      → NewKeys a.dhs b.dhs turns
      → alternate own turns a b ≡ map (λ turn. plaintext turn.1) turns
  unfolding NewKeys
  alternate-Due own [] a b works due keys = refl
  alternate-Due own ((fresh, p) ∷ turns) a b works due (agree, new, keys) =
      let after = turned-lem own fresh p a b works due in
      let sent = sent-lem own p a b due in
      let rest = alternate-Due fresh turns _ _ works (turned-Due fresh a b due agree new) keys in
      rw (after, sent, rest) refl

  -- The responder may speak first: the chain that it starts is new to the initiator.
  start_sending-Due :
      (own alice bob : DrKeyPair) (chain_key : Bytes)
      → Agree lib alice bob
      → Agree lib own alice
      → bytes_equal own.public_key bob.public_key ≡ false
      → Due
          (start_sending lib own (init_bob lib chain_key bob alice.public_key))
          (init_alice lib chain_key alice bob.public_key)
  unfolding start_sending init_bob init_alice
  start_sending-Due own alice bob chain_key agree agree' new =
      let secret = lib.shared_key bob.secret_key alice.public_key in
      let root = (kdf_rk lib chain_key secret).0 in
      record {
        ck = (kdf_rk lib root (lib.shared_key own.secret_key alice.public_key)).1;
        sends = refl;
        derived = rw (agree, agree') refl;
        unseen = new;
        knows = refl;
        first = refl;
        got = omega arith;
        gave = omega arith;
        skipped_a = refl;
        skipped_b = refl;
      }

  alternate-start_sending :
      (own alice bob : DrKeyPair) (chain_key : Bytes) (turns : List (DrKeyPair × Bytes))
      (b : DrState)
      → (let a = init_bob lib chain_key bob alice.public_key in
          alternate own turns a b ≡ alternate own turns (start_sending lib own a) b)
  unfolding encrypt start_sending init_bob
  alternate-start_sending own alice bob chain_key [] b = refl
  alternate-start_sending own alice bob chain_key (_ ∷ turns) b = refl

  -- After a handshake in which both sides agree on the secret, the two sides may speak in turn, the
  -- responder first, for any number of turns: each message opens to what was sent, if each new key
  -- pair agrees with the other side's and differs from the one it replaces, and the third-party
  -- functions keep their promises.
  pub alternate-init :
      (own alice bob : DrKeyPair) (chain_key : Bytes) (turns : List (DrKeyPair × Bytes))
      → RatchetWorks lib
      → Agree lib alice bob
      → Agree lib own alice
      → bytes_equal own.public_key bob.public_key ≡ false
      → NewKeys own alice turns
      → alternate own turns
          (init_bob lib chain_key bob alice.public_key)
          (init_alice lib chain_key alice bob.public_key)
        ≡ map (λ turn. plaintext turn.1) turns
  unfolding start_sending init_bob init_alice
  alternate-init own alice bob chain_key turns works agree agree' new keys =
      alternate-start_sending own alice bob chain_key turns _
      ∙ alternate-Due own turns _ _ works
          (start_sending-Due own alice bob chain_key agree agree' new) keys

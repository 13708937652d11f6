-- ===== src/Client/Ratchet/Channel.antt =====
-- Two sides of one chain understand each other.
use quantum_bunker.Base.{
  ℕ, ◌+◌, ◌≤◌, ◌≡◌, refl, ap, arith, true, [], ◌∷◌, none, some, string_eq, nat_eq, replicate,
}
use quantum_bunker.Base.Dict.{lookup}
use quantum_bunker.Client.Ratchet.{
  Bytes, DrKeyPair, RatchetHeader, RatchetSlot, RatchetCrypto, DrState, bytes_equal, skipped_key,
  plaintext, kdf_ck, encrypt_msg, decrypt_msg, skip_message_keys, encrypt_with, encrypt, open_next,
  turn, decrypt_new, decrypt,
}

-- What the third-party functions promise: what is sealed opens, and what is encoded in base64 decodes
-- to what it was.
pub record RatchetWorks (lib : RatchetCrypto) : Type 0 where
  pub opens : (key n plain ad : Bytes) → lib.unseal key n (lib.seal key n plain ad) ad ≡ some plain
  pub decodes : (b : Bytes) → lib.from_base64 (lib.to_base64 b) ≡ b

pub bytes_equal_refl : (b : Bytes) → bytes_equal b b ≡ true
unfolding bytes_equal
bytes_equal_refl [] = refl
bytes_equal_refl (x ∷ b) = ground (arith, bytes_equal_refl b)

module _ (lib : RatchetCrypto) where
  -- The receiver `b` stands at the point of its chain at which the sender `a` stands.
  pub record Synced (a b : DrState) : Type 0 where
    pub ck : Bytes
    pub sends : a.cks ≡ some ck
    pub receives : b.ckr ≡ some ck
    pub from : b.dhr ≡ some a.dhs.public_key
    pub count : b.nr ≡ a.ns
    pub ahead :
        (n : ℕ)
        → a.ns ≤ n
        → lookup (skipped_key (lib.to_base64 a.dhs.public_key) n) b.mk_skipped ≡ none

  -- The next message of the sender, and the receiver after it.
  abbrev pub next_slot : DrKeyPair → Bytes → DrState → RatchetSlot
  next_slot fresh plain a = (encrypt lib fresh plain a).0

  -- A message that is received next opens to what was sent, and both sides are in step again.
  pub decrypt-encrypt :
      (fresh fresh' : DrKeyPair) (plain : Bytes) (a b : DrState)
      → RatchetWorks lib
      → Synced a b
      → ((decrypt lib fresh' (next_slot fresh plain a) b).0 ≡ plaintext plain)
        × Synced (encrypt lib fresh plain a).1 (decrypt lib fresh' (next_slot fresh plain a) b).1
  unfolding encrypt encrypt_with encrypt_msg decrypt decrypt_new turn skip_message_keys open_next
      decrypt_msg
  decrypt-encrypt fresh fresh' plain a b works sync =
      let sends = sync.sends in
      let receives = sync.receives in
      let from = sync.from in
      let count = sync.count in
      let pub_key = a.dhs.public_key in
      let (mk, new_ck) = kdf_ck lib sync.ck in
      let h : RatchetHeader = record { dh = lib.to_base64 pub_key; n = a.ns; pn = a.pn } in
      let sealed = lib.seal mk (replicate 12 0) plain (lib.header_bytes h) in
      let none_skipped = sync.ahead a.ns (omega arith) in
      let known = works.decodes pub_key in
      let decoded = works.decodes sealed in
      let opened = works.opens mk (replicate 12 0) plain (lib.header_bytes h) in
      let equal = bytes_equal_refl pub_key in
      let after : decrypt lib fresh' (next_slot fresh plain a) b
          ≡ (plaintext plain, record b { ckr = some new_ck; nr = b.nr + 1 }) =
        ground (arith, sends, receives, from, count, none_skipped, known, decoded, opened, equal) in
      let sent : (encrypt lib fresh plain a).1 ≡ record a { cks = some new_ck; ns = a.ns + 1 } =
        ground (arith, sends) in
      (
        ap (λ o. o.0) after,
        rw (after, sent)
            (record {
              ck = new_ck;
              sends = refl;
              receives = refl;
              from = from;
              count = omega (arith, count);
              ahead = λ n le. sync.ahead n (omega arith);
            }),
      )

-- ===== src/Client/Ratchet.antt =====
-- src/crypto/double-ratchet.ts, and `bytesEqual` of noise-primitives.ts. X25519, HKDF,
-- ChaCha20-Poly1305, base64 and the JSON of a header are parameters; a fresh key pair is an argument of
-- the operations that may generate one. A text that is not base64 throws in the code, before the state
-- changes; here it decodes to some bytes.
use quantum_bunker.Base.{
  ℕ, zero, suc, ◌+◌, ◌-◌, String, ◌<>◌, Bool, true, false, not, List, [], ◌∷◌, Option, none, some,
  leb, ltb, if◌then◌else◌, ◌==◌, ◌&&◌, length, replicate, nat_eq, string_eq,
}
use quantum_bunker.Base.Dict.{Dict, lookup, insert, erase}
use quantum_bunker.Base.Decimal.{decimal}
pub mod Skipped
pub mod Channel
pub mod Conversations
pub mod Turns

abbrev pub Bytes : Type 0
Bytes = List ℕ

pub record DrKeyPair : Type 0 where
  pub public_key : Bytes
  pub secret_key : Bytes

pub record RatchetHeader : Type 0 where
  pub dh : String
  pub n : ℕ
  pub pn : ℕ

pub record RatchetSlot : Type 0 where
  pub h : RatchetHeader
  pub ct : String

pub record RatchetCrypto : Type 0 where
  -- `hkdf(salt, input, 2)`.
  pub hkdf : (salt input : Bytes) → Bytes × Bytes
  pub shared_key : (secret public : Bytes) → Bytes
  pub seal : (key nonce plain ad : Bytes) → Bytes
  pub unseal : (key nonce sealed ad : Bytes) → Option Bytes
  pub to_base64 : Bytes → String
  pub from_base64 : String → Bytes
  -- `new TextEncoder().encode(JSON.stringify(h))`.
  pub header_bytes : RatchetHeader → Bytes

abbrev pub max_skip : ℕ
max_skip = 100

abbrev pub max_skipped_keys : ℕ
max_skipped_keys = 1000

-- The fields RK, CKs, CKr, DHs, DHr, Ns, Nr, PN and MKSKIPPED.
pub record DrState : Type 0 where
  pub rk : Bytes
  pub cks : Option Bytes
  pub ckr : Option Bytes
  pub dhs : DrKeyPair
  pub dhr : Option Bytes
  pub ns : ℕ
  pub nr : ℕ
  pub pn : ℕ
  pub mk_skipped : Dict String Bytes

unfoldable pub bytes_equal : Bytes → Bytes → Bool
bytes_equal [] [] = true
bytes_equal (a ∷ xs) (b ∷ ys) = a == b && bytes_equal xs ys
bytes_equal _ _ = false

unfoldable pub skipped_key : String → ℕ → String
skipped_key dh n = dh <> (":" <> decimal n)

-- The eviction loop of `skipMessageKeys`.
unfoldable pub evict : ℕ → Dict String Bytes → Dict String Bytes
evict cap [] = []
evict cap (entry ∷ keys) =
    let rest = evict cap keys in if ltb cap (length (entry ∷ keys)) then rest else entry ∷ keys

pub data DrError : Type 0 where
  decrypt_failed skip_limit_exceeded no_recv_chain : DrError

pub data DrResult : Type 0 where
  plaintext : Bytes → DrResult
  failed : DrError → DrResult

module _ (lib : RatchetCrypto) where
  unfoldable pub kdf_rk : Bytes → Bytes → Bytes × Bytes
  kdf_rk rk dh_out = lib.hkdf rk dh_out

  -- The message key and the next chain key.
  unfoldable pub kdf_ck : Bytes → Bytes × Bytes
  kdf_ck ck = lib.hkdf ck (1 ∷ [])

  unfoldable pub encrypt_msg : (mk plain ad : Bytes) → Bytes
  encrypt_msg mk plain ad = lib.seal mk (replicate 12 0) plain ad

  unfoldable pub decrypt_msg : (mk ciphertext ad : Bytes) → Option Bytes
  decrypt_msg mk ciphertext ad = lib.unseal mk (replicate 12 0) ciphertext ad

  unfoldable pub dh_ratchet : (fresh : DrKeyPair) → (new_dhr : Bytes) → DrState → DrState
  unfolding kdf_rk
  dh_ratchet fresh new_dhr s =
      let (rk₁, ckr) = kdf_rk s.rk (lib.shared_key s.dhs.secret_key new_dhr) in
      let (rk₂, cks) = kdf_rk rk₁ (lib.shared_key fresh.secret_key new_dhr) in
      record s {
        pn = s.ns;
        ns = 0;
        nr = 0;
        dhr = some new_dhr;
        rk = rk₂;
        ckr = some ckr;
        cks = some cks;
        dhs = fresh;
      }

  -- The loop of `skipMessageKeys`, `left` rounds from the chain key `ck`.
  unfoldable pub skip_loop : (left : ℕ) → (dh_pub : String) → (ck : Bytes) → DrState → DrState
  unfolding kdf_ck skipped_key evict
  skip_loop zero dh_pub ck s = record s { ckr = some ck }
  skip_loop (suc left) dh_pub ck s =
      let (mk, new_ck) = kdf_ck ck in
      skip_loop left dh_pub new_ck (record s {
        mk_skipped = evict max_skipped_keys (insert (skipped_key dh_pub s.nr) mk s.mk_skipped);
        nr = s.nr + 1;
      })

  -- None where the limit is exceeded.
  unfoldable pub skip_message_keys : (until : ℕ) → (dh_pub : String) → DrState → Option DrState
  unfolding skip_loop
  skip_message_keys until dh_pub s = elim s.ckr [
    | none ↦ some s
    | some ck ↦
        if leb until s.nr
        then some s
        else (if ltb max_skip (until - s.nr)
            then none
            else some (skip_loop (until - s.nr) dh_pub ck s))
  ]

  unfoldable pub init_alice : Bytes → DrKeyPair → Bytes → DrState
  unfolding kdf_rk
  init_alice chain_key own remote =
      let (rk, cks) = kdf_rk chain_key (lib.shared_key own.secret_key remote) in
      record {
        rk = rk;
        cks = some cks;
        ckr = none;
        dhs = own;
        dhr = some remote;
        ns = 0;
        nr = 0;
        pn = 0;
        mk_skipped = [];
      }

  unfoldable pub init_bob : Bytes → DrKeyPair → Bytes → DrState
  unfolding kdf_rk
  init_bob chain_key own remote =
      let (rk, ckr) = kdf_rk chain_key (lib.shared_key own.secret_key remote) in
      record {
        rk = rk;
        cks = none;
        ckr = some ckr;
        dhs = own;
        dhr = some remote;
        ns = 0;
        nr = 0;
        pn = 0;
        mk_skipped = [];
      }

  -- `this.s.DHr!`: both ways to a state set it.
  abbrev pub or_empty : Option Bytes → Bytes
  or_empty none = []
  or_empty (some b) = b

  unfoldable pub start_sending : DrKeyPair → DrState → DrState
  unfolding kdf_rk
  start_sending fresh s =
      let (rk, cks) = kdf_rk s.rk (lib.shared_key fresh.secret_key (or_empty s.dhr)) in
      record s { pn = s.ns; ns = 0; dhs = fresh; rk = rk; cks = some cks }

  -- `encrypt`, from the chain key on.
  unfoldable pub encrypt_with : (cks plain : Bytes) → DrState → RatchetSlot × DrState
  unfolding kdf_ck encrypt_msg
  encrypt_with cks plain s =
      let (mk, new_cks) = kdf_ck cks in
      let h : RatchetHeader = record { dh = lib.to_base64 s.dhs.public_key; n = s.ns; pn = s.pn } in
      (
        record { h = h; ct = lib.to_base64 (encrypt_msg mk plain (lib.header_bytes h)) },
        record s { cks = some new_cks; ns = s.ns + 1 },
      )

  unfoldable pub encrypt : DrKeyPair → Bytes → DrState → RatchetSlot × DrState
  unfolding start_sending encrypt_with
  encrypt fresh plain s = elim s.cks [
    | some cks ↦ encrypt_with cks plain s
    | none ↦
        let s' = start_sending fresh s in
        encrypt_with (elim s'.cks [ none ↦ [] | some c ↦ c ]) plain s'
  ]

  -- The copy is committed only if the frame opens; else the state `s` stays.
  abbrev pub commit : Option Bytes → (next s : DrState) → DrResult × DrState
  commit none next s = (failed decrypt_failed, s)
  commit (some plain) next s = (plaintext plain, next)

  -- The end of `decrypt`, on the copy `next` with the keys before `h.n` skipped.
  unfoldable pub open_next : RatchetSlot → (next s : DrState) → DrResult × DrState
  unfolding kdf_ck decrypt_msg
  open_next slot next s = elim next.ckr [
    | none ↦ (failed no_recv_chain, s)
    | some ckr ↦
        let (mk, new_ckr) = kdf_ck ckr in
        commit (decrypt_msg mk (lib.from_base64 slot.ct) (lib.header_bytes slot.h))
          (record next { ckr = some new_ckr; nr = next.nr + 1 }) s
  ]

  abbrev pub same_sender : Option Bytes → Bytes → Bool
  same_sender none dh = false
  same_sender (some dhr) dh = bytes_equal dh dhr

  abbrev pub base64_or_empty : Option Bytes → String
  base64_or_empty none = ""
  base64_or_empty (some dhr) = lib.to_base64 dhr

  -- The ratchet step for a header with a new key; none where the limit is exceeded.
  unfoldable pub turn : DrKeyPair → RatchetHeader → DrState → Option DrState
  unfolding skip_message_keys dh_ratchet
  turn fresh h s =
      let dh = lib.from_base64 h.dh in
      if same_sender s.dhr dh
      then some s
      else (elim (skip_message_keys h.pn (base64_or_empty s.dhr) s) [
        | none ↦ none
        | some s' ↦ some (dh_ratchet fresh dh s')
      ])

  unfoldable pub decrypt_new : DrKeyPair → RatchetSlot → DrState → DrResult × DrState
  unfolding turn open_next skip_message_keys
  decrypt_new fresh slot s = elim (turn fresh slot.h s) [
    | none ↦ (failed skip_limit_exceeded, s)
    | some next ↦ elim (skip_message_keys slot.h.n slot.h.dh next) [
      | none ↦ (failed skip_limit_exceeded, s)
      | some ready ↦ open_next slot ready s
    ]
  ]

  unfoldable pub decrypt : DrKeyPair → RatchetSlot → DrState → DrResult × DrState
  unfolding decrypt_new decrypt_msg skipped_key
  decrypt fresh slot s =
      let key = skipped_key slot.h.dh slot.h.n in
      elim (lookup key s.mk_skipped) [
        | some mk ↦
            commit (decrypt_msg mk (lib.from_base64 slot.ct) (lib.header_bytes slot.h))
              (record s { mk_skipped = erase key s.mk_skipped }) s
        | none ↦ decrypt_new fresh slot s
      ]

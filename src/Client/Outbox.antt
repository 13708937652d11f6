-- ===== src/Client/Outbox.antt =====
-- src/outbox-store.ts: the messages for absent peers, over the map of MemoryOutboxBackend. AES-GCM, with
-- the key of the device, and the JSON of an entry are parameters; the random bytes are arguments. What
-- else happens while a flush waits is an argument, too.
use quantum_bunker.Base.{
  ℕ, suc, ◌+◌, String, Bool, true, false, ◌||◌, List, [], ◌∷◌, Option, none, some, leb,
  if◌then◌else◌, ◌==◌, keep_if, string_eq,
}
use quantum_bunker.Base.Dict.{Dict, insert, erase}
use quantum_bunker.Server.Events.{EnvelopeType}
use quantum_bunker.Client.FileStream.{Bytes}
pub mod Specified
pub mod Contents
pub mod Flushing

abbrev pub wildcard_recipient : String
wildcard_recipient = "*"

pub record OutboxEntry : Type 0 where
  pub nonce : String
  pub to : String
  pub type : EnvelopeType
  pub plaintext : String
  pub timestamp : ℕ
  pub attempts : ℕ

pub record SealedRecord : Type 0 where
  pub nonce : String
  pub iv : String
  pub ct : String

abbrev pub Outbox : Type 0
Outbox = Dict String SealedRecord

pub record OutboxCrypto : Type 0 where
  pub encrypt : (iv : Bytes) → OutboxEntry → Bytes
  pub decrypt : (iv ct : Bytes) → Option OutboxEntry
  pub to_base64 : Bytes → String
  -- `atob` throws on a text that is not base64.
  pub from_base64 : String → Option Bytes

-- `entries.sort((a, b) => a.timestamp - b.timestamp)`, which keeps the order of equal times.
unfoldable pub insert_by_time : OutboxEntry → List OutboxEntry → List OutboxEntry
insert_by_time e [] = e ∷ []
insert_by_time e (x ∷ xs) =
    let rest = insert_by_time e xs in if leb e.timestamp x.timestamp then e ∷ x ∷ xs else x ∷ rest

unfoldable pub sort : List OutboxEntry → List OutboxEntry
unfolding insert_by_time
sort [] = []
sort (e ∷ es) = insert_by_time e (sort es)

abbrev pub is_for : String → OutboxEntry → Bool
is_for to e = e.to == to || e.to == wildcard_recipient

unfoldable pub mark_delivered : String → Outbox → Outbox
mark_delivered nonce box = erase nonce box

unfoldable pub clear : Outbox → Outbox
clear box = []

abbrev pub attempted : OutboxEntry → OutboxEntry
attempted e = record e { attempts = e.attempts + 1 }

-- What else happens to the box, and to the state of the sender, while a flush waits: before the first
-- entry is sent, until a sent entry is written back, and from there until the next one is sent.
pub record Meanwhile {ℓ} (S : Type ℓ) : Type ℓ where
  pub listed : Outbox × S → Outbox × S
  pub sending : OutboxEntry → Outbox × S → Outbox × S
  pub pausing : OutboxEntry → Outbox × S → Outbox × S

abbrev pub box_only {ℓ} :
    {S : Type ℓ}
    → (listed : Outbox → Outbox) → (sending pausing : OutboxEntry → Outbox → Outbox) → Meanwhile S
box_only listed sending pausing = record {
  listed = λ (box, s). (listed box, s);
  sending = λ e (box, s). (sending e box, s);
  pausing = λ e (box, s). (pausing e box, s);
}

module _ (lib : OutboxCrypto) where
  unfoldable pub seal : Bytes → OutboxEntry → SealedRecord
  seal iv e = record {
    nonce = e.nonce;
    iv = lib.to_base64 iv;
    ct = lib.to_base64 (lib.encrypt iv e);
  }

  unfoldable pub unseal : SealedRecord → Option OutboxEntry
  unseal r = elim (lib.from_base64 r.iv) [
    | none ↦ none
    | some iv ↦ elim (lib.from_base64 r.ct) [ none ↦ none | some ct ↦ lib.decrypt iv ct ]
  ]

  -- With the number of attempts that the caller gives, or 0.
  unfoldable pub enqueue : (iv : Bytes) → OutboxEntry → Outbox → Outbox
  unfolding seal
  enqueue iv e box = insert e.nonce (seal iv e) box

  -- The loop of `pending`.
  unfoldable pub unseal_all : Outbox → List OutboxEntry
  unfolding unseal
  unseal_all [] = []
  unseal_all ((nonce, r) ∷ box) =
      let rest = unseal_all box in elim (unseal r) [ none ↦ rest | some e ↦ e ∷ rest ]

  -- An empty recipient counts as none.
  unfoldable pub pending : Option String → Outbox → List OutboxEntry
  unfolding unseal_all sort
  pending none box = sort (unseal_all box)
  pending (some to) box =
      let entries = sort (unseal_all box) in
      if to == "" then entries else keep_if (is_for to) entries

  -- The loop of `drain`; `send` may change a state of its own, and gives whether it sent.
  unfoldable pub drain_each {ℓ} :
      {S : Type ℓ}
      → Meanwhile S
      → (send : OutboxEntry → S → Bool × S) → (ivs : OutboxEntry → Bytes) → List OutboxEntry
      → Outbox
      → S
      → ℕ × Outbox × S
  unfolding seal
  drain_each meanwhile send ivs [] box s = (0, box, s)
  drain_each meanwhile send ivs (e ∷ es) box s =
      let (sent, s₁) = send (attempted e) s in
      let (box₂, s₂) = meanwhile.sending e (box, s₁) in
      let written = insert e.nonce (seal (ivs e) (attempted e)) box₂ in
      let (box₃, s₃) = meanwhile.pausing e (written, s₂) in
      let (n, box', s') = drain_each meanwhile send ivs es box₃ s₃ in
      if sent then (suc n, box', s') else (0, box₂, s₂)

  unfoldable pub drain {ℓ} :
      {S : Type ℓ}
      → Meanwhile S
      → (send : OutboxEntry → S → Bool × S) → (ivs : OutboxEntry → Bytes) → Option String
      → Outbox
      → S
      → ℕ × Outbox × S
  unfolding drain_each pending
  drain meanwhile send ivs to box s =
      let (box', s') = meanwhile.listed (box, s) in
      drain_each meanwhile send ivs (pending to box) box' s'

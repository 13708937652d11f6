-- ===== src/Server/Session.antt =====
-- src/shared/contracts/v1/session.ts. `Record`s are dictionaries in insertion order; an absent
-- optional field is `none`.
use quantum_bunker.Base.{ℕ, String, Bool, ◌||◌, List, [], ◌∷◌, Option, contains, string_eq}
use quantum_bunker.Base.Dict.{Dict, has}

pub data SessionStatus : Type 0 where
  pending active expired closed : SessionStatus

pub record SessionPeer : Type 0 where
  pub id : String
  pub joined_at : ℕ
  pub last_seen_at : ℕ
  pub token : Option String

pub record PendingPeer : Type 0 where
  pub id : String
  pub message : String
  pub requested_at : ℕ

pub record Session : Type 0 where
  pub id : String
  pub name : Option String
  pub created_at : ℕ
  pub expires_at : ℕ
  pub last_activity_at : ℕ
  pub host_id : String
  pub host_recovery_token : String
  pub host_public_key : Option String
  pub peers : Dict String SessionPeer
  pub pending_peers : Dict String PendingPeer
  pub status : SessionStatus
  pub max_peers : ℕ
  pub participant_count : ℕ
  pub empty_since : Option ℕ
  pub is_group : Bool

-- The properties that an object literal inherits from `Object.prototype`.
abbrev pub inherited_names : List String
inherited_names =
    "constructor" ∷ "__proto__" ∷ "toString" ∷ "valueOf" ∷ "toLocaleString" ∷ "hasOwnProperty"
    ∷ "isPrototypeOf" ∷ "propertyIsEnumerable" ∷ "__defineGetter__" ∷ "__defineSetter__"
    ∷ "__lookupGetter__" ∷ "__lookupSetter__" ∷ []

-- Whether `record[key]` is truthy: an entry of the record, or an inherited property.
unfoldable pub has_slot {ℓ} : {V : Type ℓ} → String → Dict String V → Bool
has_slot key d = has key d || contains inherited_names key

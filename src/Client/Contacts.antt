-- ===== src/Client/Contacts.antt =====
-- src/contacts-store.ts and src/contact-verification.ts: whom the user trusts. The
-- JSON in localStorage is left out: the list and the record that it holds are the state. The exchange of keys in links is not modelled.
use quantum_bunker.Base.{
  ℕ, String, Bool, true, false, not, List, [], ◌∷◌, ◌++◌, Option, none, some, if◌then◌else◌, ◌==◌,
  keep_if, string_eq, ◌<>◌,
}
use quantum_bunker.Base.Dict.{Dict, lookup, insert, erase, has}
use quantum_bunker.Shared.Text.{trim}
use quantum_bunker.Shared.Fingerprints.{fingerprint_public_key, fingerprint_matches}
pub mod Trust

pub record Contact : Type 0 where
  pub label : String
  pub public_key : String
  pub membership_token : Option String
  pub pinned_fingerprint : String
  pub added_at : ℕ

abbrev pub or_text : String → String → String
or_text s other = if s == "" then other else s

-- `s.slice(0, 8)`, by characters.
unfoldable pub first_chars : List ℕ → String → String
first_chars [] s = String.[]
first_chars (n ∷ left) String.[] = String.[]
first_chars (n ∷ left) (String.◌∷◌ c s) = String.◌∷◌ c (first_chars left s)

abbrev pub eight : List ℕ
eight = 1 ∷ 2 ∷ 3 ∷ 4 ∷ 5 ∷ 6 ∷ 7 ∷ 8 ∷ []

unfoldable pub find_contact : String → List Contact → Option Contact
find_contact key [] = none
find_contact key (c ∷ contacts) = if c.public_key == key then some c else find_contact key contacts

-- A token that is not given leaves the one that is there.
abbrev pub token_after : Option (Option String) → Option String → Option String
token_after none old = old
token_after (some token) old = token

abbrev pub given_token : Option (Option String) → Option String
given_token none = none
given_token (some token) = token

abbrev pub relabelled : String → Option (Option String) → Contact → Contact
relabelled label token c = record c {
  label = or_text (trim label) c.label;
  membership_token = token_after token c.membership_token;
}

-- The contact that was found, in its place.
unfoldable pub update_contact :
    (key label : String) → Option (Option String) → List Contact → List Contact
update_contact key label token [] = []
update_contact key label token (c ∷ contacts) =
    let rest = update_contact key label token contacts in
    if c.public_key == key then relabelled label token c ∷ contacts else c ∷ rest

unfoldable pub revoke_contact : (public_key : String) → List Contact → List Contact
unfolding trim
revoke_contact public_key contacts = keep_if (λ c. not (c.public_key == trim public_key)) contacts

module _ (digest_of : String → Option (List ℕ)) where
  unfoldable pub new_contact : (now : ℕ) → (key label : String) → Option (Option String) → Contact
  unfolding trim first_chars fingerprint_public_key
  new_contact now key label token = record {
    label = or_text (trim label) (first_chars eight key);
    public_key = key;
    membership_token = given_token token;
    pinned_fingerprint = fingerprint_public_key digest_of key;
    added_at = now;
  }

  unfoldable pub upsert_contact :
      (now : ℕ) → (public_key label : String) → Option (Option String) → List Contact → List Contact
  unfolding new_contact update_contact find_contact trim
  upsert_contact now public_key label token contacts =
      let key = trim public_key in
      if key == "" then contacts else elim (find_contact key contacts) [
        | none ↦ contacts ++ (new_contact now key label token ∷ [])
        | some c ↦ update_contact key label token contacts
      ]

  unfoldable pub is_pin_intact : Contact → Bool
  unfolding fingerprint_matches
  is_pin_intact c = fingerprint_matches digest_of c.public_key c.pinned_fingerprint

pub data ContactStatus : Type 0 where
  unverified verified changed : ContactStatus

pub record PinnedContact : Type 0 where
  pub fingerprint : String
  pub verified_at : ℕ

unfoldable pub contact_key : (session_id peer_id : String) → String
contact_key session_id peer_id = session_id <> (":" <> peer_id)

-- A fingerprint that is empty counts as missing.
unfoldable pub contact_status : Option PinnedContact → Option String → ContactStatus
contact_status none current = unverified
contact_status (some pin) none = unverified
contact_status (some pin) (some current) =
    if current == "" then unverified else (if pin.fingerprint == current then verified else changed)

unfoldable pub pin_contact :
    (now : ℕ) → (key fingerprint : String) → Dict String PinnedContact → Dict String PinnedContact
pin_contact now key fingerprint pins =
    insert key (record { fingerprint = fingerprint; verified_at = now }) pins

unfoldable pub unpin_contact : String → Dict String PinnedContact → Dict String PinnedContact
unpin_contact key pins = if has key pins then erase key pins else pins

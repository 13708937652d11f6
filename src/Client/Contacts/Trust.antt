-- ===== src/Client/Contacts/Trust.antt =====
-- What the contacts and the pins promise.
use quantum_bunker.Base.{
  ℕ, String, ◌≡◌, inl, inr, refl, arith, Bool, not, List, [], ◌∷◌, ◌++◌, Option, none, some,
  if◌then◌else◌, ◌==◌, All, keep_if, string_eq, Bool-cases, Option-cases, if_both,
}
use quantum_bunker.Shared.Text.{trim}
use quantum_bunker.Shared.Fingerprints.{fingerprint_public_key, fingerprint_matches-own}
use quantum_bunker.Client.Contacts.{
  Contact, find_contact, update_contact, revoke_contact, first_chars, eight, relabelled,
  new_contact, upsert_contact, is_pin_intact,
}

module _ (digest_of : String → Option (List ℕ)) where
  -- What becomes of the entry of one key, by an upsert.
  abbrev pub entry_after :
      (now : ℕ) (key label : String) (token : Option (Option String)) → Option Contact → Contact
  entry_after now key label token none = record {
    label = if trim label == "" then first_chars eight key else trim label;
    public_key = key;
    membership_token = elim token [ none ↦ none | some given ↦ given ];
    pinned_fingerprint = fingerprint_public_key digest_of key;
    added_at = now;
  }
  entry_after now key label token (some c) = record {
    label = if trim label == "" then c.label else trim label;
    public_key = c.public_key;
    membership_token = elim token [ none ↦ c.membership_token | some given ↦ given ];
    pinned_fingerprint = c.pinned_fingerprint;
    added_at = c.added_at;
  }

  new_contact-entry_after :
      (now : ℕ) (key label : String) (token : Option (Option String))
      → new_contact digest_of now key label token ≡ entry_after now key label token none
  unfolding new_contact
  new_contact-entry_after now key label none = refl
  new_contact-entry_after now key label (some given) = refl

  relabelled-entry_after :
      (now : ℕ) (key label : String) (token : Option (Option String)) (c : Contact)
      → relabelled label token c ≡ entry_after now key label token (some c)
  relabelled-entry_after now key label none c = refl
  relabelled-entry_after now key label (some given) c = refl

  new_contact-key :
      (now : ℕ) (key label : String) (token : Option (Option String))
      → (new_contact digest_of now key label token).public_key ≡ key
  unfolding new_contact
  new_contact-key now key label token = refl

  find_contact-append :
      (key : String) (contacts : List Contact) (c : Contact)
      → find_contact key (contacts ++ (c ∷ [])) ≡ elim (find_contact key contacts) [
        | none ↦ if c.public_key == key then some c else none
        | some d ↦ some d
      ]
  unfolding find_contact
  find_contact-append key [] c = ground arith
  find_contact-append key (d ∷ contacts) c = ground (arith, find_contact-append key contacts c)

  find_contact-update :
      (key other label : String) (token : Option (Option String)) (contacts : List Contact)
      (c : Contact)
      → find_contact other contacts ≡ some c
      → find_contact key (update_contact other label token contacts)
        ≡ (if key == other then some (relabelled label token c) else find_contact key contacts)
  unfolding find_contact update_contact
  find_contact-update key other label token [] c h = cc
  find_contact-update key other label token (d ∷ contacts) c h =
      ground (arith, h, find_contact-update key other label token contacts c)

  -- An upsert of a key that is not blank changes the entry of that key alone. A new contact has the time,
  -- the token that is given or none, and is pinned by the key's fingerprint; its label is the trimmed
  -- one, or the first eight characters of the key if that is blank. A contact that is there keeps its
  -- key, its pin and its time, and its token and label unless a token or a label that is not blank is
  -- given. An upsert of a blank key changes nothing.
  pub find_contact-upsert :
      (now : ℕ) (public_key label key : String) (token : Option (Option String))
      (contacts : List Contact)
      → find_contact key (upsert_contact digest_of now public_key label token contacts) ≡ (
          if trim public_key == ""
          then find_contact key contacts
          else (if key == trim public_key
              then some (
                  entry_after now
                    (trim public_key)
                    label
                    token
                    (find_contact (trim public_key) contacts))
              else find_contact key contacts))
  unfolding upsert_contact
  find_contact-upsert now public_key label key token contacts =
      let pk = trim public_key in
      elim (Option-cases (find_contact pk contacts)) [
        | inl missing ↦ ground (
          arith,
          missing,
          new_contact-entry_after now pk label token,
          find_contact-append key contacts (new_contact digest_of now pk label token),
          new_contact-key now pk label token,
        )
        | inr (c, there) ↦ ground (
          arith,
          there,
          relabelled-entry_after now pk label token c,
          find_contact-update key pk label token contacts c there,
        )
      ]

  -- One entry for each key, which is pinned by its fingerprint.
  abbrev pub Pinned : List Contact → Type 0
  Pinned [] = Unit
  Pinned (c ∷ contacts) =
      (find_contact c.public_key contacts ≡ none)
      × (c.pinned_fingerprint ≡ fingerprint_public_key digest_of c.public_key)
      × Pinned contacts

  Pinned-append :
      (contacts : List Contact) (c : Contact)
      → Pinned contacts
      → find_contact c.public_key contacts ≡ none
      → c.pinned_fingerprint ≡ fingerprint_public_key digest_of c.public_key
      → Pinned (contacts ++ (c ∷ []))
  unfolding find_contact
  Pinned-append [] c p new own = (refl, own, tt)
  Pinned-append (d ∷ contacts) c (first, pin, p) new own = (
    ground (arith, first, new, find_contact-append d.public_key contacts c),
    pin,
    Pinned-append contacts c p (ground (arith, new)) own,
  )

  find_contact-update-none :
      (key other label : String) (token : Option (Option String)) (contacts : List Contact)
      → find_contact key contacts ≡ none
      → find_contact key (update_contact other label token contacts) ≡ none
  unfolding find_contact update_contact
  find_contact-update-none key other label token [] h = refl
  find_contact-update-none key other label token (d ∷ contacts) h =
      ground (arith, h, find_contact-update-none key other label token contacts)

  update_contact-Pinned :
      (key label : String) (token : Option (Option String)) (contacts : List Contact)
      → Pinned contacts
      → Pinned (update_contact key label token contacts)
  unfolding update_contact
  update_contact-Pinned key label token [] p = tt
  update_contact-Pinned key label token (c ∷ contacts) (first, pin, p) =
      elim (Bool-cases (c.public_key == key)) [
        | inl same ↦ rw same (first, pin, p)
        | inr other ↦ rw other (
          find_contact-update-none c.public_key key label token contacts first,
          pin,
          update_contact-Pinned key label token contacts p,
        )
      ]

  find_contact-keep_if-none :
      (key : String) (test : Contact → Bool) (contacts : List Contact)
      → find_contact key contacts ≡ none
      → find_contact key (keep_if test contacts) ≡ none
  unfolding find_contact
  find_contact-keep_if-none key test [] h = refl
  find_contact-keep_if-none key test (d ∷ contacts) h =
      ground (arith, h, find_contact-keep_if-none key test contacts)

  keep_if-Pinned :
      (test : Contact → Bool) (contacts : List Contact)
      → Pinned contacts
      → Pinned (keep_if test contacts)
  keep_if-Pinned test [] p = tt
  keep_if-Pinned test (c ∷ contacts) (first, pin, p) = elim (Bool-cases (test c)) [
    | inl kept ↦
        rw (kept, Pinned)
          (
            find_contact-keep_if-none c.public_key test contacts first,
            pin,
            keep_if-Pinned test contacts p,
          )
    | inr dropped ↦ rw (dropped, Pinned) (keep_if-Pinned test contacts p)
  ]

  upsert_contact-Pinned :
      (now : ℕ) (public_key label : String) (token : Option (Option String))
      (contacts : List Contact)
      → Pinned contacts
      → Pinned (upsert_contact digest_of now public_key label token contacts)
  unfolding upsert_contact new_contact
  upsert_contact-Pinned now public_key label token contacts p =
      let pk = trim public_key in
      if_both Pinned (pk == "") p (elim (Option-cases (find_contact pk contacts)) [
        | inl missing ↦
            rw missing
              (Pinned-append contacts (new_contact digest_of now pk label token) p missing refl)
        | inr (c, there) ↦ rw there (update_contact-Pinned pk label token contacts p)
      ])

  -- The contacts that a device may come to hold.
  pub data Reach : List Contact → Type 0 where
    begin : Reach []
    upserted :
        {contacts : List Contact} (now : ℕ) (public_key label : String)
        (token : Option (Option String))
        → Reach contacts
        → Reach (upsert_contact digest_of now public_key label token contacts)
    revoked :
        {contacts : List Contact} (public_key : String)
        → Reach contacts
        → Reach (revoke_contact public_key contacts)

  Reach-Pinned : {contacts : List Contact} → Reach contacts → Pinned contacts
  unfolding revoke_contact
  Reach-Pinned begin = tt
  Reach-Pinned (upserted {contacts = contacts} now public_key label token r) =
      upsert_contact-Pinned now public_key label token contacts (Reach-Pinned r)
  Reach-Pinned (revoked {contacts = contacts} public_key r) =
      keep_if-Pinned _ contacts (Reach-Pinned r)

  every_pin_intact :
      (contacts : List Contact)
      → Pinned contacts
      → All
          (λ c.
            is_pin_intact digest_of c ≡ not (fingerprint_public_key digest_of c.public_key == ""))
          contacts
  unfolding is_pin_intact
  every_pin_intact [] p = tt
  every_pin_intact (c ∷ contacts) (first, pin, p) =
      (rw pin (fingerprint_matches-own digest_of c.public_key), every_pin_intact contacts p)

  -- However contacts were pinned, pinned again and revoked: no key is there twice, and each pin is intact,
  -- but for keys that have no fingerprint since they are not base64.
  pub Reach-intact :
      (contacts : List Contact)
      → Reach contacts
      → Pinned contacts
        × All
            (λ c.
              is_pin_intact digest_of c ≡ not (fingerprint_public_key digest_of c.public_key == ""))
            contacts
  Reach-intact contacts r = (Reach-Pinned r, every_pin_intact contacts (Reach-Pinned r))

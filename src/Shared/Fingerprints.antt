-- ===== src/Shared/Fingerprints.antt =====
-- src/shared/membership.ts: the fingerprints of public keys. `digest_of` is SHA-256 of the bytes of a key in
-- base64, and gives none where the text is not base64.
use quantum_bunker.Base.{
  ℕ, ◌/◌, ◌%◌, String, ◌<>◌, Bool, false, ◌||◌, List, [], ◌∷◌, Option, none, some, if◌then◌else◌,
  ◌==◌, take, get_elem?, string_eq, ◌≡◌, arith, not, Option-cases, inl, inr,
}

abbrev pub fingerprint_bytes : ℕ
fingerprint_bytes = 16

abbrev pub legacy_fingerprint_bytes : ℕ
legacy_fingerprint_bytes = 8

abbrev pub capital_digits : List String
capital_digits =
    "0" ∷ "1" ∷ "2" ∷ "3" ∷ "4" ∷ "5" ∷ "6" ∷ "7" ∷ "8" ∷ "9" ∷ "A" ∷ "B" ∷ "C" ∷ "D" ∷ "E" ∷ "F"
    ∷ []

abbrev pub capital_digit : ℕ → String
capital_digit n = elim (get_elem? capital_digits n) [ none ↦ "" | some d ↦ d ]

abbrev pub capital_byte : ℕ → String
capital_byte b = capital_digit (b / 16) <> capital_digit (b % 16)

abbrev pub join_group : String → String → String
join_group group rest = if rest == "" then group else group <> (" " <> rest)

-- Groups of four digits, which are two bytes.
unfoldable pub hex_groups : List ℕ → String
hex_groups [] = ""
hex_groups (a ∷ []) = ""
hex_groups (a ∷ b ∷ bytes) = join_group (capital_byte a <> capital_byte b) (hex_groups bytes)

module _ (digest_of : String → Option (List ℕ)) where
  -- None where the code throws.
  unfoldable pub fingerprint_of_length : String → ℕ → Option String
  unfolding hex_groups
  fingerprint_of_length key bytes = elim (digest_of key) [
    | none ↦ none
    | some digest ↦ some (hex_groups (take bytes digest))
  ]

  unfoldable pub fingerprint_public_key : String → String
  unfolding fingerprint_of_length
  fingerprint_public_key key = elim (fingerprint_of_length key fingerprint_bytes) [
    | none ↦ ""
    | some print ↦ print
  ]

  abbrev pub is_print : Option String → String → Bool
  is_print none pinned = false
  is_print (some print) pinned = print == pinned

  unfoldable pub fingerprint_matches : (key pinned : String) → Bool
  unfolding fingerprint_of_length
  fingerprint_matches key pinned =
      if pinned == ""
      then false
      else is_print (fingerprint_of_length key fingerprint_bytes) pinned
        || is_print (fingerprint_of_length key legacy_fingerprint_bytes) pinned

  pub fingerprint_matches-own :
      (key : String)
      → fingerprint_matches key (fingerprint_public_key key)
        ≡ not (fingerprint_public_key key == "")
  unfolding fingerprint_matches fingerprint_public_key
  fingerprint_matches-own key = elim (Option-cases (fingerprint_of_length key fingerprint_bytes)) [
    | inl missing ↦ ground (arith, missing)
    | inr (print, there) ↦ ground (arith, there)
  ]

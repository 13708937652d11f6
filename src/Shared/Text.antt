-- ===== src/Shared/Text.antt =====
-- The string operations of the language that the sources use.
use Prim.Native.Char.{Char, code}
use quantum_bunker.Base.{
  ℕ, ◌+◌, List, [], ◌∷◌, String, Bool, true, false, ltb, ◌&&◌, ◌||◌, leb, if◌then◌else◌, ◌==◌,
  nat_eq, string_eq, ◌≡◌, refl, arith, ℕ_discrete,
}

-- White space and line ends, by code point.
unfoldable pub is_space : ℕ → Bool
is_space c =
    leb 9 c && leb c 13
    || (c == 32
        || (c == 160
            || (c == 0x1680
                || (leb 0x2000 c && leb c 0x200a
                    || (c == 0x2028
                        || (c == 0x2029
                            || (c == 0x202f || (c == 0x205f || (c == 0x3000 || c == 0xfeff)))))))))

unfoldable pub trim_start : String → String
unfolding is_space
trim_start String.[] = String.[]
trim_start (String.◌∷◌ c s) =
    let rest = trim_start s in if is_space (code c) then rest else String.◌∷◌ c s

unfoldable pub trim_end : String → String
unfolding is_space
trim_end String.[] = String.[]
trim_end (String.◌∷◌ c s) =
    let rest = trim_end s in
    if rest == "" && is_space (code c) then String.[] else String.◌∷◌ c rest

unfoldable pub trim : String → String
unfolding trim_start trim_end
trim s = trim_end (trim_start s)

-- `s.every(c => test(c))`.
unfoldable pub every : (ℕ → Bool) → String → Bool
every test String.[] = true
every test (String.◌∷◌ c s) = test (code c) && every test s

trim_runs : trim "  a b " ≡ "a b"
unfolding trim ℕ_discrete string_eq
trim_runs = refl

-- `a < b` on texts. The language compares code units, which for characters past U+FFFF may differ.
unfoldable pub is_before : String → String → Bool
is_before String.[] String.[] = false
is_before String.[] (String.◌∷◌ d t) = true
is_before (String.◌∷◌ c s) String.[] = false
is_before (String.◌∷◌ c s) (String.◌∷◌ d t) =
    let rest = is_before s t in
    if ltb (code c) (code d) then true else (if ltb (code d) (code c) then false else rest)

pub is_before_irrefl : (s : String) → is_before s s ≡ false
unfolding is_before
is_before_irrefl String.[] = refl
is_before_irrefl (String.◌∷◌ c s) = ground (arith, is_before_irrefl s)

pub is_before_asym : (s t : String) → is_before s t ≡ true → is_before t s ≡ false
unfolding is_before
is_before_asym String.[] String.[] h = refl
is_before_asym String.[] (String.◌∷◌ d t) h = refl
is_before_asym (String.◌∷◌ c s) String.[] h = cc
is_before_asym (String.◌∷◌ c s) (String.◌∷◌ d t) h = ground (arith, is_before_asym s t)

-- `s.toLowerCase().startsWith(prefix)` for a prefix of small letters and signs: among the letters that it
-- is asked about, only `A` to `Z` become small ones.
abbrev pub lower_code : ℕ → ℕ
lower_code c = if leb 65 c && leb c 90 then c + 32 else c

unfoldable pub starts_with_lower : (prefix : String) → String → Bool
starts_with_lower String.[] s = true
starts_with_lower (String.◌∷◌ d t) String.[] = false
starts_with_lower (String.◌∷◌ d t) (String.◌∷◌ c s) =
    lower_code (code c) == code d && starts_with_lower t s

abbrev pub prepend_to : Char → List String → List String
prepend_to c [] = String.◌∷◌ c String.[] ∷ []
prepend_to c (w ∷ ws) = String.◌∷◌ c w ∷ ws

-- `s.split(separator)`, for a separator of one character.
unfoldable pub split_on : (ℕ → Bool) → String → List String
split_on is_separator String.[] = String.[] ∷ []
split_on is_separator (String.◌∷◌ c s) =
    let rest = split_on is_separator s in
    if is_separator (code c) then String.[] ∷ rest else prepend_to c rest

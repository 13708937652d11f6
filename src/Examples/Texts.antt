-- ===== src/Examples/Texts.antt =====
-- A toy base64.
use quantum_bunker.Base.{
  ℕ, zero, suc, ◌+◌, String, ◌≡◌, refl, ap, ◌∙◌, arith, List, [], ◌∷◌, ◌==◌, string_eq,
  if◌then◌else◌,
}

-- A text for each list of numbers, in unary.
unfoldable pub unary : ℕ → String → String
unary zero s = String.◌∷◌ "b" s
unary (suc n) s = String.◌∷◌ "a" (unary n s)

unfoldable pub text_of : List ℕ → String
unfolding unary
text_of [] = String.[]
text_of (n ∷ ns) = unary n (text_of ns)

unfoldable pub bytes_from : ℕ → String → List ℕ
bytes_from n String.[] = []
bytes_from n (String.◌∷◌ c s) =
    let more = bytes_from (suc n) s in
    let next = n ∷ bytes_from 0 s in if String.◌∷◌ c String.[] == "a" then more else next

bytes_from-unary : (n k : ℕ) (s : String) → bytes_from k (unary n s) ≡ (n + k) ∷ bytes_from 0 s
unfolding bytes_from unary string_eq
bytes_from-unary zero k s = ap (λ m. m ∷ bytes_from 0 s) (omega arith)
bytes_from-unary (suc n) k s =
    bytes_from-unary n (suc k) s ∙ ap (λ m. m ∷ bytes_from 0 s) (omega arith)

pub bytes_from-text_of : (b : List ℕ) → bytes_from 0 (text_of b) ≡ b
unfolding text_of bytes_from
bytes_from-text_of [] = refl
bytes_from-text_of (n ∷ ns) =
    bytes_from-unary n 0 (text_of ns)
    ∙ ap (λ m. m ∷ bytes_from 0 (text_of ns)) (omega arith)
    ∙ ap (λ l. n ∷ l) (bytes_from-text_of ns)

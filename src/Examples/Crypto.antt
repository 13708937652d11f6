-- ===== src/Examples/Crypto.antt =====
-- Toy cryptography that keeps the promises of the third-party functions.
use Prim.Native.Nat.{Ordering, compare}
use Prim.Native.Char.{Char, char, code, nul, IsLt, IsScalar}
use quantum_bunker.Base.{
  ℕ, suc, ◌*◌, String, ◌≡◌, ◌<◌, refl, ap, subst, ◌∙◌, arith, false, [], ◌∷◌, ◌++◌, Option, none,
  some, ◌==◌, length, length-append, take, replicate, length-replicate, nat_eq, string_eq,
}
use quantum_bunker.Client.FileStream.{Bytes}
use quantum_bunker.Client.Ratchet.{DrKeyPair, RatchetCrypto}
use quantum_bunker.Client.Ratchet.Channel.{RatchetWorks}
use quantum_bunker.Client.Noise.{NoiseCrypto, tag_length}
use quantum_bunker.Client.Noise.Agreement.{NoiseWorks}
use quantum_bunker.Client.ChannelBasics.{
  KemKeyPair, ChannelCrypto, kem_public_key_bytes, kem_ciphertext_bytes, dr_key_bytes,
}
use quantum_bunker.Client.PeerChannels.Meeting.{ChannelWorks}
use quantum_bunker.Examples.Texts.{text_of, bytes_from, bytes_from-text_of, unary}
use quantum_bunker.Examples.Ratchets.{after_key, after_key-append, first_byte, toy_ratchet}

abbrev pub tag : Bytes → Bytes
tag key = replicate tag_length (first_byte key)

abbrev pub toy_noise : NoiseCrypto
toy_noise = record {
  sha256 = take 32;
  hkdf = λ ck ikm. (ikm ++ ck, ikm);
  shared_key = λ secret public. some ((first_byte secret * first_byte public) ∷ []);
  seal = λ key nonce plain ad. tag key ++ plain;
  unseal = λ key nonce sealed ad. after_key (tag key) sealed;
}

-- A public key is made of the first byte of the secret key.
abbrev pub Genuine : DrKeyPair → Type 0
Genuine pair = pair.public_key ≡ replicate dr_key_bytes (first_byte pair.secret_key)

first_byte_of :
    (a b : DrKeyPair)
    → Genuine b
    → first_byte a.secret_key * first_byte b.public_key
      ≡ first_byte a.secret_key * first_byte b.secret_key
first_byte_of a b g = ap (λ k. first_byte a.secret_key * first_byte k) g

toy_agrees :
    (a b : DrKeyPair)
    → Genuine a
    → Genuine b
    → first_byte a.secret_key * first_byte b.public_key
      ≡ first_byte b.secret_key * first_byte a.public_key
toy_agrees a b ga gb = omega (arith, first_byte_of a b gb, first_byte_of b a ga)

pub toy_noise-NoiseWorks : NoiseWorks toy_noise Genuine
toy_noise-NoiseWorks = record {
  public_length = λ a g. ap length g;
  agrees = λ a b ga gb. (_, refl, ap (λ (n : ℕ). some (n ∷ [])) (toy_agrees b a gb ga));
  opens = λ key n plain ad. after_key-append (tag key) plain;
  seal_length = λ key n plain ad. omega (arith, length-append (tag key) plain);
}

abbrev pub code_list : String → Bytes
code_list String.[] = []
code_list (String.◌∷◌ c s) = code c ∷ code_list s

-- The built-in `IsScalar n` unfolds to these.
abbrev Both : Ordering → Ordering → Type 0
Both Ordering.lt o = IsLt o
Both Ordering.eq _ = ⊥
Both Ordering.gt _ = ⊥

abbrev Scalar : Ordering → Ordering → Ordering → Type 0
Scalar Ordering.lt _ _ = Unit
Scalar Ordering.eq o p = Both o p
Scalar Ordering.gt o p = Both o p

abbrev both_found : (o p : Ordering) → Option (Both o p)
both_found Ordering.lt Ordering.lt = some tt
both_found Ordering.lt Ordering.eq = none
both_found Ordering.lt Ordering.gt = none
both_found Ordering.eq p = none
both_found Ordering.gt p = none

abbrev scalar_found : (o p q : Ordering) → Option (Scalar o p q)
scalar_found Ordering.lt p q = some tt
scalar_found Ordering.eq p q = both_found p q
scalar_found Ordering.gt p q = both_found p q

both_found-some : (o p : Ordering) (s : Both o p) → both_found o p ≡ some s
both_found-some Ordering.lt Ordering.lt tt = refl
both_found-some Ordering.lt Ordering.eq s = absurd s
both_found-some Ordering.lt Ordering.gt s = absurd s
both_found-some Ordering.eq p s = absurd s
both_found-some Ordering.gt p s = absurd s

scalar_found-some : (o p q : Ordering) (s : Scalar o p q) → scalar_found o p q ≡ some s
scalar_found-some Ordering.lt p q tt = refl
scalar_found-some Ordering.eq p q s = both_found-some p q s
scalar_found-some Ordering.gt p q s = both_found-some p q s

abbrev char_of : (n : ℕ) → Option (IsScalar n) → Char
char_of n none = nul
char_of n (some s) = char n s

abbrev pub from_codes : Bytes → String
from_codes [] = String.[]
from_codes (n ∷ ns) =
    String.◌∷◌ (char_of n (scalar_found (compare n 55296) (compare 57343 n) (compare n 1114112)))
      (from_codes ns)

char_of-code :
    (c : Char)
    → char_of
        (code c)
        (scalar_found (compare (code c) 55296) (compare 57343 (code c)) (compare (code c) 1114112))
      ≡ c
char_of-code (char n s) =
    ap (char_of n) (scalar_found-some (compare n 55296) (compare 57343 n) (compare n 1114112) s)

pub from_codes-code_list : (s : String) → from_codes (code_list s) ≡ s
from_codes-code_list String.[] = refl
from_codes-code_list (String.◌∷◌ c s) =
    ap (λ d. String.◌∷◌ d (from_codes (code_list s))) (char_of-code c)
    ∙ ap (String.◌∷◌ c) (from_codes-code_list s)

abbrev pub tagged_ratchet : RatchetCrypto
tagged_ratchet = record toy_ratchet {
  seal = λ key nonce plain ad. 7 ∷ key ++ plain;
  unseal = λ key nonce sealed ad. after_key (7 ∷ key) sealed;
}

abbrev pub toy_channels : ChannelCrypto
toy_channels = record {
  noise = toy_noise;
  dr = tagged_ratchet;
  encapsulate =
      λ coins public. (replicate kem_ciphertext_bytes (first_byte coins), first_byte coins ∷ []);
  decapsulate = λ ciphertext secret. take 1 ciphertext;
  expand_hybrid = λ b. b;
  utf8 = code_list;
  from_utf8 = from_codes;
  from_base64 = λ s. some (bytes_from 0 s);
}

abbrev pub GenuineKem : KemKeyPair → Type 0
GenuineKem pair = length pair.public_key ≡ kem_public_key_bytes

abbrev Cons : String → Type 0
Cons String.[] = ⊥
Cons (String.◌∷◌ c s) = Unit

Cons-full : (s : String) → Cons s → (s == "") ≡ false
Cons-full s c = let not_empty : ¬ (s ≡ "") = λ e. subst Cons e c in ground (arith, not_empty)

unary-full : (n : ℕ) (s : String) → (unary n s == "") ≡ false
unfolding unary
unary-full ℕ.zero s = Cons-full _ tt
unary-full (suc n) s = Cons-full _ tt

text_of-full : (b : Bytes) → 0 < length b → (text_of b == "") ≡ false
unfolding text_of
text_of-full [] h = absurd (omega (arith, h))
text_of-full (n ∷ ns) h = unary-full n (text_of ns)

pub tagged_ratchet-RatchetWorks : RatchetWorks tagged_ratchet
tagged_ratchet-RatchetWorks = record {
  opens = λ key n plain ad. after_key-append (7 ∷ key) plain;
  decodes = bytes_from-text_of;
}

pub toy_channels-ChannelWorks : ChannelWorks toy_channels Genuine GenuineKem
toy_channels-ChannelWorks = record {
  noise_works = toy_noise-NoiseWorks;
  ratchet_works = tagged_ratchet-RatchetWorks;
  dr_agrees = λ a b ga gb. ap (λ (n : ℕ). n ∷ []) (toy_agrees a b ga gb);
  kem_agrees = λ coins pair g. (length-replicate kem_ciphertext_bytes (first_byte coins), refl);
  kem_length = λ pair g. g;
  decodes = λ b. ap (λ l. some l) (bytes_from-text_of b);
  base64_nonempty = text_of-full;
  seal_nonempty = λ key n plain ad. omega arith;
  utf8_decodes = from_codes-code_list;
}

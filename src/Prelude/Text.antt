-- ===== src/Prelude/Text.antt =====
-- `strings.ToUpper`, `strings.ToLower`, `strings.EqualFold` and `strings.Join`. The case maps move the
-- ASCII letters and leave every other character as it is.
use Prim.Native.Nat.{ℕ, ◌+◌, ◌-◌, ◌<◌}
use Prim.Native.Char.{Char, char, code, IsScalar}
use Prim.Native.String.{String, [], ◌∷◌, ◌++◌}
use mathlib.Core.Path.{◌≡◌, refl, sym, ◌∙◌, ap, ap₂}
use mathlib.Core.Logic.{dite, ◌↔◌}
use mathlib.Core.Bool.{Bool, true}
use mathlib.Core.List.{List, [] as nil, ◌∷◌ as ◌∷ᴸ◌}
use native.Mathlib.Omega.{arith}
use native.Mathlib.Decide.{dec_lt}
use text.Mathlib.Text.{◌==◌ as str_eq}
use text.Mathlib.TextEquality.{eq_iff, Char-path}
use Prim.Native.Nat.{compare, Ordering}

below_surrogates : (n : ℕ) → n < 128 → compare n 55296 ≡ Ordering.lt
below_surrogates n h = ground arith

pub IsScalar-of_lt : (n : ℕ) → n < 128 → IsScalar n
IsScalar-of_lt n h = rw (below_surrogates n h) tt

upper_char : Char → Char
unfolding dec_lt
upper_char c =
    dite (dec_lt (code c) b'{')
      (λ h.
        dite (dec_lt b'`' (code c))
          (λ _. char (code c - 32) (IsScalar-of_lt (code c - 32) (omega arith))) (λ _. c))
      (λ _. c)

lower_char : Char → Char
unfolding dec_lt
lower_char c =
    dite (dec_lt (code c) b'[')
      (λ h.
        dite (dec_lt b'@' (code c))
          (λ _. char (code c + 32) (IsScalar-of_lt (code c + 32) (omega arith))) (λ _. c))
      (λ _. c)

unfoldable pub to_upper : String → String
unfolding upper_char
to_upper [] = []
to_upper (c ∷ s) = upper_char c ∷ to_upper s

unfoldable pub to_lower : String → String
unfolding lower_char
to_lower [] = []
to_lower (c ∷ s) = lower_char c ∷ to_lower s

-- `strings.EqualFold`
unfoldable pub equal_fold : String → String → Bool
unfolding to_lower
equal_fold s t = str_eq (to_lower s) (to_lower t)

-- `strings.Join`
unfoldable pub join : List String → String → String
join nil sep = ""
join (x ∷ᴸ nil) sep = x
join (x ∷ᴸ y ∷ᴸ xs) sep = x ++ (sep ++ join (y ∷ᴸ xs) sep)

upper_char-lower_char : (c : Char) → upper_char (lower_char c) ≡ upper_char c
unfolding upper_char lower_char
upper_char-lower_char c = Char-path _ _ (ground arith)

lower_char-upper_char : (c : Char) → lower_char (upper_char c) ≡ lower_char c
unfolding upper_char lower_char
lower_char-upper_char c = Char-path _ _ (ground arith)

upper_char_idem : (c : Char) → upper_char (upper_char c) ≡ upper_char c
unfolding upper_char
upper_char_idem c = Char-path _ _ (ground arith)

pub to_upper-to_lower : (s : String) → to_upper (to_lower s) ≡ to_upper s
unfolding to_upper to_lower
to_upper-to_lower [] = refl
to_upper-to_lower (c ∷ s) = ap₂ (λ c s. c ∷ s) (upper_char-lower_char c) (to_upper-to_lower s)

pub to_lower-to_upper : (s : String) → to_lower (to_upper s) ≡ to_lower s
unfolding to_upper to_lower
to_lower-to_upper [] = refl
to_lower-to_upper (c ∷ s) = ap₂ (λ c s. c ∷ s) (lower_char-upper_char c) (to_lower-to_upper s)

pub to_upper_idem : (s : String) → to_upper (to_upper s) ≡ to_upper s
unfolding to_upper
to_upper_idem [] = refl
to_upper_idem (c ∷ s) = ap₂ (λ c s. c ∷ s) (upper_char_idem c) (to_upper_idem s)

-- Two texts are equal up to case exactly when their upper case is the same.
pub equal_fold_iff : (s t : String) → (equal_fold s t ≡ true) ↔ (to_upper s ≡ to_upper t)
unfolding equal_fold
equal_fold_iff s t = (
  λ h. sym (to_upper-to_lower s) ∙ ap to_upper ((eq_iff _ _).0 h) ∙ to_upper-to_lower t,
  λ h. (eq_iff _ _).1 (sym (to_lower-to_upper s) ∙ ap to_lower h ∙ to_lower-to_upper t),
)

fold_examples :
    (to_upper "Create_Time1{" ≡ "CREATE_TIME1{")
    × (to_lower "AZ[@z" ≡ "az[@z")
    × (equal_fold "PublicId" "pUBLICiD" ≡ true)
    × (join ("a" ∷ᴸ "b" ∷ᴸ nil) " and " ≡ "a and b")
unfolding to_upper to_lower equal_fold join
fold_examples = (refl, refl, refl, refl)

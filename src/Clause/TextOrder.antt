-- ===== src/Clause/TextOrder.antt =====
-- Go's order on texts, which `sort.Strings` follows: of two texts one is at most the other.
use Prim.Native.Nat.{ℕ, compare as compare_ℕ, Ordering}
use Prim.Native.String.{String, [], ◌∷◌, compare, then}
use Prim.Native.String.compare
use Prim.Native.Char.{code}
use native.Mathlib.Omega.{compare-gt, arith}
use mathlib.Core.Path.{◌≡◌, refl, sym, ◌∙◌, ap}
use mathlib.Core.Logic.{◌⊎◌, inl, inr}
use mathlib.Core.Bool.{true, false}
use go_dbw.Clause.{text_le}

then-gt :
    (o p : Ordering)
    → then o p ≡ Ordering.gt
    → (o ≡ Ordering.gt) ⊎ ((o ≡ Ordering.eq) × (p ≡ Ordering.gt))
then-gt Ordering.lt p h = cc
then-gt Ordering.eq p h = inr (refl, h)
then-gt Ordering.gt p h = inl refl

flip_ℕ : (m n : ℕ) → compare_ℕ m n ≡ Ordering.gt → compare_ℕ n m ≡ Ordering.lt
flip_ℕ m n h = let lt = compare-gt m n h in ground arith

flip_eq : (m n : ℕ) → compare_ℕ m n ≡ Ordering.eq → compare_ℕ n m ≡ Ordering.eq
flip_eq m n h = ground arith

flip : (s t : String) → compare s t ≡ Ordering.gt → compare t s ≡ Ordering.lt
flip [] [] h = cc
flip [] (d ∷ t) h = let e : compare [] (d ∷ t) ≡ Ordering.lt = compare.nil-cons d t in cc
flip (c ∷ s) [] h = compare.nil-cons c s
flip (c ∷ s) (d ∷ t) h =
    let e : compare (d ∷ t) (c ∷ s) ≡ then (compare_ℕ (code d) (code c)) (compare t s) =
      compare.cons-cons d c t s in
    elim (then-gt (compare_ℕ (code c) (code d)) (compare s t)
      (sym (compare.cons-cons c d s t) ∙ h)) [
        | inl gt ↦ e ∙ ap (λ o. then o (compare t s)) (flip_ℕ (code c) (code d) gt)
        | inr (eq, gt) ↦
            e ∙ ap (λ o. then o (compare t s)) (flip_eq (code c) (code d) eq) ∙ flip s t gt
      ]

le_of_lt : (s t : String) → compare s t ≡ Ordering.lt → text_le s t ≡ true
unfolding text_le
le_of_lt s t h = rw (text_le, h) refl

gt_of_not_le : (s t : String) → text_le s t ≡ false → compare s t ≡ Ordering.gt
unfolding text_le
gt_of_not_le s t h = ground arith

pub text_le_total : (s t : String) → text_le s t ≡ false → text_le t s ≡ true
text_le_total s t h = le_of_lt t s (flip s t (gt_of_not_le s t h))

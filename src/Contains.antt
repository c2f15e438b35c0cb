-- ===== src/Contains.antt =====
-- `contains` of rw.go: membership up to case.
use go_dbw.Prelude.{
  ◌≡◌, refl, String, Bool, true, false, ◌||◌, List, [], ◌∷◌, equal_fold, equal_fold_iff, to_upper,
  arith, if◌then◌else◌, ◌++◌,
}

unfoldable pub contains : List String → String → Bool
contains [] t = false
contains (s ∷ ss) t = if equal_fold s t then true else contains ss t

-- `contains` looks at its texts up to case only.
contains_fold :
    (ss : List String) (t u : String) → to_upper t ≡ to_upper u → contains ss t ≡ contains ss u
unfolding contains
contains_fold [] t u e = refl
contains_fold (s ∷ ss) t u e =
    ground (arith, equal_fold_iff s t, equal_fold_iff s u, contains_fold ss t u e)

pub contains-append :
    (xs ys : List String) (t : String) → contains (xs ++ ys) t ≡ (contains xs t || contains ys t)
unfolding contains
contains-append [] ys t = refl
contains-append (x ∷ xs) ys t = ground (arith, contains-append xs ys t)

-- The element-wise filter of the loops over paths.
unfoldable pub keep {ℓ} : {A : Type ℓ} → (A → Bool) → List A → List A
keep p [] = []
keep p (x ∷ xs) = if p x then x ∷ keep p xs else keep p xs

-- ===== src/Clause/Sorted.antt =====
-- The order and the contents of the columns that `SetColumnValues` gives.
use Prim.Native.String.{String}
use mathlib.Core.Path.{subst}
use go_dbw.Prelude.{
  ◌≡◌, refl, ap, sym, ◌∙◌, suc, ◌==◌, true, ◌||◌, List, [], ◌∷◌, map, any, length, All, Bool-cases,
  inl, inr, arith, if◌then◌else◌,
}
use go_dbw.Prelude.Dict.{Dict, keys}
use go_dbw.Clause.TextOrder.{text_le_total}
use go_dbw.Clause.{
  text_le, sort_insert, sort_strings, ColumnValue, Assigned, value_at, set_column_values,
}

-- Every text is at most the next.
abbrev pub IsSorted : List String → Type 0
IsSorted [] = Unit
IsSorted (x ∷ []) = Unit
IsSorted (x ∷ y ∷ ys) = (text_le x y ≡ true) × IsSorted (y ∷ ys)

any-sort_insert :
    (k q : String) (ks : List String)
    → any (λ x. x == q) (sort_insert k ks) ≡ ((k == q) || any (λ x. x == q) ks)
unfolding sort_insert
any-sort_insert k q [] = refl
any-sort_insert k q (j ∷ ks) = ground (arith, any-sort_insert k q ks)

any-sort_strings :
    (q : String) (ks : List String) → any (λ x. x == q) (sort_strings ks) ≡ any (λ x. x == q) ks
unfolding sort_strings
any-sort_strings q [] = refl
any-sort_strings q (k ∷ ks) =
    any-sort_insert k q (sort_strings ks) ∙ ap (λ b. (k == q) || b) (any-sort_strings q ks)

length-sort_insert : (k : String) (ks : List String) → length (sort_insert k ks) ≡ suc (length ks)
unfolding sort_insert
length-sort_insert k [] = refl
length-sort_insert k (j ∷ ks) = ground (arith, length-sort_insert k ks)

length-sort_strings : (ks : List String) → length (sort_strings ks) ≡ length ks
unfolding sort_strings
length-sort_strings [] = refl
length-sort_strings (k ∷ ks) =
    length-sort_insert k (sort_strings ks) ∙ ap suc (length-sort_strings ks)

sort_insert-IsSorted : (k : String) (ks : List String) → IsSorted ks → IsSorted (sort_insert k ks)
unfolding sort_insert
sort_insert-IsSorted k [] h = tt
sort_insert-IsSorted k (j ∷ []) h = elim (Bool-cases (text_le k j)) [
  | inl le ↦ rw le (le, tt)
  | inr gt ↦ rw gt (text_le_total k j gt, tt)
]
sort_insert-IsSorted k (j ∷ i ∷ ks) (h, hs) = elim (Bool-cases (text_le k j)) [
  | inl le ↦ rw le (le, (h, hs))
  | inr gt ↦ elim (Bool-cases (text_le k i)) [
    | inl le ↦ rw (gt, le) (text_le_total k j gt, (le, hs))
    | inr gt' ↦
        let ih = sort_insert-IsSorted k (i ∷ ks) hs in
        rw (gt, gt')
          (h, subst (λ b. IsSorted (if b then k ∷ i ∷ ks else i ∷ sort_insert k ks)) gt' ih)
  ]
]

sort_strings-IsSorted : (ks : List String) → IsSorted (sort_strings ks)
unfolding sort_strings
sort_strings-IsSorted [] = tt
sort_strings-IsSorted (k ∷ ks) = sort_insert-IsSorted k (sort_strings ks) (sort_strings-IsSorted ks)

length-keys : {V : Type 0} (m : Dict V) → length (keys m) ≡ length m
unfolding keys
length-keys [] = refl
length-keys ((k, v) ∷ m) = ap suc (length-keys m)

module _ (m : Dict Assigned) where
  abbrev columns_of : List String → List ColumnValue
  columns_of ks = map (λ key. record { column_name = key; value = value_at m key }) ks

  names-columns_of : (ks : List String) → map (λ c. c.column_name) (columns_of ks) ≡ ks
  names-columns_of [] = refl
  names-columns_of (k ∷ ks) = ap (λ js. k ∷ js) (names-columns_of ks)

  length-columns_of : (ks : List String) → length (columns_of ks) ≡ length ks
  length-columns_of [] = refl
  length-columns_of (k ∷ ks) = ap suc (length-columns_of ks)

  any-columns_of :
      (q : String) (ks : List String)
      → any (λ c. c.column_name == q) (columns_of ks) ≡ any (λ k. k == q) ks
  any-columns_of q [] = refl
  any-columns_of q (k ∷ ks) = ap (λ b. (k == q) || b) (any-columns_of q ks)

  columns_of-values :
      (ks : List String) → All (λ c. c.value ≡ value_at m c.column_name) (columns_of ks)
  columns_of-values [] = tt
  columns_of-values (k ∷ ks) = (refl, columns_of-values ks)

  -- The columns of `SetColumnValues` are in order of their names, they are as many as the map has entries, their
  -- names are the map's keys, and each has the map's value at its name.
  pub set_column_values_lem :
      IsSorted (map (λ c. c.column_name) (set_column_values m))
      × (length (set_column_values m) ≡ length m)
      × ((q : String)
          → any (λ c. c.column_name == q) (set_column_values m) ≡ any (λ k. k == q) (keys m))
      × All (λ c. c.value ≡ value_at m c.column_name) (set_column_values m)
  unfolding set_column_values
  set_column_values_lem =
      let ks : List String = sort_strings (keys m) in
      (
        subst IsSorted (sym (names-columns_of ks)) (sort_strings-IsSorted (keys m)),
        length-columns_of ks ∙ length-sort_strings (keys m) ∙ length-keys m,
        (λ q. any-columns_of q ks ∙ any-sort_strings q (keys m)),
        columns_of-values ks,
      )

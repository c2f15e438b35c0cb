-- ===== src/Update/Filtered.antt =====
-- What the filters and checks of `Update` leave: update.go, and the two sets of fields.
use mathlib.Core.Path.{subst₂}
use go_dbw.Prelude.{
  ◌≡◌, refl, ◌∙◌, ap, ◌↔◌, inl, inr, String, ◌==◌, eq_iff, Bool, true, false, not, ◌&&◌, ◌||◌, none,
  some, List, [], ◌∷◌, any, is_empty, Bool-cases, arith, All, equal_fold,
}
use go_dbw.Prelude.Dict.{Dict, lookup, insert, keys}
use go_dbw.Errors.{ok}
use go_dbw.Reflect.{Value, Fields}
use go_dbw.Contains.{contains, keep}
use go_dbw.Common.{Update, to_value, to_null, elements, update_fields}
use go_dbw.Common.Intersection.{Slice}
use go_dbw.Common.Run.{update_fields-Run}
use go_dbw.Common.Sound.{Has, Requested, update_fields_sound}
use go_dbw.Gorm.{SchemaField}
use go_dbw.Action.{State}
use go_dbw.Registry.{
  filter_paths, field_set, slice_of, init_non_updatable_fields, non_updatable_fields,
}
use go_dbw.Update.Checks.{update_columns, Columns, check_primary_fields}

elements-slice_of : (xs : List String) → elements (slice_of xs) ≡ xs
elements-slice_of [] = refl
elements-slice_of (x ∷ xs) = refl

any-keep :
    (p : String → Bool) (q : String) (xs : List String)
    → any (λ x. x == q) (keep p xs) ≡ (any (λ x. x == q) xs && p q)
unfolding keep
any-keep p q [] = refl
any-keep p q (x ∷ xs) = elim (Bool-cases (x == q)) [
  | inl eq ↦ let same : p x ≡ p q = ap p ((eq_iff x q).0 eq) in ground (arith, any-keep p q xs)
  | inr eq ↦ ground (arith, any-keep p q xs)
]

keep_all : (p : String → Bool) (xs : List String) → ((x : String) → p x ≡ true) → keep p xs ≡ xs
unfolding keep
keep_all p [] h = refl
keep_all p (x ∷ xs) h = rw (h x) (ap (λ ys. x ∷ ys) (keep_all p xs h))

-- A path is left by the filter if it was there and is none of the names, up to case.
pub any-filter_paths :
    (names : List String) (paths : Slice) (q : String)
    → any (λ x. x == q) (elements (filter_paths names paths))
      ≡ (any (λ x. x == q) (elements paths) && not (contains names q))
unfolding filter_paths contains
any-filter_paths names none q = refl
any-filter_paths names (some []) q = refl
any-filter_paths [] (some (x ∷ xs)) q = ground arith
any-filter_paths (n ∷ ns) (some (x ∷ xs)) q =
    ap (any (λ x. x == q)) (elements-slice_of (keep (λ p. not (contains (n ∷ ns) p)) (x ∷ xs)))
    ∙ any-keep (λ p. not (contains (n ∷ ns) p)) q (x ∷ xs)

contains-insert :
    (f : String) (m : Dict (Unit {0})) (q : String)
    → contains (keys (insert f tt m)) q ≡ (equal_fold f q || contains (keys m) q)
unfolding insert keys contains
contains-insert f [] q = ground arith
contains-insert f ((j, _) ∷ m) q = elim (Bool-cases (j == f)) [
  | inl eq ↦ let same = ap (λ x. equal_fold x q) ((eq_iff j f).0 eq) in ground arith
  | inr eq ↦ ground (arith, contains-insert f m q)
]

-- The names of the set, up to case, are those that were put in.
contains-field_set :
    (fs : List String) (m : Dict (Unit {0})) (q : String)
    → contains (keys (field_set fs m)) q ≡ (contains (keys m) q || contains fs q)
unfolding field_set contains
contains-field_set [] m q = ground arith
contains-field_set (f ∷ fs) m q =
    ground (arith, contains-field_set fs (insert f tt m) q, contains-insert f m q)

-- After `InitNonUpdatableFields` with some names, `filterPaths` leaves of the paths exactly those that are none of the
-- names, up to case.
pub filter_paths-init :
    {W : Type 0} (names : List String) (s : State W) (paths : Slice) (q : String)
    → any
        (λ x. x == q)
        (elements (filter_paths (non_updatable_fields (init_non_updatable_fields names s)) paths))
      ≡ (any (λ x. x == q) (elements paths) && not (contains names q))
unfolding init_non_updatable_fields non_updatable_fields keys contains
filter_paths-init names s paths q =
    any-filter_paths (keys (field_set names [])) paths q
    ∙ ap (λ b. any (λ x. x == q) (elements paths) && not b) (contains-field_set names [] q)

update_columns_parts :
    (names : List String) (i : Value) (masks nulls : Slice) (c : Columns)
    → update_columns names i masks nulls ≡ ok c
    → (c.masks ≡ filter_paths names masks)
      × (c.nulls ≡ filter_paths names nulls)
      × (update_fields i c.masks c.nulls ≡ ok c.updates)
      × (is_empty c.updates ≡ false)
unfolding update_columns
update_columns_parts names i masks nulls c h = ground arith

Has-kept :
    (names : List String) (paths : Slice) (q : String)
    → Has q (elements (filter_paths names paths))
    → contains names q ≡ false
Has-kept names paths q h = let eq = any-filter_paths names paths q in ground arith

asked_kept :
    (names : List String) (fs : Fields) (masks nulls : Slice) (q : String) (u : Update)
    → Requested fs (elements (filter_paths names masks)) (elements (filter_paths names nulls)) q u
    → contains names q ≡ false
asked_kept names fs masks nulls q (to_value v) (h, _) = Has-kept names masks q h
asked_kept names fs masks nulls q to_null h = Has-kept names nulls q h

-- The columns that `Update` sends are not empty, and none is, up to case, one of the names that may not be
-- updated, whatever the paths of the caller.
pub update_columns_safe :
    (names : List String) (i : Value) (masks nulls : Slice) (c : Columns) (q : String) (u : Update)
    → update_columns names i masks nulls ≡ ok c
    → lookup q c.updates ≡ some u
    → (is_empty c.updates ≡ false) × (contains names q ≡ false)
update_columns_safe names i masks nulls c q u h stored =
    let (same_masks, same_nulls, sent, some_sent) = update_columns_parts names i masks nulls c h in
    let run = update_fields-Run i c.masks c.nulls c.updates sent in
    let asked =
      update_fields_sound i c.masks c.nulls run.fields c.updates q u run.at_fields sent stored in
    (
      some_sent,
      asked_kept names run.fields masks nulls q u (
          subst₂ (λ a b. Requested run.fields (elements a) (elements b) q u) same_masks same_nulls
            asked),
    )

-- The primary fields pass the check of `Update` exactly if each is set in the resource and none is in the
-- mask, up to case.
pub check_primary_fields_iff :
    (v : Value) (masks : List String) (pfs : List SchemaField)
    → check_primary_fields v masks pfs ≡ ok tt
      ↔ All (λ pf. ((pf.value_of v).1 ≡ false) × (contains masks pf.name ≡ false)) pfs
unfolding check_primary_fields
check_primary_fields_iff v masks [] = (λ _. tt, λ _. refl)
check_primary_fields_iff v masks (pf ∷ pfs) = ground (arith, check_primary_fields_iff v masks pfs)

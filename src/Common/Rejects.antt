-- ===== src/Common/Rejects.antt =====
-- When `UpdateFields` refuses its arguments, and when it panics.
use go_dbw.Prelude.{
  ◌≡◌, ◌≢◌, ◌⊎◌, refl, sym, ap, ◌∙◌, String, eq_iff, true, false, List, [], ◌∷◌, map, to_upper,
  to_lower, is_empty, is_some, arith, Option-cases, Bool-cases, inl, inr,
}
use go_dbw.Prelude.Dict.{Dict, lookup}
use go_dbw.Errors.{ok, err, panic}
use go_dbw.Reflect.{
  Value, Fields, FieldInfo, struct, ptr, done, field, to_interface, indirect, is_no_value,
}
use go_dbw.Contains.{contains, keep}
use go_dbw.Common.Intersection.{Slice, intersection_lem, last_match, last_match-contains}
use go_dbw.Common.Sound.{Has}
use go_dbw.Common.{
  Scan, visit_mask, visit_null, visit_embedded, visit_inner, visit_field, visit_fields,
  check_missing, update_fields, to_value, elements, struct_fields, invalid, assign,
}

overlap_kept :
    (av bv : List String) (b : String)
    → Has b bv
    → contains av b ≡ true
    → is_empty (map to_lower (keep (contains av) bv)) ≡ false
unfolding keep
overlap_kept av [] b h c = cc
overlap_kept av (x ∷ bv) b h c = ground (arith, eq_iff x b, overlap_kept av bv b)

is_empty_of_Has : (b : String) (bv : List String) → Has b bv → is_empty bv ≡ false
is_empty_of_Has b [] h = cc
is_empty_of_Has b (x ∷ bv) h = refl

-- A null path that the mask also names, up to case, is an invalid parameter, whatever the resource:
-- no field is looked at.
update_fields_overlap :
    (i : Value) (masks nulls : Slice) (b : String)
    → is_no_value i ≡ false
    → Has b (elements nulls)
    → contains (elements masks) b ≡ true
    → update_fields i masks nulls
      ≡ err (invalid "dbw.UpdateFields: fieldMashPaths and setToNullPaths cannot intersect")
unfolding update_fields
update_fields_overlap i masks nulls b there named both =
    let (r, found, is) = intersection_lem (elements masks) (elements nulls) in
    let kept : is_empty r.common ≡ false =
      ap is_empty is.common ∙ overlap_kept (elements masks) (elements nulls) b named both in
    let some_null = is_empty_of_Has b (elements nulls) named in ground arith

-- A field that the mask does not name, or that `Interface()` may read.
abbrev pub IsReadable : List String → FieldInfo → Type 0
IsReadable masks f = contains masks f.name ≡ true → f.exported ≡ true

abbrev pub AreReadable : List String → Fields → Type 0
AreReadable masks done = Unit
AreReadable masks (field f _ fs) = IsReadable masks f × AreReadable masks fs

abbrev pub InnerReadable : List String → Value → Type 0
InnerReadable masks (struct _ fs) = AreReadable masks fs
InnerReadable masks (ptr (struct _ fs)) = AreReadable masks fs
InnerReadable masks _ = Unit

-- The same of the fields of a resource and of the fields of its fields of struct type.
abbrev pub AllReadable : List String → Fields → Type 0
AllReadable masks done = Unit
AllReadable masks (field f v fs) = IsReadable masks f × InnerReadable masks v × AllReadable masks fs

-- A field of the resource itself that the mask names and `Interface()` may not read, behind fields
-- that can be read.
abbrev pub HasHidden : List String → Fields → Type 0
HasHidden masks done = ⊥
HasHidden masks (field f v fs) =
    ((contains masks f.name ≡ true) × (f.exported ≡ false))
    ⊎ (IsReadable masks f × InnerReadable masks v × HasHidden masks fs)

module _ (masks : List String) (left right : Dict String)
    (by_left : (k : String) → lookup (to_upper k) left ≡ last_match k masks) where
  named : (f : FieldInfo) → is_some (lookup (to_upper f.name) left) ≡ contains masks f.name
  named f = ap is_some (by_left f.name) ∙ last_match-contains f.name masks

  visit_mask_total :
      (f : FieldInfo) (v : Value) (s : Scan)
      → IsReadable masks f
      → (s' : Scan) × (visit_mask left right f v s ≡ ok s')
  unfolding visit_mask
  visit_mask_total f v s r = elim (Option-cases (lookup (to_upper f.name) left)) [
    | inl absent ↦ (s, ground arith)
    | inr (p, found) ↦
        let named_by : contains masks f.name ≡ true = sym (named f) ∙ ap is_some found in
        (assign p (to_value (to_interface v)) s, ground (arith, r named_by))
  ]

  visit_embedded_total :
      (fs : Fields) (s : Scan)
      → AreReadable masks fs
      → (s' : Scan) × (visit_embedded left right fs s ≡ ok s')
  unfolding visit_embedded
  visit_embedded_total done s r = (s, refl)
  visit_embedded_total (field f v fs) s r =
      let (t, visited) = visit_mask_total f v s r.0 in
      rw visited (visit_embedded_total fs (visit_null left right f t) r.1)

  visit_inner_total :
      (v : Value) (s : Scan)
      → InnerReadable masks v
      → (s' : Scan) × (visit_inner left right v s ≡ ok s')
  unfolding visit_inner
  visit_inner_total (struct _ fs) s r = visit_embedded_total fs s r
  visit_inner_total (ptr (struct _ fs)) s r = visit_embedded_total fs s r
  visit_inner_total _ s r = (s, refl)

  visit_field_total :
      (f : FieldInfo) (v : Value) (s : Scan)
      → IsReadable masks f
      → InnerReadable masks v
      → (s' : Scan) × (visit_field left right f v s ≡ ok s')
  unfolding visit_field
  visit_field_total f v s r ri = elim (Bool-cases (is_some (lookup (to_upper f.name) left))) [
    | inl masked ↦ let (t, visited) = visit_mask_total f v s r in (t, ground arith)
    | inr free ↦ elim (Bool-cases (is_some (lookup (to_upper f.name) right))) [
      | inl null ↦ (visit_null left right f s, ground arith)
      | inr free' ↦ elim (Bool-cases f.exported) [
        | inl readable ↦ let (t, visited) = visit_inner_total v s ri in (t, ground arith)
        | inr hidden ↦ (s, ground arith)
      ]
    ]
  ]

  visit_fields_total :
      (fs : Fields) (s : Scan)
      → AllReadable masks fs
      → (s' : Scan) × (visit_fields left right fs s ≡ ok s')
  unfolding visit_fields
  visit_fields_total done s r = (s, refl)
  visit_fields_total (field f v fs) s r =
      let (t, visited) = visit_field_total f v s r.0 r.1 in rw visited (visit_fields_total fs t r.2)

  hidden_field :
      (f : FieldInfo) (v : Value) (s : Scan)
      → contains masks f.name ≡ true
      → f.exported ≡ false
      → visit_field left right f v s ≡ panic
  unfolding visit_field visit_mask
  hidden_field f v s c x = ground (arith, named f)

  visit_fields_hidden :
      (fs : Fields) (s : Scan) → HasHidden masks fs → visit_fields left right fs s ≡ panic
  unfolding visit_fields
  visit_fields_hidden done s h = absurd h
  visit_fields_hidden (field f v fs) s (inl (c, x)) = rw (hidden_field f v s c x) refl
  visit_fields_hidden (field f v fs) s (inr (r, ri, h)) =
      let (t, visited) = visit_field_total f v s r ri in rw visited (visit_fields_hidden fs t h)

check_missing-ne-panic :
    (masks nulls : List String) (s : Scan) → check_missing masks nulls s ≢ panic
unfolding check_missing
check_missing-ne-panic masks nulls s h = ground arith

-- `UpdateFields` does not panic on a struct, or a pointer to one, where every field that the mask
-- names, of the struct and of its fields of struct type, is exported.
pub update_fields-ne-panic :
    (i : Value) (masks nulls : Slice) (fs : Fields)
    → struct_fields (indirect i) ≡ ok fs
    → AllReadable (elements masks) fs
    → update_fields i masks nulls ≢ panic
unfolding update_fields
update_fields-ne-panic i masks nulls fs at_fields r h =
    let (x, found, is) = intersection_lem (elements masks) (elements nulls) in
    let (t, visited) =
      visit_fields_total (elements masks) x.left x.right is.left fs
        (record { updates = []; found = [] }) r in
    ground (arith, check_missing-ne-panic (elements masks) (elements nulls) t)

-- A mask that names an unexported field of the resource makes `UpdateFields` panic: there is no
-- error result. The resource is there, is a struct or a pointer to one, and the two lists share no
-- path up to case.
pub update_fields_hidden :
    (i : Value) (masks nulls : Slice) (fs : Fields)
    → is_no_value i ≡ false
    → struct_fields (indirect i) ≡ ok fs
    → keep (contains (elements masks)) (elements nulls) ≡ []
    → is_empty (elements masks) ≡ false
    → HasHidden (elements masks) fs
    → update_fields i masks nulls ≡ panic
unfolding update_fields
update_fields_hidden i masks nulls fs there at_fields apart some_mask h =
    let (x, found, is) = intersection_lem (elements masks) (elements nulls) in
    let hidden =
      visit_fields_hidden (elements masks) x.left x.right is.left fs
        (record { updates = []; found = [] }) h in
    let empty : is_empty x.common ≡ true = ap is_empty (is.common ∙ ap (map to_lower) apart) in
    ground arith

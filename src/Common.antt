-- ===== src/Common.antt =====
-- common.go: which columns an update sends to the database, and with what values.
pub mod Intersection
pub mod Run
mod Keeps
pub mod Sound
pub mod Complete
pub mod Rejects
pub mod Paths
use go_dbw.Prelude.{
  ◌≡◌, String, ◌==◌, Bool, true, false, ◌&&◌, not, Option, none, some, List, [], ◌∷◌, ◌++◌,
  to_upper, is_empty, is_some, if◌then◌else◌,
}
use go_dbw.Prelude.Dict
use go_dbw.Prelude.Dict.{Dict, lookup, insert}
use go_dbw.Errors.{
  Outcome, ok, err, panic, Error, errorf, sentinel, invalid_parameter, texts_arg, fail_if, ◌>>=◌,
  ◌>>◌,
}
use go_dbw.Reflect.{
  Value, Fields, FieldInfo, struct, ptr, done, field, to_interface, indirect, is_no_value,
}
use go_dbw.Reflect.Zero.{is_zero}
use go_dbw.Contains.{contains, keep}
use go_dbw.Common.Intersection.{Slice, Intersected, intersection}

abbrev pub invalid : String → Error
invalid message = errorf message [] (sentinel invalid_parameter)

-- What a column is set to: a value of the resource, or `gorm.Expr("NULL")`.
pub data Update : Type 0 where
  to_value : Value → Update
  to_null : Update

-- The two maps that the loop of `UpdateFields` fills: the updates, and the names found, in upper case.
pub record Scan : Type 0 where
  pub updates : Dict Update
  pub found : Dict (Unit {0})

-- `updateFields[f] = u; found[strings.ToUpper(f)] = struct{}{}`
unfoldable pub assign : String → Update → Scan → Scan
assign f u s = record { updates = insert f u s.updates; found = insert (to_upper f) tt s.found }

-- `maskPaths` and `nullPaths`: from names in upper case to the caller's spelling.
module _ (masks nulls : Dict String) where
  -- A field that the mask names. Reading an unexported field with `Interface()` panics.
  unfoldable pub visit_mask : FieldInfo → Value → Scan → Outcome Scan
  visit_mask f v s = elim (lookup (to_upper f.name) masks) [
    | some p ↦ if f.exported then ok (assign p (to_value (to_interface v)) s) else panic
    | none ↦ ok s
  ]

  unfoldable pub visit_null : FieldInfo → Scan → Scan
  visit_null f s = elim (lookup (to_upper f.name) nulls) [ some p ↦ assign p to_null s | none ↦ s ]

  -- The inner loop, over the fields of a field of struct type: both tests are made for each field.
  unfoldable pub visit_embedded : Fields → Scan → Outcome Scan
  visit_embedded done s = ok s
  visit_embedded (field f v fs) s = do s' ← visit_mask f v s; visit_embedded fs (visit_null f s')

  -- A struct, or a pointer to one that is not nil. Any other field is passed over.
  unfoldable pub visit_inner : Value → Scan → Outcome Scan
  visit_inner (struct _ fs) s = visit_embedded fs s
  visit_inner (ptr (struct _ fs)) s = visit_embedded fs s
  visit_inner _ s = ok s

  -- The body of the outer loop, whose `continue`s make the tests exclusive.
  unfoldable pub visit_field : FieldInfo → Value → Scan → Outcome Scan
  visit_field f v s =
      if is_some (lookup (to_upper f.name) masks)
      then visit_mask f v s
      else if is_some (lookup (to_upper f.name) nulls)
      then ok (visit_null f s)
      else if f.exported
      then visit_inner v s
      else ok s

  unfoldable pub visit_fields : Fields → Scan → Outcome Scan
  visit_fields done s = ok s
  visit_fields (field f v fs) s = do s' ← visit_field f v s; visit_fields fs s'

unfoldable pub find_missing_paths : List String → Dict (Unit {0}) → List String
unfolding keep
find_missing_paths paths found = keep (λ f. not (is_some (lookup (to_upper f) found))) paths

-- A nil slice has no elements.
abbrev pub elements : Slice → List String
elements none = []
elements (some xs) = xs

-- The two checks after the loop.
unfoldable pub check_missing : List String → List String → Scan → Outcome (Dict Update)
unfolding find_missing_paths
check_missing masks nulls s = do
  let missing_nulls = find_missing_paths nulls s.found
  let missing_masks = find_missing_paths masks s.found
  fail_if (not (is_empty missing_nulls)) (
      errorf "dbw.UpdateFields: null paths not found in resource: %s" (texts_arg missing_nulls ∷ [])
        (sentinel invalid_parameter))
  fail_if (not (is_empty missing_masks)) (
      errorf "dbw.UpdateFields: field mask paths not found in resource: %s"
        (texts_arg missing_masks ∷ []) (sentinel invalid_parameter))
  ok s.updates

-- The fields of the resource; asking a value that is no struct for its fields panics.
abbrev pub struct_fields : Value → Outcome Fields
struct_fields (struct _ fs) = ok fs
struct_fields _ = panic

-- An error of `Intersection` is replaced by this function's own.
abbrev pub or_invalid {ℓ} : {A : Type ℓ} → String → Outcome A → Outcome A
or_invalid op (ok a) = ok a
or_invalid op (err e) = err (invalid op)
or_invalid op panic = panic

unfoldable pub update_fields : Value → Slice → Slice → Outcome (Dict Update)
unfolding check_missing
update_fields i field_mask_paths set_to_null_paths = do
  fail_if (is_no_value i) (invalid "dbw.UpdateFields: interface is missing")
  let masks = elements field_mask_paths
  let nulls = elements set_to_null_paths
  fail_if (is_empty masks && is_empty nulls)
      (invalid "dbw.UpdateFields: both fieldMaskPaths and setToNullPaths are zero len")
  r ← or_invalid "dbw.UpdateFields" (intersection (some masks) (some nulls))
  fail_if (not (is_empty r.common))
      (invalid "dbw.UpdateFields: fieldMashPaths and setToNullPaths cannot intersect")
  fields ← struct_fields (indirect i)
  s ← visit_fields r.left r.right fields (record { updates = []; found = [] })
  check_missing masks nulls s

-- `BuildUpdatePaths` over the map's entries: the masks, and the names to set to null.
unfoldable pub build_update_paths :
    Dict Value → List String → List String → List String × List String
unfolding is_zero
build_update_paths [] field_mask allow_zero_fields = ([], [])
build_update_paths ((f, v) ∷ values) field_mask allow_zero_fields =
    let (masks, nulls) = build_update_paths values field_mask allow_zero_fields in
    if not (contains field_mask f)
    then (masks, nulls)
    else if is_zero v && not (contains allow_zero_fields f)
    then (masks, f ∷ nulls)
    else (f ∷ masks, nulls)

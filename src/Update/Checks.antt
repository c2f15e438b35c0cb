-- ===== src/Update/Checks.antt =====
-- The checks of `RW.Update` on the paths and on the resource's keys, in the order of update.go.
use go_dbw.Prelude.{String, Bool, ◌&&◌, Option, none, some, List, [], ◌∷◌, is_empty, if◌then◌else◌}
use go_dbw.Prelude.Dict.{Dict}
use go_dbw.Errors.{
  Outcome, ok, err, panic, Error, errorf, plain, sentinel, invalid_parameter, invalid_field_mask,
  text_arg, texts_arg, fail_if, ◌>>=◌, ◌>>◌,
}
use go_dbw.Reflect.{Value, indirect}
use go_dbw.Contains.{contains}
use go_dbw.Common.{Update, update_fields, elements}
use go_dbw.Common.Intersection.{Slice}
use go_dbw.Gorm.{Gorm, Schema, SchemaField}
use go_dbw.Action.{wrap}
use go_dbw.Guards.{bad_parameter}
use go_dbw.Where.{primary_fields_are_zero}
use go_dbw.Registry.{filter_paths}

-- The loop over the primary fields: each is set in the resource, and none is in the mask.
unfoldable pub check_primary_fields : Value → List String → List SchemaField → Outcome (Unit {0})
check_primary_fields v masks [] = ok tt
check_primary_fields v masks (pf ∷ pfs) =
    if (pf.value_of v).1
    then err (
        errorf "dbw.Update: primary key %s is not set" (text_arg pf.name ∷ [])
          (sentinel invalid_parameter))
    else if contains masks pf.name
    then err (
        errorf "dbw.Update: not allowed on primary key field %s" (text_arg pf.name ∷ [])
          (sentinel invalid_field_mask))
    else check_primary_fields v masks pfs

-- `err != nil || mDb.Statement.Schema == nil`; the error that is wrapped may be nil.
unfoldable pub parsed_schema : Option Error × Option Schema → Outcome Schema
parsed_schema (some e, schema) =
    err (errorf "dbw.Update: internal error: unable to parse stmt" [] e)
parsed_schema (none, none) = err (plain "dbw.Update: internal error: unable to parse stmt" [])
parsed_schema (none, some schema) = ok schema

-- `fmt.Errorf("%s: getting update fields failed: %w", op, err)`
abbrev failed_fields {ℓ} : {A : Type ℓ} → Outcome A → Outcome A
failed_fields (ok a) = ok a
failed_fields (err e) = err (errorf "dbw.Update: getting update fields failed" [] e)
failed_fields panic = panic

-- What the checks leave: the filtered paths, and the columns to send.
pub record Columns : Type 0 where
  pub masks : Slice
  pub nulls : Slice
  pub updates : Dict Update

-- `len(fieldMaskPaths) == 0 && len(setToNullPaths) == 0`
abbrev pub no_paths : Slice → Slice → Bool
no_paths masks nulls = is_empty (elements masks) && is_empty (elements nulls)

-- The names that may not be updated go first; what is left says which columns are sent.
unfoldable pub update_columns : List String → Value → Slice → Slice → Outcome Columns
update_columns non_updatable i field_mask_paths set_to_null_paths = do
  let masks = filter_paths non_updatable field_mask_paths
  let nulls = filter_paths non_updatable set_to_null_paths
  fail_if (no_paths masks nulls) (
      bad_parameter
        "dbw.Update: after filtering non-updated fields, there are no fields left in fieldMaskPaths or setToNullPaths")
  updates ← failed_fields (update_fields i masks nulls)
  fail_if (is_empty updates) (
      errorf "dbw.Update: no fields matched using fieldMaskPaths %s"
        (texts_arg (elements masks) ∷ []) (sentinel invalid_parameter))
  ok (record { masks = masks; nulls = nulls; updates = updates })

-- The keys: `primaryFieldsAreZero`, and then the loop over the schema's primary fields.
unfoldable pub check_keys : (G : Gorm) → G.Db → Value → Slice → Outcome (Unit {0})
unfolding check_primary_fields parsed_schema
check_keys G db i masks = do
  (names, is_zero) ← wrap "dbw.Update" (primary_fields_are_zero G db i)
  fail_if is_zero (
      errorf "dbw.Update: primary key is not set for: %s" (texts_arg names ∷ [])
        (sentinel invalid_parameter))
  schema ← parsed_schema (G.parse (G.model i db) i)
  check_primary_fields (indirect i) (elements masks) schema.primary_fields

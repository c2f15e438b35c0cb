-- ===== src/Update.antt =====
-- `RW.Update` of update.go. The resource is the state's.
pub mod Checks
pub mod Passed
pub mod Filtered
pub mod Locked
use go_dbw.Prelude.{
  ◌≡◌, ℤ, pos, String, ◌==◌, Bool, true, false, not, ◌&&◌, ◌||◌, Option, none, some, List, [], ◌∷◌,
  ◌++◌, is_some, is_empty, if◌then◌else◌,
}
use go_dbw.Prelude.Dict.{Dict}
use go_dbw.Errors.{
  Outcome, ok, err, panic, Error, errorf, plain, gorm_not_found, sentinel, invalid_parameter,
  invalid_field_mask, is_gorm_not_found, text_arg, texts_arg, fail_if,
}
use go_dbw.Reflect.{Value, is_nil, indirect}
use go_dbw.Contains.{contains}
use go_dbw.Common.{Update, update_fields, elements}
use go_dbw.Common.Intersection.{Slice}
use go_dbw.Options.{Options, Setter, get_opts, with_lookup}
use go_dbw.Gorm.{Gorm, Resources, Schema, SchemaField, update_op}
use go_dbw.Action.{
  State, Action, ◌>>=◌, ◌>>◌, pure, fail, lift, wrap, within, get, when, finish, fail_on, fail_when,
  return_rows, no_rows_affected,
}
use go_dbw.Guards.{bad_parameter, raise_error_on_hooks}
use go_dbw.Conditions.{with_conditions}
use go_dbw.Registry.{non_updatable_fields}
use go_dbw.Lookup.{underlying, debug_then_table, lookup_after_write}
use go_dbw.Update.Checks.{Columns, no_paths, update_columns, check_keys}
use go_dbw.Writing.{vet_for_write, before_write, after_write}

-- `gorm.ErrRecordNotFound` is wrapped as it is, not as the package's own.
abbrev update_error : Error → Error
update_error e =
    if is_gorm_not_found e then errorf "dbw.Update" [] gorm_not_found else errorf "dbw.Update" [] e

module _ (G : Gorm) (R : Resources G.World) where
  -- Vetting, the callback before the write, and the statement with its conditions. The statement is
  -- not given the context.
  unfoldable pub prepare_update : G.Db → Options G.World → Columns → Action G.World G.Db
  unfolding vet_for_write before_write with_conditions
  prepare_update db opts c = do
    when (not opts.with_skip_vet_for_write)
        (vet_for_write R "dbw.Update" update_op (elements c.masks) (elements c.nulls))
    before_write "dbw.Update: error before write" opts
    s ← get
    lift (
        with_conditions G "dbw.Update"
          (is_some opts.with_version || not (opts.with_where_clause == "")) db
          (debug_then_table G opts (G.model s.resource db)) s.resource opts)

  -- The write, the callback after it, and the lookup, which is always made.
  unfoldable pub finish_update :
      G.Context
      → Option G.Db
      → G.Db
      → Dict Update
      → List (Option (Setter G.World))
      → Action G.World (Unit {0})
  unfolding after_write with_lookup
  finish_update ctx rw statement updates opt = do
    t ← finish (G.updates statement updates)
    fail_on t.error update_error
    return_rows t.rows_affected
    after_write "dbw.Update: error after write" (get_opts opt) t.rows_affected
    return_rows no_rows_affected
    within "dbw.Update" (lookup_after_write G R ctx rw (opt ++ some (with_lookup true) ∷ []))
    return_rows t.rows_affected

  unfoldable pub update :
      G.Context
      → Option G.Db
      → Slice
      → Slice
      → List (Option (Setter G.World))
      → Action G.World (Unit {0})
  unfolding prepare_update finish_update
  update ctx rw field_mask_paths set_to_null_paths opt = do
    return_rows no_rows_affected
    db ← underlying (bad_parameter "dbw.Update: missing underlying db") rw
    s ← get
    fail_when (is_nil s.resource) (bad_parameter "dbw.Update: missing interface")
    lift (wrap "dbw.Update" (raise_error_on_hooks R s.resource))
    fail_when (no_paths field_mask_paths set_to_null_paths)
        (bad_parameter "dbw.Update: both fieldMaskPaths and setToNullPaths are missing")
    c ← lift (update_columns (non_updatable_fields s) s.resource field_mask_paths set_to_null_paths)
    lift (check_keys G db s.resource c.masks)
    statement ← prepare_update db (get_opts opt) c
    finish_update ctx rw statement c.updates opt

-- ===== src/Delete.antt =====
-- `RW.Delete` of delete.go. The resource is the state's.
pub mod Items
pub mod Passed
pub mod Locked
use go_dbw.Prelude.{
  ◌≡◌, ℤ, String, ◌==◌, Bool, true, false, not, ◌&&◌, ◌||◌, Option, none, some, List, [], ◌∷◌,
  is_some, if◌then◌else◌,
}
use go_dbw.Errors.{
  Outcome, ok, err, panic, Error, errorf, sentinel, invalid_parameter, unknown, text_arg,
}
use go_dbw.Reflect.{Value, is_nil, indirect}
use go_dbw.Options.{Options, Setter, get_opts}
use go_dbw.Gorm.{Gorm, Resources, Schema, SchemaField}
use go_dbw.Action.{
  State, Action, ◌>>=◌, ◌>>◌, pure, lift, wrap, within, get, when, finish, fail_on, fail_when,
  return_rows, no_rows_affected,
}
use go_dbw.Guards.{bad_parameter, raise_error_on_hooks}
use go_dbw.Conditions.{with_conditions}
use go_dbw.Lookup.{underlying, debug_then_table}
use go_dbw.Writing.{before_write, after_write}

-- A loop over the primary fields: the first that is zero is an error.
unfoldable pub check_keys_set : String → Value → List SchemaField → Outcome (Unit {0})
check_keys_set format v [] = ok tt
check_keys_set format v (pf ∷ pfs) =
    if (pf.value_of v).1
    then err (errorf format (text_arg pf.name ∷ []) (sentinel invalid_parameter))
    else check_keys_set format v pfs

-- The schema that `Delete` goes on with. An error of `Parse` is not returned: the test wants it to be
-- nil, so a schema that is missing after an error is followed.
unfoldable pub delete_schema : Option Error × Option Schema → Outcome Schema
delete_schema (none, none) =
    err (errorf "dbw.Delete: (internal error) unable to parse stmt" [] (sentinel unknown))
delete_schema (some _, none) = panic
delete_schema (_, some schema) = ok schema

module _ (G : Gorm) (R : Resources G.World) where
  -- The checks on the keys, the callback before the write, and the statement with its conditions.
  unfoldable pub prepare_delete : G.Context → G.Db → Options G.World → Action G.World G.Db
  unfolding check_keys_set delete_schema before_write with_conditions
  prepare_delete ctx db opts = do
    s ← get
    schema ← lift (delete_schema (G.parse (G.model s.resource db) s.resource))
    lift (
        check_keys_set "dbw.Delete: primary key %s is not set" (indirect s.resource)
          schema.primary_fields)
    before_write "dbw.Delete: error before write" opts
    s ← get
    statement ← lift (
        with_conditions G "dbw.Delete"
          (is_some opts.with_version || not (opts.with_where_clause == "")) db
          (G.with_context ctx db) s.resource opts)
    pure (debug_then_table G opts statement)

  unfoldable pub delete :
      G.Context → Option G.Db → List (Option (Setter G.World)) → Action G.World (Unit {0})
  unfolding prepare_delete after_write
  delete ctx rw opt = do
    return_rows no_rows_affected
    db ← underlying (bad_parameter "dbw.Delete: missing underlying db") rw
    s ← get
    fail_when (is_nil s.resource) (bad_parameter "dbw.Delete: missing interface")
    lift (wrap "dbw.Delete" (raise_error_on_hooks R s.resource))
    statement ← prepare_delete ctx db (get_opts opt)
    t ← finish (G.delete statement)
    fail_on t.error (errorf "dbw.Delete" [])
    return_rows t.rows_affected
    after_write "dbw.Delete: error after write" (get_opts opt) t.rows_affected

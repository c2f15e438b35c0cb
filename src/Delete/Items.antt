-- ===== src/Delete/Items.antt =====
-- `RW.DeleteItems` of delete.go. The state's resource is the slice of items.
use go_dbw.Prelude.{
  ℕ, ◌+◌, ◌==◌, Bool, not, Option, none, some, List, [], ◌∷◌, is_some, eqb, if◌then◌else◌,
}
use go_dbw.Errors.{
  Outcome, ok, err, panic, Error, errorf, sentinel, invalid_parameter, unknown, text_arg,
  number_arg,
}
use go_dbw.Reflect.{
  Value, Items, nil, item, slice, GoType, is_nil, type_of, type_eq, to_interface, first_item,
  kind_of, kind_eq, slice_kind, len, indirect,
}
use go_dbw.Options.{Options, Setter, get_opts}
use go_dbw.Gorm.{Gorm, Resources, Schema, SchemaField}
use go_dbw.Action.{
  Action, ◌>>=◌, ◌>>◌, lift, wrap, get, finish, fail_on, fail_when, return_rows, no_rows_affected,
}
use go_dbw.Guards.{bad_parameter, raise_error_on_hooks}
use go_dbw.Conditions.{with_conditions}
use go_dbw.Create.Items.{type_name}
use go_dbw.Delete.{check_keys_set}
use go_dbw.Lookup.{underlying}
use go_dbw.Writing.{before_write, after_write}

-- `Parse` of the first item's type.
unfoldable pub items_schema : Option Error × Option Schema → Outcome Schema
items_schema (some e, schema) =
    err (errorf "dbw.DeleteItems: (internal error) error parsing stmt" [] e)
items_schema (none, none) =
    err (errorf "dbw.DeleteItems: (internal error) unable to parse stmt" [] (sentinel unknown))
items_schema (none, some schema) = ok schema

-- One round of the loop: the item's type and, without a where clause, its keys.
unfoldable pub check_delete_item : Bool → List SchemaField → GoType → ℕ → Value → Outcome (Unit {0})
unfolding check_keys_set
check_delete_item has_where primary_fields found i v =
    if is_nil v
    then err (
        errorf "dbw.DeleteItems: unable to determine type of item %d" (number_arg i ∷ [])
          (sentinel invalid_parameter))
    else if not (type_eq found (type_of v))
    then err (
        errorf "dbw.DeleteItems: items contain disparate types.  item %d is not a %s"
          (number_arg i ∷ text_arg (type_name found) ∷ []) (sentinel invalid_parameter))
    else if has_where
    then ok tt
    else check_keys_set "dbw.DeleteItems: primary key %s is not set" (indirect v) primary_fields

unfoldable pub check_delete_items :
    Bool → List SchemaField → GoType → ℕ → Items → Outcome (Unit {0})
unfolding check_delete_item
check_delete_items has_where primary_fields found i nil = ok tt
check_delete_items has_where primary_fields found i (item v vs) =
    elim (check_delete_item has_where primary_fields found i (to_interface v)) [
      | err e ↦ err e
      | panic ↦ panic
      | ok _ ↦ check_delete_items has_where primary_fields found (i + 1) vs
    ]

abbrev pub items_of : Value → Items
items_of (slice _ vs) = vs
items_of _ = nil

module _ (G : Gorm) (R : Resources G.World) where
  -- The table of the options, or else that of the first item's type if it names one.
  unfoldable pub items_table : Options G.World → Value → G.Db → G.Db
  items_table opts first db =
      if not (opts.with_table == "")
      then G.table opts.with_table db
      else elim (R.table_name first) [ some name ↦ G.table name db | none ↦ db ]

  unfoldable pub delete_items :
      G.Context → Option G.Db → List (Option (Setter G.World)) → Action G.World (Unit {0})
  unfolding items_schema check_delete_items with_conditions items_table before_write after_write
  delete_items ctx rw opt = do
    return_rows no_rows_affected
    db ← underlying (bad_parameter "dbw.DeleteItems: missing underlying db") rw
    s ← get
    fail_when (is_nil s.resource) (bad_parameter "dbw.DeleteItems: no interfaces to delete")
    fail_when (not (kind_eq (kind_of s.resource) slice_kind))
        (bad_parameter "dbw.DeleteItems: not a slice")
    fail_when (eqb (len s.resource) 0) (bad_parameter "dbw.DeleteItems: missing items")
    lift (wrap "dbw.DeleteItems" (raise_error_on_hooks R s.resource))
    let opts = get_opts opt
    fail_when opts.with_lookup (bad_parameter "dbw.DeleteItems: with lookup not a supported option")
    fail_when (is_some opts.with_version)
        (bad_parameter "dbw.DeleteItems: with version is not a supported option")
    let first = first_item s.resource
    schema ← lift (items_schema (G.parse (G.model first db) first))
    let has_where = not (opts.with_where_clause == "")
    lift
        (check_delete_items has_where schema.primary_fields (type_of first) 0 (items_of s.resource))
    before_write "dbw.DeleteItems: error before write" opts
    s ← get
    let statement =
        if opts.with_debug then G.debug (G.with_context ctx db) else G.with_context ctx db
    statement ←
        lift
          (with_conditions G "dbw.DeleteItems" has_where db statement (first_item s.resource) opts)
    t ← finish (G.delete (items_table opts (first_item s.resource) statement))
    fail_on t.error (errorf "dbw.DeleteItems" [])
    return_rows t.rows_affected
    after_write "dbw.DeleteItems: error after write" opts t.rows_affected

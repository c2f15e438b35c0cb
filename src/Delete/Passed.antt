-- ===== src/Delete/Passed.antt =====
-- What a delete that returns no error has passed: delete.go.
use go_dbw.Prelude.{
  ◌≡◌, refl, ◌↔◌, ℕ, ◌+◌, String, ◌==◌, Bool, true, false, not, Option, none, some, List, [], ◌∷◌,
  All, arith, is_some, eqb,
}
use go_dbw.Errors.{ok, panic, Error}
use go_dbw.Reflect.{
  Value, Items, nil, item, GoType, is_nil, type_of, type_eq, to_interface, indirect, first_item,
  len,
}
use go_dbw.Options.{Setter, get_opts}
use go_dbw.Gorm.{Gorm, Resources, Schema, SchemaField}
use go_dbw.Action.{State, ◌>>=◌, ◌>>◌, return_rows, get, fail_when, lift, pure}
use go_dbw.Lookup.{underlying}
use go_dbw.Guards.{raise_error_on_hooks}
use go_dbw.Delete.{check_keys_set, delete}
use go_dbw.Delete.Items.{
  check_delete_item, check_delete_items, delete_items, items_of, items_schema,
}
use go_dbw.Inversion.{
  fail_when_passed, lift_passed, return_rows_passed, get_passed, lift_gave, underlying_gave,
}

-- Each of these fields is set in the value.
abbrev pub KeysSet : Value → List SchemaField → Type 0
KeysSet v pfs = All (λ pf. (pf.value_of v).1 ≡ false) pfs

pub check_keys_set_iff :
    (format : String) (v : Value) (pfs : List SchemaField)
    → check_keys_set format v pfs ≡ ok tt ↔ KeysSet v pfs
unfolding check_keys_set
check_keys_set_iff format v [] = (λ _. tt, λ _. refl)
check_keys_set_iff format v (pf ∷ pfs) = ground (arith, check_keys_set_iff format v pfs)

-- An item that may be deleted: it is not nil, has the type, and has its keys if there is no where clause.
abbrev pub IsDeletable : Bool → List SchemaField → GoType → Value → Type 0
IsDeletable has_where pfs found v =
    (is_nil v ≡ false)
    × (type_eq found (type_of v) ≡ true)
    × (has_where ≡ false → KeysSet (indirect v) pfs)

abbrev pub AllDeletable : Bool → List SchemaField → GoType → Items → Type 0
AllDeletable has_where pfs found nil = Unit
AllDeletable has_where pfs found (item v vs) =
    IsDeletable has_where pfs found (to_interface v) × AllDeletable has_where pfs found vs

check_delete_item-IsDeletable :
    (has_where : Bool) (pfs : List SchemaField) (found : GoType) (i : ℕ) (v : Value)
    → check_delete_item has_where pfs found i v ≡ ok tt ↔ IsDeletable has_where pfs found v
unfolding check_delete_item
check_delete_item-IsDeletable true pfs found i v = ground arith
check_delete_item-IsDeletable false pfs found i v =
    ground (arith, check_keys_set_iff "dbw.DeleteItems: primary key %s is not set" (indirect v) pfs)

-- The items of `DeleteItems` pass its loop exactly if none is nil, all have the type of the first and,
-- without a where clause, the primary fields of each are set.
pub check_delete_items_iff :
    (has_where : Bool) (pfs : List SchemaField) (found : GoType) (i : ℕ) (vs : Items)
    → check_delete_items has_where pfs found i vs ≡ ok tt ↔ AllDeletable has_where pfs found vs
unfolding check_delete_items
check_delete_items_iff has_where pfs found i nil = (λ _. tt, λ _. refl)
check_delete_items_iff has_where pfs found i (item v vs) = ground (
  arith,
  check_delete_item-IsDeletable has_where pfs found i (to_interface v),
  check_delete_items_iff has_where pfs found (i + 1) vs,
)

-- `DeleteItems` returns no error only if it was given a connection and a slice that is not empty, no lookup and
-- no version option, and items that pass the loop: all of one type and, without a where clause, with their keys
-- set.
pub delete_items_passed :
    (G : Gorm) (R : Resources G.World) (ctx : G.Context) (conn : Option G.Db)
    (opt : List (Option (Setter G.World))) (s : State G.World)
    → (delete_items G R ctx conn opt s).0 ≡ ok tt
    → (eqb (len s.resource) 0 ≡ false)
      × ((get_opts opt).with_lookup ≡ false)
      × (is_some (get_opts opt).with_version ≡ false)
      × ((db : G.Db) × (schema : Schema) × (conn ≡ some db)
          × (items_schema (G.parse (G.model (first_item s.resource) db) (first_item s.resource))
              ≡ ok schema)
          × AllDeletable
              (not ((get_opts opt).with_where_clause == ""))
              schema.primary_fields
              (type_of (first_item s.resource))
              (items_of s.resource))
unfolding delete_items
delete_items_passed G R ctx conn opt s h =
    let h1 = return_rows_passed s _ _ h in
    let (db, at_db, h2) = underlying_gave _ _ _ _ h1 in
    let h3 = get_passed _ _ h2 in
    let (_, h4) = fail_when_passed _ _ _ _ h3 in
    let (_, h5) = fail_when_passed _ _ _ _ h4 in
    let (some_items, h6) = fail_when_passed _ _ _ _ h5 in
    let (_, h7) = lift_passed _ _ _ h6 in
    let (no_lookup, h8) = fail_when_passed _ _ _ _ h7 in
    let (no_version, h9) = fail_when_passed _ _ _ _ h8 in
    let (schema, is_schema, h10) = lift_gave _ _ _ h9 in
    let (items_pass, _) = lift_passed _ _ _ h10 in
    (
      some_items,
      no_lookup,
      no_version,
      (
        db,
        schema,
        at_db,
        is_schema,
        (check_delete_items_iff (not ((get_opts opt).with_where_clause == "")) schema.primary_fields
              (type_of (first_item s.resource)) 0 (items_of s.resource)).0
            items_pass,
      ),
    )

-- `Delete` panics, and returns no error, when gorm's `Parse` fails and leaves no schema, for a connection and a
-- resource that is not nil and has no hooks.
delete_panics :
    (G : Gorm) (R : Resources G.World) (ctx : G.Context) (db : G.Db)
    (opt : List (Option (Setter G.World))) (s : State G.World) (e : Error)
    → is_nil s.resource ≡ false
    → raise_error_on_hooks R s.resource ≡ ok tt
    → G.parse (G.model s.resource db) s.resource ≡ (some e, none)
    → (delete G R ctx (some db) opt s).0 ≡ panic
unfolding delete ◌>>=◌ ◌>>◌ return_rows underlying get fail_when lift pure
delete_panics G R ctx db opt s e there no_hooks failed = rw (there, no_hooks, failed) refl

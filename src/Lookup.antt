-- ===== src/Lookup.antt =====
-- lookup.go, and `clearDefaultNullResourceFields` of rw.go. The resource is the state's.
use go_dbw.Prelude.{
  String, ◌==◌, Bool, true, false, not, Option, none, some, List, [], ◌∷◌, equal_fold,
  if◌then◌else◌,
}
use go_dbw.Errors.{
  Outcome, ok, err, panic, Error, errorf, sentinel, record_not_found, is_gorm_not_found,
}
use go_dbw.Reflect.{Value}
use go_dbw.Options.{Options, Setter, get_opts}
use go_dbw.Gorm.{Gorm, Resources, SchemaField}
use go_dbw.Action.{Action, ◌>>=◌, ◌>>◌, pure, fail, lift, wrap, within, get, when, finish, fail_on}
use go_dbw.Guards.{bad_parameter, raise_error_on_hooks, validate_resources_interface}
use go_dbw.Where.{primary_keys_where}

-- `rw.underlying`: `none` is the nil pointer.
unfoldable pub underlying : {W D : Type 0} → Error → Option D → Action W D
underlying e none = fail e
underlying e (some db) = pure db

unfoldable pub set_resource : {W : Type 0} → Value → Action W (Unit {0})
set_resource v s = (ok tt, record s { resource = v })

-- A call whose error is dropped.
abbrev forgive {ℓ} : {A : Type ℓ} → A → Outcome A → Outcome A
forgive a (ok b) = ok b
forgive a (err e) = ok a
forgive a panic = panic

unfoldable pub ignore_error : {W : Type 0} → Action W (Unit {0}) → Action W (Unit {0})
ignore_error m s = (forgive tt (m s).0, (m s).1)

-- A field that the loop resets: not a primary key, not read-only, and with a null default.
unfoldable pub is_default_null : SchemaField → Bool
is_default_null f =
    if f.primary_key
    then false
    else if not f.updatable
    then false
    else equal_fold f.default_value "null"

unfoldable pub clear_defaults : List SchemaField → Value → Value × Option Error
unfolding is_default_null
clear_defaults [] i = (i, none)
clear_defaults (f ∷ fs) i = elim (is_default_null f) [
  | false ↦ clear_defaults fs i
  | true ↦ elim ((f.value_of i).1) [
    | true ↦ clear_defaults fs i
    | false ↦
        let (v, e) = f.set_default i in elim e [ some e ↦ (v, some e) | none ↦ clear_defaults fs v ]
  ]
]

-- Database options that several operations set in this order.
abbrev pub table_then_debug : (G : Gorm) → Options G.World → G.Db → G.Db
table_then_debug G opts db =
    let db = if not (opts.with_table == "") then G.table opts.with_table db else db in
    if opts.with_debug then G.debug db else db

abbrev pub debug_then_table : (G : Gorm) → Options G.World → G.Db → G.Db
debug_then_table G opts db =
    let db = if opts.with_debug then G.debug db else db in
    if not (opts.with_table == "") then G.table opts.with_table db else db

-- gorm's "not found" becomes the package's.
abbrev pub not_found_as_ours : String → Error → Error
not_found_as_ours op e =
    if is_gorm_not_found e then errorf op [] (sentinel record_not_found) else errorf op [] e

module _ (G : Gorm) (R : Resources G.World) where
  unfoldable pub clear_default_null_resource_fields : G.Db → Action G.World (Unit {0})
  unfolding clear_defaults
  clear_default_null_resource_fields db s =
      let (e, schema) = G.parse (G.model s.resource db) s.resource in
      elim e [
        | some e ↦ (err (errorf "dbw.ClearResourceFields" [] e), s)
        | none ↦ elim schema [
          | none ↦ (panic, s)
          | some schema ↦
              let (v, e) = clear_defaults schema.fields s.resource in
              fail_on e (errorf "dbw.ClearResourceFields: unable to set value of non-zero field" [])
                (record s { resource = v })
        ]
      ]

  unfoldable pub lookup_by :
      G.Context → Option G.Db → List (Option (Setter G.World)) → Action G.World (Unit {0})
  unfolding clear_default_null_resource_fields
  lookup_by ctx rw opt = do
    db ← underlying (bad_parameter "dbw.LookupById: missing underlying db") rw
    s ← get
    lift (wrap "dbw.LookupById" (raise_error_on_hooks R s.resource))
    lift (wrap "dbw.LookupById" (validate_resources_interface s.resource))
    (condition, keys) ← lift (wrap "dbw.LookupById" (primary_keys_where G R db s.resource))
    let statement = table_then_debug G (get_opts opt) (G.with_context ctx db)
    ignore_error (clear_default_null_resource_fields db)
    t ← finish (G.first (G.where_clause condition keys statement))
    fail_on t.error (not_found_as_ours "dbw.LookupById")

  unfoldable pub lookup_by_public_id :
      G.Context → Option G.Db → List (Option (Setter G.World)) → Action G.World (Unit {0})
  unfolding lookup_by
  lookup_by_public_id ctx rw opt = lookup_by ctx rw opt

  unfoldable pub lookup_after_write :
      G.Context → Option G.Db → List (Option (Setter G.World)) → Action G.World (Unit {0})
  unfolding lookup_by
  lookup_after_write ctx rw opt = do
    s ← get
    lift (wrap "dbw.lookupAfterWrite" (raise_error_on_hooks R s.resource))
    when (get_opts opt).with_lookup (within "dbw.lookupAfterWrite" (lookup_by ctx rw opt))

-- ===== src/Create/Items.antt =====
-- `RW.CreateItems` of create.go. The state's resource is the slice of items.
use go_dbw.Prelude.{
  ℕ, ◌+◌, String, Bool, true, false, not, Option, none, some, List, [], ◌∷◌, eqb, if◌then◌else◌,
}
use go_dbw.Errors.{
  Outcome, ok, err, panic, errorf, sentinel, invalid_parameter, number_arg, text_arg,
}
use go_dbw.Reflect.{
  Value, Items, nil, item, slice, iface, GoType, named, is_nil, is_no_value, type_of, type_eq,
  to_interface, first_item, kind_of, kind_eq, slice_kind, len,
}
use go_dbw.Options.{Setter, get_opts}
use go_dbw.Gorm.{Gorm, Resources, create_op}
use go_dbw.Action.{
  State, Action, ◌>>=◌, ◌>>◌, lift, wrap, get, when, finish, fail_on, fail_when, store_rows,
}
use go_dbw.Guards.{bad_parameter, raise_error_on_hooks}
use go_dbw.Registry.{non_creatable_fields}
use go_dbw.Clear.{set_fields_to_nil}
use go_dbw.Lookup.{underlying, debug_then_table}
use go_dbw.Writing.{before_write, after_write}
use go_dbw.Conflict.{conflict_clauses}

-- `foundType.Name()`: only named types have a name.
abbrev pub type_name : GoType → String
type_name (named _ s) = s
type_name _ = ""

-- A change of the item that `Index(i).Interface()` gives.
abbrev pub put_item : Value → Value → Value
put_item (iface t _) u = iface t u
put_item _ u = u

-- What the loop over the items gives: its outcome, the items, and the world.
pub record Prepared (W : Type 0) : Type 0 where
  pub outcome : Outcome (Unit {0})
  pub items : Items
  pub world : W

-- The checks on the type of item `i`.
unfoldable pub check_item : GoType → ℕ → Value → Outcome (Unit {0})
check_item found i v =
    if is_no_value v
    then err (
        errorf "dbw.CreateItems: unable to determine type of item %d" (number_arg i ∷ [])
          (sentinel invalid_parameter))
    else if not (type_eq found (type_of v))
    then err (
        errorf "dbw.CreateItems: create items contains disparate types. item %d is not a %s"
          (number_arg i ∷ text_arg (type_name found) ∷ []) (sentinel invalid_parameter))
    else ok tt

module _ {W : Type 0} where
  abbrev pub vet_item : Resources W → Bool → Value → W → Outcome (Unit {0}) × Value × W
  vet_item R true v w = (ok tt, v, w)
  vet_item R false v w = elim (R.vet_for_write v) [
    | none ↦ (ok tt, v, w)
    | some vet ↦ let (r, u, w) = vet create_op [] [] v w in (wrap "dbw.CreateItems" r, u, w)
  ]

  abbrev cons_prepared : Value → Prepared W → Prepared W
  cons_prepared v p = record p { items = item v p.items }

  -- One round for each item: its type, the fields that are not the caller's to set, and its vetting.
  -- The first error ends the loop, with the items before it already changed.
  unfoldable pub prepare_items :
      Resources W → Bool → List String → GoType → ℕ → Items → W → Prepared W
  unfolding check_item
  prepare_items R skip names found i nil w = record { outcome = ok tt; items = nil; world = w }
  prepare_items R skip names found i (item v vs) w = elim (check_item found i (to_interface v)) [
    | err e ↦ record { outcome = err e; items = item v vs; world = w }
    | panic ↦ record { outcome = panic; items = item v vs; world = w }
    | ok _ ↦
        let (r, u, w) = vet_item R skip (set_fields_to_nil (to_interface v) names) w in
        elim r [
          | err e ↦ record { outcome = err e; items = item (put_item v u) vs; world = w }
          | panic ↦ record { outcome = panic; items = item (put_item v u) vs; world = w }
          | ok _ ↦ cons_prepared (put_item v u) (prepare_items R skip names found (i + 1) vs w)
        ]
  ]

  unfoldable pub prepare_value : Resources W → Bool → State W → Value → Outcome (Unit {0}) × State W
  unfolding prepare_items
  prepare_value R skip s (slice t vs) =
      let p =
        prepare_items R skip (non_creatable_fields s) (type_of (first_item s.resource)) 0 vs
          s.world in
      (p.outcome, record s { resource = slice t p.items; world = p.world })
  prepare_value R skip s _ = (ok tt, s)

  abbrev pub prepare_slice : Resources W → Bool → Action W (Unit {0})
  prepare_slice R skip s = prepare_value R skip s s.resource

module _ (G : Gorm) (R : Resources G.World) where
  unfoldable pub create_items :
      G.Context → Option G.Db → List (Option (Setter G.World)) → Action G.World (Unit {0})
  unfolding prepare_value before_write after_write
  create_items ctx rw opt = do
    db ← underlying (bad_parameter "dbw.CreateItems: missing underlying db") rw
    s ← get
    fail_when (is_nil s.resource) (bad_parameter "dbw.CreateItems: missing items")
    fail_when (not (kind_eq (kind_of s.resource) slice_kind))
        (bad_parameter "dbw.CreateItems: not a slice")
    fail_when (eqb (len s.resource) 0) (bad_parameter "dbw.CreateItems: missing items")
    lift (wrap "dbw.CreateItems" (raise_error_on_hooks R s.resource))
    let opts = get_opts opt
    fail_when opts.with_lookup (bad_parameter "dbw.CreateItems: with lookup not a supported option")
    prepare_slice R opts.with_skip_vet_for_write
    before_write "dbw.CreateItems: error before write" opts
    s ← get
    statement ← lift (
        conflict_clauses G "dbw.CreateItems" db (G.with_context ctx db) (first_item s.resource)
          opts)
    t ← finish (λ v. G.create_in_batches (debug_then_table G opts statement) v opts.with_batch_size)
    fail_on t.error (errorf "dbw.CreateItems: create failed" [])
    when opts.with_rows_affected (store_rows t.rows_affected)
    after_write "dbw.CreateItems: error after write" opts t.rows_affected

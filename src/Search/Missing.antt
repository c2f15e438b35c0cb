-- ===== src/Search/Missing.antt =====
-- What a lookup makes of gorm's "record not found".
use mathlib.Core.Path.{subst}
use go_dbw.Prelude.{
  ◌≡◌, refl, sym, ap, ◌∙◌, String, Bool, true, false, not, ◌||◌, Option, none, some, List, map,
  is_some, Option-cases, Bool-cases, inl, inr,
}
use go_dbw.Errors.{Outcome, ok, err, panic, Error, errors_is, is_gorm_not_found, record_not_found}
use go_dbw.Reflect.{Value}
use go_dbw.Options.{Setter, get_opts}
use go_dbw.Gorm.{Gorm, Resources, Written, Bind, bind_value}
use go_dbw.Action.{State, wrap, fail_on}
use go_dbw.Guards.{raise_error_on_hooks, validate_resources_interface}
use go_dbw.Where.{primary_keys_where}
use go_dbw.Lookup.{
  not_found_as_ours, table_then_debug, lookup_by, ignore_error, clear_default_null_resource_fields,
}
use go_dbw.Search.{lookup_where}
use go_dbw.Progress.{underlying-runs, lift-runs, check-runs, get-runs, finish-runs, then-runs}

-- `errors.Is(err, ErrRecordNotFound)` of what a call returns
abbrev pub is_missing : Outcome (Unit {0}) → Bool
is_missing (ok _) = false
is_missing (err e) = errors_is e record_not_found
is_missing panic = false

abbrev pub is_ok : Outcome (Unit {0}) → Bool
is_ok (ok _) = true
is_ok (err _) = false
is_ok panic = false

-- gorm says that there is no such record, by its own error or by one that wraps the package's.
abbrev pub says_missing : Option Error → Bool
says_missing none = false
says_missing (some e) = is_gorm_not_found e || errors_is e record_not_found

-- What follows the read in both lookups
abbrev pub Classified : {W : Type 0} → Written W → Outcome (Unit {0}) × State W → Type 0
Classified t r =
    (is_missing r.0 ≡ says_missing t.error)
    × (is_ok r.0 ≡ not (is_some t.error))
    × (r.1.resource ≡ t.resource)
    × (r.1.world ≡ t.world)

classified :
    {W : Type 0} (op : String) (t : Written W) (s : State W)
    → Classified t (
        fail_on t.error
          (not_found_as_ours op)
          (record s { resource = t.resource; world = t.world }))
unfolding fail_on
classified op t s = elim (Option-cases t.error) [
  | inl eq ↦ rw (eq, fail_on) (refl, refl, refl, refl)
  | inr (e, eq) ↦ elim (Bool-cases (is_gorm_not_found e)) [
    | inl missing ↦ rw (eq, fail_on, missing) (refl, refl, refl, refl)
    | inr other ↦ rw (eq, fail_on, other) (refl, refl, refl, refl)
  ]
]

module _ (G : Gorm) (R : Resources G.World) (ctx : G.Context) (db : G.Db)
    (opt : List (Option (Setter G.World))) (s : State G.World)
    (no_hooks : raise_error_on_hooks R s.resource ≡ ok tt)
    (valid : validate_resources_interface s.resource ≡ ok tt) where
  lookup_by-Classified :
      (condition : String) (keys : List Bind) (s1 : State G.World)
      → primary_keys_where G R db s.resource ≡ ok (condition, keys)
      → ignore_error (clear_default_null_resource_fields G R db) s ≡ (ok tt, s1)
      → Classified
          (G.first
            (G.where_clause condition keys
              (table_then_debug G (get_opts opt) (G.with_context ctx db)))
            s1.resource
            s1.world)
          (lookup_by G R ctx (some db) opt s)
  unfolding lookup_by
  lookup_by-Classified condition keys s1 has_keys cleared =
      let t : Written G.World =
        G.first
          (G.where_clause condition keys
            (table_then_debug G (get_opts opt) (G.with_context ctx db)))
          s1.resource s1.world in
      let run : lookup_by G R ctx (some db) opt s
          ≡ fail_on t.error (not_found_as_ours "dbw.LookupById")
              (record s1 { resource = t.resource; world = t.world }) =
        underlying-runs s _ (some db) db _ refl
        ∙ get-runs s _
        ∙ check-runs s _ _ (ap (wrap "dbw.LookupById") no_hooks)
        ∙ check-runs s _ _ (ap (wrap "dbw.LookupById") valid)
        ∙ lift-runs s _ (condition, keys) _ (ap (wrap "dbw.LookupById") has_keys)
        ∙ then-runs s _ _ s1 cleared
        ∙ finish-runs s1 _ _ in
      subst (Classified t) (sym run) (classified "dbw.LookupById" t s1)

  lookup_where-Classified :
      (condition : String) (args : List Value)
      → Classified
          (G.first
            (G.where_clause condition
              (map bind_value args)
              (table_then_debug G (get_opts opt) (G.with_context ctx db)))
            s.resource
            s.world)
          (lookup_where G R ctx (some db) condition args opt s)
  unfolding lookup_where
  lookup_where-Classified condition args =
      let t : Written G.World =
        G.first
          (G.where_clause condition (map bind_value args)
            (table_then_debug G (get_opts opt) (G.with_context ctx db)))
          s.resource s.world in
      let run : lookup_where G R ctx (some db) condition args opt s
          ≡ fail_on t.error (not_found_as_ours "dbw.LookupWhere")
              (record s { resource = t.resource; world = t.world }) =
        underlying-runs s _ (some db) db _ refl
        ∙ get-runs s _
        ∙ check-runs s _ _ (ap (wrap "dbw.LookupWhere") valid)
        ∙ check-runs s _ _ (ap (wrap "dbw.LookupWhere") no_hooks)
        ∙ finish-runs s _ _ in
      subst (Classified t) (sym run) (classified "dbw.LookupWhere" t s)

  -- A `LookupBy` that gets past its checks, and a `LookupWhere` that does, return an error that `Is`
  -- `ErrRecordNotFound` exactly if gorm's `First` reports that there is no such record; they return no error
  -- exactly if `First` reports none, and leave the resource and the world as `First` does.
  pub lookups-Classified :
      (condition : String) (keys : List Bind) (s1 : State G.World) (clause : String)
      (args : List Value)
      → primary_keys_where G R db s.resource ≡ ok (condition, keys)
      → ignore_error (clear_default_null_resource_fields G R db) s ≡ (ok tt, s1)
      → Classified
          (G.first
            (G.where_clause condition keys
              (table_then_debug G (get_opts opt) (G.with_context ctx db)))
            s1.resource
            s1.world)
          (lookup_by G R ctx (some db) opt s)
        × Classified
            (G.first
              (G.where_clause clause
                (map bind_value args)
                (table_then_debug G (get_opts opt) (G.with_context ctx db)))
              s.resource
              s.world)
            (lookup_where G R ctx (some db) clause args opt s)
  lookups-Classified condition keys s1 clause args has_keys cleared =
      (lookup_by-Classified condition keys s1 has_keys cleared, lookup_where-Classified clause args)

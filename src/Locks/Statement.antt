-- ===== src/Locks/Statement.antt =====
-- The statement of a write with a version for its only condition.
use go_dbw.Prelude.{
  ◌≡◌, refl, ap, ◌∙◌, ℕ, String, ◌==◌, true, not, ◌||◌, Option, none, some, List, [], ◌∷◌, inl, inr,
  is_some, join, arith, Option-cases, Bool-cases,
}
use go_dbw.Errors.{ok, Outcome-cases}
use go_dbw.Reflect.{Value}
use go_dbw.Options.{Options}
use go_dbw.Gorm.{Gorm, Resources, Bind, bind_version}
use go_dbw.Where.{where_clauses_from_opts}
use go_dbw.Conditions.{with_conditions}
use go_dbw.Lookup.{debug_then_table}
use go_dbw.Locks.{Locks, IsVersioned}

module _ (G : Gorm) where
  -- The condition of a version alone.
  version_condition :
      (db : G.Db) (i : Value) (opts : Options G.World) (v : ℕ) (condition : String)
      (args : List Bind)
      → IsVersioned opts v
      → where_clauses_from_opts G db i opts ≡ ok (condition, args)
      → (condition ≡ "version = ?") × (args ≡ bind_version v ∷ [])
  unfolding where_clauses_from_opts join
  version_condition db i opts v condition args alone h =
      let at_version : opts.with_version ≡ some v = alone.at_version in
      let no_clause : (opts.with_where_clause == "") ≡ true = alone.no_where in
      let no_conflict : opts.with_on_conflict ≡ none = alone.no_conflict in
      elim (Option-cases (G.parse (G.model i db) i).1) [
        | inl none_eq ↦ absurd (ground arith)
        | inr (schema, at_schema) ↦ (ground arith, ground arith)
      ]

  -- The statement with the condition of a version alone.
  version_statement :
      (op : String) (db statement st : G.Db) (i : Value) (opts : Options G.World) (v : ℕ)
      → IsVersioned opts v
      → with_conditions G op
          (is_some opts.with_version || not (opts.with_where_clause == ""))
          db
          statement
          i
          opts
        ≡ ok st
      → st ≡ G.where_clause "version = ?" (bind_version v ∷ []) statement
  unfolding with_conditions
  version_statement op db statement st i opts v alone h =
      let at_version : opts.with_version ≡ some v = alone.at_version in
      elim (Outcome-cases (where_clauses_from_opts G db i opts)) [
        | inl ((condition, args), eq) ↦
            let (c, a) = version_condition db i opts v condition args alone eq in ground arith
        | inr (inl (e, eq)) ↦ absurd (ground arith)
        | inr (inr eq) ↦ absurd (ground arith)
      ]

module _ (G : Gorm) (R : Resources G.World) {A K : Type 0} (data_of : G.World → A) (key : Value → K)
    (version_of : K → A → Option ℕ) (asked_by : G.Db → Option ℕ) (v : ℕ)
    (locks : Locks G R data_of key version_of asked_by v) where
  -- It asks for the version.
  pub conditions_ask :
      (op : String) (db statement st : G.Db) (i : Value) (opts : Options G.World)
      → IsVersioned opts v
      → with_conditions G op
          (is_some opts.with_version || not (opts.with_where_clause == ""))
          db
          statement
          i
          opts
        ≡ ok st
      → asked_by st ≡ some v
  conditions_ask op db statement st i opts alone h =
      ap asked_by (version_statement G op db statement st i opts v alone h)
      ∙ locks.of_where statement

  pub debug_then_table_asks :
      (opts : Options G.World) (db : G.Db) → asked_by (debug_then_table G opts db) ≡ asked_by db
  debug_then_table_asks opts db = elim (Bool-cases opts.with_debug) [
    | inl debugged ↦ elim (Bool-cases (opts.with_table == "")) [
      | inl default ↦ rw (debugged, default) (locks.of_debug db)
      | inr other ↦ rw (debugged, other) (locks.of_table _ _ ∙ locks.of_debug db)
    ]
    | inr quiet ↦ elim (Bool-cases (opts.with_table == "")) [
      | inl default ↦ rw (quiet, default) refl
      | inr other ↦ rw (quiet, other) (locks.of_table _ _)
    ]
  ]

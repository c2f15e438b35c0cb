-- ===== src/Where.antt =====
-- The conditions that operations send: `whereClausesFromOpts`, `primaryKeysWhere` and
-- `primaryFieldsAreZero` of rw.go.
pub mod Aligned
use go_dbw.Prelude.{
  ◌≡◌, refl, ℕ, zero, String, ◌<>◌, ◌==◌, Bool, true, false, not, ◌&&◌, ◌||◌, Option, none, some,
  List, [], ◌∷◌, ◌++◌, map, is_some, is_empty, eqb, join, if◌then◌else◌,
}
use go_dbw.Errors.{
  Outcome, ok, err, panic, Error, errorf, sentinel, invalid_parameter, unknown, text_arg, fail_if,
  ◌>>=◌, ◌>>◌,
}
use go_dbw.Reflect.{Value, text}
use go_dbw.Contains.{contains}
use go_dbw.Options.{Options}
use go_dbw.Gorm.{Gorm, Resources, Schema, SchemaField, Bind, bind_value, bind_version}
use go_dbw.Guards.{bad_parameter}

-- `mDb.Statement.Schema.…`: following a nil schema panics.
abbrev pub the_schema : Option Schema → Outcome Schema
the_schema none = panic
the_schema (some s) = ok s

-- `return "", nil, fmt.Errorf("%s: %w", op, err)` on an error of `Parse`
abbrev pub fail_parse : Option Error → Outcome (Unit {0})
fail_parse none = ok tt
fail_parse (some e) = err (errorf "dbw.primaryKeysWhere" [] e)

abbrev pub opts_table : {W : Type 0} → Options W → Schema → String
opts_table opts schema = if not (opts.with_table == "") then opts.with_table else schema.table

module _ (G : Gorm) where
  -- The version's clause, or none; `*opts.WithVersion == 0` is an error.
  unfoldable pub version_clause :
      G.Db → Value → Options G.World → Option ℕ → Outcome (List String × List Bind)
  version_clause db i opts none = ok ([], [])
  version_clause db i opts (some version) = do
    fail_if (eqb version 0) (bad_parameter "dbw.whereClausesFromOpts: with version option is zero")
    let (parse_error, schema) = G.parse (G.model i db) i
    fail_if (is_some parse_error && not (is_some schema)) (
        errorf "dbw.whereClausesFromOpts: (internal error) unable to parse stmt" []
          (sentinel unknown))
    schema ← the_schema schema
    fail_if (not (contains schema.db_names "version")) (
        errorf "dbw.whereClausesFromOpts: %s does not have a version field"
          (text_arg schema.table ∷ []) (sentinel invalid_parameter))
    let clause =
        if is_some opts.with_on_conflict
        then opts_table opts schema <> ".version = ?"
        else "version = ?"
    ok (clause ∷ [], bind_version version ∷ [])

  -- The caller's clause behind the version's, joined, and the arguments of both.
  abbrev pub joined : Options G.World → List String → List Bind → String × List Bind
  joined opts clauses args =
      if not (opts.with_where_clause == "")
      then (
        join (clauses ++ opts.with_where_clause ∷ []) " and ",
        args ++ map bind_value opts.with_where_clause_args,
      )
      else (join clauses " and ", args)

  unfoldable pub where_clauses_from_opts :
      G.Db → Value → Options G.World → Outcome (String × List Bind)
  unfolding version_clause join
  where_clauses_from_opts db i opts = do
    (clauses, args) ← version_clause db i opts opts.with_version
    ok (joined opts clauses args)

  -- The names and values of the primary fields; a zero one is an error.
  unfoldable pub collect_keys : Value → List SchemaField → Outcome (List String × List Value)
  collect_keys i [] = ok ([], [])
  collect_keys i (f ∷ fs) =
      let rest = collect_keys i fs in
      if f.primary_key
      then (do
        let (v, is_zero) = f.value_of i
        fail_if is_zero (
            errorf "dbw.primaryKeysWhere: primary field %s is zero" (text_arg f.name ∷ [])
              (sentinel invalid_parameter))
        (names, values) ← rest
        ok (f.db_name ∷ names, v ∷ values))
      else rest

  -- The keys of the first of these that the resource has: a public id, a private id, or else the
  -- primary fields of its schema.
  unfoldable pub resource_keys :
      Resources G.World → Value → Option Schema → Outcome (List String × List Value)
  unfolding collect_keys
  resource_keys R i schema = elim (R.get_public_id i) [
    | some id ↦ do
      fail_if (id == "") (bad_parameter "dbw.primaryKeysWhere: missing primary key")
      ok ("public_id" ∷ [], text "string" id ∷ [])
    | none ↦ elim (R.get_private_id i) [
      | some id ↦ do
        fail_if (id == "") (bad_parameter "dbw.primaryKeysWhere: missing primary key")
        ok ("private_id" ∷ [], text "string" id ∷ [])
      | none ↦ do schema ← the_schema schema; collect_keys i schema.primary_fields
    ]
  ]

  unfoldable pub primary_keys_where :
      Resources G.World → G.Db → Value → Outcome (String × List Bind)
  unfolding resource_keys join
  primary_keys_where R db i = do
    let (parse_error, schema) = G.parse (G.model i db) i
    fail_parse parse_error
    (names, values) ← resource_keys R i schema
    fail_if (is_empty names) (bad_parameter "dbw.primaryKeysWhere: no primary key(s)")
    ok (join (map (λ col. col <> " = ?") names) " and ", map bind_value values)

  -- The names of the primary fields that are zero.
  unfoldable pub zero_names : Value → List SchemaField → List String
  zero_names i [] = []
  zero_names i (f ∷ fs) =
      if f.primary_key && (f.value_of i).1 then f.name ∷ zero_names i fs else zero_names i fs

  unfoldable pub primary_fields_are_zero : G.Db → Value → Outcome (List String × Bool)
  unfolding zero_names
  primary_fields_are_zero db i = do
    let (parse_error, schema) = G.parse (G.model i db) i
    fail_if (is_some parse_error) (bad_parameter "dbw.primaryFieldsAreZero")
    schema ← the_schema schema
    let names = zero_names i schema.primary_fields
    ok (names, not (is_empty names))

-- ===== src/Where/Aligned.antt =====
-- The columns of a condition and its arguments are in step.
use go_dbw.Prelude.{
  ◌≡◌, refl, ap, sym, ◌∙◌, ℕ, String, ◌<>◌, ◌==◌, true, false, none, some, List, [], ◌∷◌, map,
  is_empty, eqb, join, if◌then◌else◌, All, Bool-cases, Option-cases, inl, inr, arith,
}
use go_dbw.Errors.{Outcome-cases, ok}
use go_dbw.Reflect.{Value}
use go_dbw.Contains.{contains, keep}
use go_dbw.Options.{Options}
use go_dbw.Gorm.{Gorm, Resources, Schema, SchemaField, Bind, bind_value, bind_version}
use go_dbw.Where.{collect_keys, primary_keys_where, where_clauses_from_opts}

-- The primary fields among the schema's.
abbrev pub primaries : List SchemaField → List SchemaField
primaries fs = keep (λ f. f.primary_key) fs

-- What the condition of a list of primary fields is to be.
abbrev pub AreKeysOf : Value → List SchemaField → List String × List Value → Type 0
AreKeysOf i fs (names, values) =
    (names ≡ map (λ f. f.db_name) fs)
    × (values ≡ map (λ f. (f.value_of i).0) fs)
    × All (λ f. (f.value_of i).1 ≡ false) fs

map-map :
    {A B C : Type 0} (g : B → C) (f : A → B) (xs : List A)
    → map g (map f xs) ≡ map (λ x. g (f x)) xs
map-map g f [] = refl
map-map g f (x ∷ xs) = ap (λ ys. g (f x) ∷ ys) (map-map g f xs)

is_empty-map : {A B : Type 0} (f : A → B) (xs : List A) → is_empty (map f xs) ≡ is_empty xs
is_empty-map f [] = refl
is_empty-map f (x ∷ xs) = refl

module _ (G : Gorm) where
  -- A primary field that the loop gets past is not zero, and goes before the rest.
  primary_step :
      (i : Value) (f : SchemaField) (fs : List SchemaField) (ks : List String × List Value)
      → f.primary_key ≡ true
      → collect_keys G i (f ∷ fs) ≡ ok ks
      → ((f.value_of i).1 ≡ false)
        × ((js : List String × List Value) × (collect_keys G i fs ≡ ok js)
            × (ks ≡ (f.db_name ∷ js.0, (f.value_of i).0 ∷ js.1)))
  unfolding collect_keys
  primary_step i f fs ks primary h = elim (Outcome-cases (collect_keys G i fs)) [
    | inl (js, eq) ↦ elim (Bool-cases (f.value_of i).1) [
      | inr set ↦ (set, (js, eq, ground arith))
      | inl zero ↦ absurd (ground arith)
    ]
    | inr (inl (e, eq)) ↦ absurd (ground arith)
    | inr (inr eq) ↦ absurd (ground arith)
  ]

  collect_keys-AreKeysOf :
      (i : Value) (fs : List SchemaField) (ks : List String × List Value)
      → collect_keys G i fs ≡ ok ks
      → AreKeysOf i (primaries fs) ks
  unfolding collect_keys keep
  collect_keys-AreKeysOf i [] ks h = ground arith
  collect_keys-AreKeysOf i (f ∷ fs) ks h = elim (Bool-cases f.primary_key) [
    | inr other ↦
        let h' : collect_keys G i fs ≡ ok ks = ground arith in
        rw other (collect_keys-AreKeysOf i fs ks h')
    | inl primary ↦
        let (set, (js, rest, split)) = primary_step i f fs ks primary h in
        let (names, values, all) = collect_keys-AreKeysOf i fs js rest in
        rw (primary, split)
          (ap (λ ns. f.db_name ∷ ns) names, ap (λ vs. (f.value_of i).0 ∷ vs) values, (set, all))
  ]

  keys_condition :
      (R : Resources G.World) (db : G.Db) (i : Value) (schema : Schema)
      (ks : List String × List Value) (condition : String) (args : List Bind)
      → R.get_public_id i ≡ none
      → R.get_private_id i ≡ none
      → (G.parse (G.model i db) i).0 ≡ none
      → (G.parse (G.model i db) i).1 ≡ some schema
      → collect_keys G i schema.primary_fields ≡ ok ks
      → primary_keys_where G R db i ≡ ok (condition, args)
      → (is_empty ks.0 ≡ false)
        × (condition ≡ join (map (λ col. col <> " = ?") ks.0) " and ")
        × (args ≡ map bind_value ks.1)
  unfolding primary_keys_where
  keys_condition R db i schema ks condition args no_public no_private parsed at_schema is_keys h =
      ground arith

  -- The keys of a resource with neither a public nor a private id are its primary fields: `primaryKeysWhere` gives
  -- a test with a placeholder for the column of each of them and their values in the same order, and there is at
  -- least one, and none is zero.
  pub primary_keys_where_composite :
      (R : Resources G.World) (db : G.Db) (i : Value) (condition : String) (args : List Bind)
      → R.get_public_id i ≡ none
      → R.get_private_id i ≡ none
      → primary_keys_where G R db i ≡ ok (condition, args)
      → (schema : Schema) × ((G.parse (G.model i db) i).1 ≡ some schema)
        × (condition
            ≡ join (map (λ f. f.db_name <> " = ?") (primaries schema.primary_fields)) " and ")
        × (args ≡ map (λ f. bind_value (f.value_of i).0) (primaries schema.primary_fields))
        × (is_empty (primaries schema.primary_fields) ≡ false)
        × All (λ f. (f.value_of i).1 ≡ false) (primaries schema.primary_fields)
  unfolding primary_keys_where
  primary_keys_where_composite R db i condition args no_public no_private h =
      elim (Option-cases (G.parse (G.model i db) i).0) [
        | inr (e, eq) ↦ absurd (ground arith)
        | inl eq ↦ elim (Option-cases (G.parse (G.model i db) i).1) [
          | inl none_eq ↦ absurd (ground arith)
          | inr (schema, at_schema) ↦
              elim (Outcome-cases (collect_keys G i schema.primary_fields)) [
                | inr (inl (e, bad)) ↦ absurd (ground arith)
                | inr (inr bad) ↦ absurd (ground arith)
                | inl (ks, is_keys) ↦
                    let (some_keys, is_condition, is_args) =
                      keys_condition R db i schema ks condition args no_public no_private eq
                        at_schema is_keys h in
                    let (names, values, all) =
                      collect_keys-AreKeysOf i schema.primary_fields ks is_keys in
                    let pfs : List SchemaField = primaries schema.primary_fields in
                    (
                      schema,
                      at_schema,
                      is_condition
                          ∙ ap (λ ns. join ns " and ")
                              (ap (map (λ col. col <> " = ?")) names ∙ map-map _ _ pfs),
                      is_args ∙ ap (map bind_value) values ∙ map-map _ _ pfs,
                      sym (is_empty-map (λ f. f.db_name) pfs) ∙ ap is_empty (sym names) ∙ some_keys,
                      all,
                    )
              ]
        ]
      ]

  -- A version in the options makes the first argument of the condition: it is not zero, and the caller's arguments
  -- follow.
  pub where_clauses_from_opts_version :
      (db : G.Db) (i : Value) (opts : Options G.World) (v : ℕ) (condition : String)
      (args : List Bind)
      → opts.with_version ≡ some v
      → where_clauses_from_opts G db i opts ≡ ok (condition, args)
      → (eqb v 0 ≡ false)
        × ((schema : Schema) × ((G.parse (G.model i db) i).1 ≡ some schema)
            × (contains schema.db_names "version" ≡ true))
        × (args
            ≡ bind_version v
              ∷ (if opts.with_where_clause == ""
                  then []
                  else map bind_value opts.with_where_clause_args))
  unfolding where_clauses_from_opts
  where_clauses_from_opts_version db i opts v condition args at_version h =
      elim (Option-cases (G.parse (G.model i db) i).1) [
        | inl none_eq ↦ absurd (ground arith)
        | inr (schema, at_schema) ↦ (ground arith, (schema, at_schema, ground arith), ground arith)
      ]

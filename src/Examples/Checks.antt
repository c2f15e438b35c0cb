-- ===== src/Examples/Checks.antt =====
-- Tests of conditions, options, conflict clauses and cleared fields.
use go_dbw.Prelude.{
  ◌≡◌, refl, ◌↔◌, String, ◌<>◌, ◌==◌, true, false, Option, none, some, List, [], ◌∷◌, map, any, All,
  is_empty, eqb, length, to_upper, equal_fold, join, if◌then◌else◌,
}
use go_dbw.Prelude.Dict.{Dict, keys}
use go_dbw.Errors.{Outcome, ok, err}
use go_dbw.Reflect.{Value, nil, item, text, GoType, ptr_type, named, struct_kind}
use go_dbw.Reflect.Zero.{is_zero}
use go_dbw.Contains.{contains}
use go_dbw.Clause.{Assigned, other, ColumnValue, set_column_values, value_at}
use go_dbw.Clause.Sorted.{IsSorted, set_column_values_lem}
use go_dbw.Clear.{set_fields_to_nil}
use go_dbw.Clear.Laws.{IsCleared, set_fields_to_nil-IsCleared}
use go_dbw.Delete.Items.{check_delete_items}
use go_dbw.Delete.Passed.{AllDeletable, check_delete_items_iff}
use go_dbw.Gorm.{Schema, bind_value, bind_version}
use go_dbw.Options.{
  Options, Setter, get_default_options, get_opts, with_lookup, with_debug, with_prng_values,
}
use go_dbw.Ids.{Randoms, new_id}
use go_dbw.Guards.{bad_parameter}
use go_dbw.Where.{
  primary_keys_where, resource_keys, collect_keys, where_clauses_from_opts, version_clause,
}
use go_dbw.Where.Aligned.{primaries, primary_keys_where_composite, where_clauses_from_opts_version}
use go_dbw.Examples.{Counters, toy, plain_types, user, user_fields, users}

abbrev user_type : GoType
user_type = ptr_type (named struct_kind "User")

check_delete_items_iff_example :
    check_delete_items false users.primary_fields user_type 0
        (item (user "u1" "ann") (item (user "" "bob") nil))
      ≡ ok tt
    ↔ AllDeletable false users.primary_fields user_type
        (item (user "u1" "ann") (item (user "" "bob") nil))
check_delete_items_iff_example =
    check_delete_items_iff false users.primary_fields user_type 0
      (item (user "u1" "ann") (item (user "" "bob") nil))

keys_run :
    primary_keys_where toy plain_types tt (user "u1" "ann")
    ≡ ok ("public_id = ?", bind_value (text "string" "u1") ∷ [])
unfolding primary_keys_where resource_keys collect_keys join is_zero
keys_run = refl

primary_keys_where_composite_example :
    (schema : Schema) × (some users ≡ some schema)
    × ("public_id = ?"
        ≡ join (map (λ f. f.db_name <> " = ?") (primaries schema.primary_fields)) " and ")
    × (bind_value (text "string" "u1") ∷ []
        ≡ map (λ f. bind_value (f.value_of (user "u1" "ann")).0) (primaries schema.primary_fields))
    × (is_empty (primaries schema.primary_fields) ≡ false)
    × All (λ f. (f.value_of (user "u1" "ann")).1 ≡ false) (primaries schema.primary_fields)
primary_keys_where_composite_example =
    primary_keys_where_composite toy plain_types tt (user "u1" "ann") "public_id = ?"
      (bind_value (text "string" "u1") ∷ []) refl refl keys_run

abbrev versioned : Options Counters
versioned = record (get_default_options {W = Counters}) {
  with_version = some 3;
  with_where_clause = "";
  with_on_conflict = none;
}

version_run :
    where_clauses_from_opts toy tt (user "u1" "ann") versioned
    ≡ ok ("version = ?", bind_version 3 ∷ [])
unfolding where_clauses_from_opts version_clause join contains equal_fold to_upper
version_run = refl

where_clauses_from_opts_version_example :
    (eqb 3 0 ≡ false)
    × ((schema : Schema) × (some users ≡ some schema) × (contains schema.db_names "version" ≡ true))
    × (bind_version 3 ∷ []
        ≡ bind_version 3
          ∷ (if versioned.with_where_clause == ""
              then []
              else map bind_value versioned.with_where_clause_args))
where_clauses_from_opts_version_example =
    where_clauses_from_opts_version toy tt (user "u1" "ann") versioned 3 "version = ?"
      (bind_version 3 ∷ []) refl version_run

set_fields_to_nil-IsCleared_example :
    IsCleared ("Name" ∷ []) (set_fields_to_nil (user "u1" "ann") ("Name" ∷ []))
set_fields_to_nil-IsCleared_example =
    set_fields_to_nil-IsCleared "User" (user_fields "u1" "ann") ("Name" ∷ []) refl

abbrev new_value : Assigned
new_value = other (text "string" "new")

abbrev one_column : List ColumnValue
one_column = record { column_name = "name"; value = new_value } ∷ []

abbrev caller_options : List (Option (Setter Counters))
caller_options = some (with_lookup false) ∷ none ∷ some (with_debug true) ∷ []

abbrev two_wheres : List (String × List Value)
two_wheres = ("a = ?", text "string" "x" ∷ []) ∷ ("b = ?", text "string" "y" ∷ []) ∷ []

abbrev two_columns : Dict Assigned
two_columns = ("name", new_value) ∷ ("age", new_value) ∷ []

set_column_values_lem_example :
    IsSorted (map (λ c. c.column_name) (set_column_values two_columns))
    × (length (set_column_values two_columns) ≡ length two_columns)
    × ((q : String)
        → any (λ c. c.column_name == q) (set_column_values two_columns)
          ≡ any (λ k. k == q) (keys two_columns))
    × All (λ c. c.value ≡ value_at two_columns c.column_name) (set_column_values two_columns)
set_column_values_lem_example = set_column_values_lem two_columns

-- A reader gives its text, and the world is the next identifier to draw.
abbrev drawn : Randoms String
drawn = record {
  sum256 = λ s. [];
  random_with_reader = λ n bytes. some "fixed";
  random = λ n w. (some w, w);
}

abbrev id_of : List String → String → Outcome String × String
id_of values prefix = new_id drawn prefix (some (with_prng_values values) ∷ []) "next"

new_id_runs :
    (id_of [] "id" ≡ (ok "id_next", "next"))
    × (id_of ("seed" ∷ []) "id" ≡ (ok "id_fixed", "next"))
    × (id_of [] "" ≡ (err (bad_parameter "dbw.NewId: missing prefix"), "next"))
unfolding new_id get_opts with_prng_values
new_id_runs = (refl, refl, refl)

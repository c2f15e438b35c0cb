-- ===== src/Examples/Succeeding.antt =====
-- Lookups that find nothing, and a search that finds no more than a limit.
use mathlib.Core.Path.{subst}
use go_dbw.Prelude.{
  arith, sym, zero, suc, negsuc, ◌≡◌, ◌≢◌, ◌⊎◌, refl, ◌≤◌, ℕ, pos, ℤ, true, false, Option, none,
  some, List, [], ◌∷◌,
}
use go_dbw.Errors.{ok, gorm_not_found}
use go_dbw.Reflect.{
  Value, text, slice, item, nil, ptr_type, named, struct_kind, indirect, len, no_value,
}
use go_dbw.Options.{Setter, get_opts, with_skip_vet_for_write, with_limit}
use go_dbw.Gorm.{Gorm, Written, bind_value}
use go_dbw.Action.{State, fail_on}
use go_dbw.Prelude.{equal_fold}
use go_dbw.Reflect.Zero.{is_zero}
use go_dbw.Lookup.{lookup_by, ignore_error, clear_default_null_resource_fields}
use go_dbw.Search.{lookup_where, search_where}
use go_dbw.Search.Missing.{lookups-Classified, Classified}
use go_dbw.Search.Limited.{Limits, search_where-limited}
use go_dbw.Where.{primary_keys_where}
use go_dbw.Guards.{raise_error_on_hooks, validate_resources_interface}
use go_dbw.Examples.{Counters, toy, plain_types, holding, user, read}

abbrev unvetted : List (Option (Setter Counters))
unvetted = some (with_skip_vet_for_write true) ∷ []

abbrev ann : State Counters
ann = holding (user "u1" "ann")

ann_hooks : raise_error_on_hooks plain_types ann.resource ≡ ok tt
unfolding raise_error_on_hooks
ann_hooks = refl

-- A database without the row that is looked for
abbrev empty_db : Gorm
empty_db = record toy { first = λ _ v w. record (read v w) { error = some gorm_not_found } }

ann_valid : validate_resources_interface ann.resource ≡ ok tt
unfolding validate_resources_interface
ann_valid = refl

ann_key :
    primary_keys_where empty_db plain_types tt ann.resource
    ≡ ok ("public_id = ?", bind_value (text "string" "u1") ∷ [])
unfolding primary_keys_where is_zero
ann_key = refl

ann_cleared :
    ignore_error (clear_default_null_resource_fields empty_db plain_types tt) ann ≡ (ok tt, ann)
unfolding ignore_error clear_default_null_resource_fields equal_fold fail_on
ann_cleared = refl

lookups-Classified_example :
    let missing : Written Counters = record (read (user "u1" "ann") (ann.world)) {
      error = some gorm_not_found;
    } in
    Classified missing (lookup_by empty_db plain_types tt (some tt) unvetted ann)
    × Classified missing (
        lookup_where empty_db plain_types tt
          (some tt)
          "name = ?"
          (text "string" "ann" ∷ [])
          unvetted
          ann)
lookups-Classified_example =
    lookups-Classified empty_db plain_types tt tt unvetted ann ann_hooks ann_valid "public_id = ?"
      (bind_value (text "string" "u1") ∷ []) ann "name = ?" (text "string" "ann" ∷ []) ann_key
      ann_cleared

-- A database that keeps the limit, and finds one user if it is not zero
abbrev found : Option ℤ → Value
found (some (pos (suc n))) =
    slice (ptr_type (named struct_kind "User")) (item (user "u1" "ann") nil)
found (some (pos zero)) = slice (ptr_type (named struct_kind "User")) nil
found (some (negsuc n)) = no_value
found none = no_value

abbrev counted_db : Gorm
counted_db = record {
  Context = Unit;
  World = Counters;
  Db = Option ℤ;
  Conditions = Unit;
  Rows = Unit;
  with_context = λ _ db. db;
  model = λ _ db. db;
  debug = λ db. db;
  table = λ _ db. db;
  order = λ _ db. db;
  limit = λ n _. some n;
  clauses = λ _ db. db;
  where_clause = λ _ _ db. db;
  raw = λ _ _ db. db;
  build_condition = λ _ _ _. tt;
  parse = λ _ v. toy.parse tt v;
  error_of = λ _. none;
  can_begin = λ _. true;
  dialect_name = λ _. "toy";
  create = λ _ v w. read v w;
  create_in_batches = λ _ v _ w. read v w;
  updates = λ _ _ v w. read v w;
  delete = λ _ v w. read v w;
  first = λ _ v w. read v w;
  find = λ db v w. read (found db) w;
  exec = λ _ _ _ w. toy.exec tt "" [] w;
  rows = λ _ w. (ok tt, w);
  scan_rows = λ _ _ v w. read v w;
  begin = λ db w. (db, w);
  commit = λ _ w. (none, w);
  rollback = λ _ w. (none, w);
  is_done = λ _ _ w. (false, w);
}

found_few : (n : ℕ) → len (indirect (found (some (pos n)))) ≤ n
found_few zero = ground arith
found_few (suc n) = ground arith

counted_db-Limits : Limits counted_db (λ db. db)
counted_db-Limits = record {
  of_limit = λ n db. refl;
  of_where = λ c bs db. refl;
  of_find = λ n db v w eq. subst (λ l. len (indirect (found l)) ≤ n) (sym eq) (found_few n);
}

abbrev at_most_three : List (Option (Setter Counters))
at_most_three = some (with_limit (pos 3)) ∷ []

at_most_three_limit : (get_opts at_most_three).with_limit ≡ pos 3
unfolding get_opts with_limit
at_most_three_limit = refl

search_where-limited_example :
    let run =
      search_where counted_db plain_types tt
        (some none)
        ""
        []
        at_most_three
        (holding (slice (ptr_type (named struct_kind "User")) nil)) in
    (run.0 ≢ ok tt) ⊎ (len (indirect run.1.resource) ≤ 3)
search_where-limited_example =
    search_where-limited counted_db plain_types (λ db. db) counted_db-Limits tt (some none) "" []
      at_most_three (holding (slice (ptr_type (named struct_kind "User")) nil)) 3
      at_most_three_limit

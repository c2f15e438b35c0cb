-- ===== src/Examples/Dbtested.antt =====
-- Tests of the package's own test types, and of the set-up of a test.
use go_dbw.Prelude.{
  ◌≡◌, ◌↔◌, refl, ℕ, ◌+◌, String, ◌==◌, true, none, some, List, [], ◌∷◌, all, any, ◌<>◌, join,
  to_lower,
}
use go_dbw.Errors.{ok, err}
use go_dbw.Reflect.{nil, ptr, struct, done, slice, item, named, struct_kind}
use go_dbw.Common.{elements}
use go_dbw.Clear.{set_fields_to_nil}
use go_dbw.Gorm.{create_op, update_op, before_save}
use go_dbw.Guards.{bad_parameter, raise_error_on_hooks}
use go_dbw.Action.{◌>>◌, ◌>>=◌, lift, pure, return_rows, fail_when, finish, fail_on}
use go_dbw.Lookup.{underlying}
use go_dbw.Query.{exec}
use go_dbw.Registry.{filter_paths, non_creatable_fields, non_updatable_fields}
use go_dbw.Ids.{Randoms}
use go_dbw.Options.{error, get_opts}
use go_dbw.Db.{string_to_db_type, open_connection}
use go_dbw.Dbtest.{
  to_value, StoreTestUser, user_fields, a_test_user, no_user, test_car, vet_test_user,
}
use go_dbw.Dbtest.Stamps.{Clock, scanned_time, scanned_text, scan, value}
use go_dbw.Dbtest.Made.{
  made, car_fields, scooter_fields, rental_fields, new_test_car, new_test_scooter,
}
use go_dbw.Reflect.{type_eq}
use go_dbw.Ids.{Randoms}
use go_dbw.Dbtest.{test_scooter, test_rental, test_car, to_value}
use go_dbw.Dbtest.Vetting.{
  table_name_of, get_public_id, get_private_id, test_types, store_of, vet_store, hook_types_refused,
}
use go_dbw.Dbtest.Vetted.{IsNamed, Vetted, vet_test_user_iff}
use go_dbw.Testing.{Harness, TestOption, trim_slash, split_query}
use go_dbw.Testing.SqliteScript.{test_query_create_tables_sqlite}
use go_dbw.Testing.DropScripts.{test_query_drop_tables_sqlite}
use go_dbw.Testing.Setup.{test_setup}
use go_dbw.Testing.Registered.{test_setup-vetted}
use go_dbw.Examples.{Counters, holding, user}
use go_dbw.Examples.Connected.{levelled, sqlite_only}

-- A time is its year, in a zone that is told by one more.
abbrev years : Clock
years = record {
  Time = String × ℕ;
  Proto = String;
  date = λ y month day hour minute second nano. ("date", 0);
  now = ("now", 1);
  new_proto = λ t. t.0;
  as_time = λ p. elim p [ none ↦ ("1970", 0) | some y ↦ (y, 0) ];
}

-- A time, an infinity, and a text that is neither
scanned_run :
    (value years (some (scan years (scanned_time ("2020", 1)) none).1) ≡ some ("2020", 0))
    × (value years (some (scan years (scanned_text "infinity") none).1) ≡ some ("date", 0))
    × (scan years (scanned_text "later") (some "2020") ≡ (ok tt, some "2020"))
unfolding scan value
scanned_run = (refl, refl, refl)

abbrev ann : StoreTestUser
ann = record no_user { public_id = "u1"; name = "ann" }

hook_types_refused_example :
    (raise_error_on_hooks (test_types {W = Counters}) (ptr (struct "TestWithBeforeSave" done))
      ≡ err (bad_parameter "dbw.raiseErrorOnHooks: gorm callback/hooks are not supported"))
    × (raise_error_on_hooks
          (test_types {W = Counters})
          (slice (named struct_kind "any") (item (ptr (struct "TestWithBeforeSave" done)) nil))
        ≡ err (bad_parameter "dbw.raiseErrorOnHooks: gorm callback/hooks are not supported"))
    × (raise_error_on_hooks (test_types {W = Counters}) (to_value (a_test_user ann "")) ≡ ok tt)
hook_types_refused_example =
    hook_types_refused Counters before_save (named struct_kind "any") nil (a_test_user ann "")

vet_test_user_iff_example :
    (vet_test_user update_op ("Name" ∷ []) (user_fields ann) ≡ ok tt)
    ↔ (IsNamed ann × Vetted update_op ("Name" ∷ []) ann)
vet_test_user_iff_example = vet_test_user_iff update_op ("Name" ∷ []) ann

abbrev counted : Randoms Counters
counted = record {
  sum256 = λ s. [];
  random_with_reader = λ n bytes. some "fixed";
  random = λ n w. (some "drawn", w);
}

abbrev no_environment : Harness levelled sqlite_only
no_environment = record {
  Url = String;
  getenv = λ name. "";
  cleanup = λ c w. record w { opened = w.opened + 1 };
  parse_url = λ s. ok s;
  dsn = λ u. u;
  user_name = λ u. "me";
  path = λ u. u;
  with_path = λ p u. p;
  gen_postgres = λ u. ok u;
  conn_pool = λ db. some tt;
}

abbrev no_test_options : List (TestOption levelled sqlite_only)
no_test_options = []

test_setup-vetted_example :
    let sets =
      (test_setup levelled sqlite_only counted no_environment no_test_options
        (holding (user "u1" "ann"))).1 in
    ((vet_store create_op []
          (store_of (set_fields_to_nil (to_value (a_test_user ann "")) (non_creatable_fields sets)))
        ≡ ok tt)
      ↔ IsNamed ann)
    × ((vet_store update_op
            (elements (filter_paths (non_updatable_fields sets) (some ("publicid" ∷ "Name" ∷ []))))
            (store_of (to_value (a_test_user ann "")))
          ≡ ok tt)
        ↔ IsNamed ann)
test_setup-vetted_example =
    test_setup-vetted levelled sqlite_only counted no_environment no_test_options
      (holding (user "u1" "ann")) ann "" [] (some ("publicid" ∷ "Name" ∷ []))

-- `file::memory:` is opened, its pool is to be closed, and the tables are made.
memory_run :
    (test_setup levelled sqlite_only counted no_environment no_test_options
      (holding (user "u1" "ann"))).0
    ≡ ok (error, "file::memory:")
unfolding test_setup ◌>>◌ ◌>>=◌ lift to_lower pure string_to_db_type open_connection get_opts exec
    return_rows underlying fail_when join finish fail_on
memory_run = refl

segments_run : split_query (trim_slash "/db?sslmode=disable") ≡ "db" ∷ "sslmode=disable" ∷ []
unfolding split_query trim_slash
segments_run = refl

abbrev tables : List String
tables = "db_test_user" ∷ "db_test_car" ∷ "db_test_rental" ∷ "db_test_scooter" ∷ []

-- Each table is made and dropped.
tables_run :
    all
      (λ t.
        any
          (λ l. l == ("create table if not exists " <> t <> " ("))
          test_query_create_tables_sqlite)
      tables
    ≡ true
tables_run = refl

dropped_run :
    all
      (λ t. any (λ l. l == ("drop table if exists " <> t <> ";")) test_query_drop_tables_sqlite)
      tables
    ≡ true
dropped_run = refl

-- Ids of new resources, drawn from the world
abbrev drawn_ids : Randoms String
drawn_ids = record {
  sum256 = λ s. [];
  random_with_reader = λ n bytes. none;
  random = λ n w. (some w, "next");
}

made_run :
    (new_test_car drawn_ids "c1" ≡ (ok (made test_car (car_fields "c1")), "next"))
    × (new_test_scooter drawn_ids "s1" ≡ (ok (made test_scooter (scooter_fields "s1")), "next"))
    × (get_public_id (to_value (made test_car (car_fields "c1"))) ≡ some "c1")
    × (get_private_id (to_value (made test_scooter (scooter_fields "s1"))) ≡ some "s1")
    × (table_name_of (to_value (made test_rental (rental_fields "u1" "c1")))
        ≡ some "db_test_rental")
unfolding new_test_car new_test_scooter get_public_id get_private_id table_name_of type_eq
made_run = (refl, refl, refl, refl, refl)

-- ===== src/Testing.antt =====
-- testing.go: the set-up of a test's database. A failed requirement stops the test, as `t.Fatal` does.
pub mod SqliteScript
pub mod PostgresScript
pub mod DropScripts
pub mod Setup
pub mod Registered
use Prim.Native.Char.{Char}
use Prim.Native.String
use go_dbw.Prelude.{
  ◌≡◌, String, ◌<>◌, ◌==◌, Bool, true, false, not, ◌&&◌, ◌||◌, Option, none, some, List, [], ◌∷◌,
  join, to_lower, if◌then◌else◌,
}
use go_dbw.Errors.{Outcome, ok, err, panic, Error, plain, text_arg}
use go_dbw.Reflect.{Value, text}
use go_dbw.Gorm.{Gorm}
use go_dbw.Action.{State, Action, ◌>>=◌, ◌>>◌, pure, lift, fail_on, fail_when, when}
use go_dbw.Registry.{init_non_updatable_fields, init_non_creatable_fields}
use go_dbw.Query.{exec}
use go_dbw.Ids.{Randoms, new_id}
use go_dbw.Db.{
  Drivers, postgres, sqlite, db_type_string, string_to_db_type, open_connection, open_with, debug,
  close,
}
use go_dbw.Testing.SqliteScript.{test_query_create_tables_sqlite}
use go_dbw.Testing.PostgresScript.{test_query_create_tables_postgres}
use go_dbw.Testing.DropScripts.{test_query_drop_tables_sqlite, test_query_drop_tables_postgres}

-- `testOptions`; a migration may change the world, and gives its error.
pub record TestOptions (G : Gorm) (D : Drivers G) : Type 0 where
  pub with_dialect : String
  pub with_test_database_url : String
  pub with_test_migration : Option (String → String → G.World → Option Error × G.World)
  pub with_test_migration_using_db : Option (D.Pool → G.World → Option Error × G.World)
  pub with_test_debug : Bool

-- What `t.Cleanup` is given.
pub data Cleanup (G : Gorm) : Type 0 where
  drop_database : G.Db → String → Cleanup G
  close_database : G.Db → Cleanup G

-- The `testing` package, the environment, and the package dburl.
pub record Harness (G : Gorm) (D : Drivers G) : Type 1 where
  pub Url : Type 0
  pub getenv : String → String
  pub cleanup : Cleanup G → G.World → G.World
  pub parse_url : String → Outcome Url
  pub dsn : Url → String
  pub user_name : Url → String
  pub path : Url → String
  pub with_path : String → Url → Url
  pub gen_postgres : Url → Outcome String
  -- the pool of the connection, if it is one of `database/sql`
  pub conn_pool : G.Db → Option D.Pool

-- `strings.TrimPrefix(s, "/")`
unfoldable pub trim_slash : String → String
trim_slash String.[] = ""
trim_slash (String.◌∷◌ c s) = if (String.◌∷◌ c "") == "/" then s else String.◌∷◌ c s

-- `strings.Split(s, "?")`
abbrev onto_first : Char → List String → List String
onto_first c [] = String.◌∷◌ c "" ∷ []
onto_first c (s ∷ ss) = String.◌∷◌ c s ∷ ss

unfoldable pub split_query : String → List String
split_query String.[] = "" ∷ []
split_query (String.◌∷◌ c s) =
    let rest = split_query s in if (String.◌∷◌ c "") == "?" then "" ∷ rest else onto_first c rest

-- `namesSegs[0] = name`
abbrev set_first : String → List String → List String
set_first name [] = []
set_first name (s ∷ ss) = name ∷ ss

-- The dialect: of the environment, or of the options, or else sqlite.
unfoldable pub choose_dialect : String → String → String
choose_dialect env chosen =
    if to_lower env == "postgres"
    then "postgres"
    else if to_lower env == "sqlite"
    then "sqlite"
    else if chosen == ""
    then "sqlite"
    else chosen

unfoldable pub choose_url : String → String → Outcome String
choose_url dialect url =
    if dialect == "postgres" && url == ""
    then err (plain "missing postgres test db url" [])
    else if dialect == "sqlite" && url == ""
    then ok "file::memory:"
    else ok url

abbrev script : List String → String
script lines = join lines "\n"

module _ (G : Gorm) (D : Drivers G) where
  abbrev pub TestOption : Type 0
  TestOption = TestOptions G D → TestOptions G D

  abbrev default_test_options : TestOptions G D
  default_test_options = record {
    with_dialect = "";
    with_test_database_url = "";
    with_test_migration = none;
    with_test_migration_using_db = none;
    with_test_debug = false;
  }

  apply_test_options : TestOptions G D → List TestOption → TestOptions G D
  apply_test_options opts [] = opts
  apply_test_options opts (o ∷ os) = apply_test_options (o opts) os

  unfoldable pub get_test_opts : List TestOption → TestOptions G D
  unfolding apply_test_options
  get_test_opts os = apply_test_options default_test_options os

  unfoldable pub with_test_dialect : String → TestOption
  with_test_dialect dialect o = record o { with_dialect = dialect }

  unfoldable pub with_test_migration :
      Option (String → String → G.World → Option Error × G.World) → TestOption
  with_test_migration fn o = record o { with_test_migration = fn }

  unfoldable pub with_test_migration_using_db :
      Option (D.Pool → G.World → Option Error × G.World) → TestOption
  with_test_migration_using_db fn o = record o { with_test_migration_using_db = fn }

  unfoldable pub with_test_database_url : String → TestOption
  with_test_database_url url o = record o { with_test_database_url = url }

  -- A call that works on the world alone.
  unfoldable pub on_world : {A : Type 0} → (G.World → Outcome A × G.World) → Action G.World A
  on_world f s = let (r, w) = f s.world in (r, record s { world = w })

  -- A migration, whose error stops the test.
  unfoldable pub run_migration : (G.World → Option Error × G.World) → Action G.World (Unit {0})
  run_migration f s = let (e, w) = f s.world in fail_on e (λ e. e) (record s { world = w })

  unfoldable pub create_script : String → Outcome String
  create_script dialect =
      if dialect == "sqlite"
      then ok (script test_query_create_tables_sqlite)
      else if dialect == "postgres"
      then ok (script test_query_create_tables_postgres)
      else err (plain "unknown dialect: %s" (text_arg dialect ∷ []))

  unfoldable pub drop_script : String → Outcome String
  drop_script dialect =
      if dialect == "sqlite"
      then ok (script test_query_drop_tables_sqlite)
      else if dialect == "postgres"
      then ok (script test_query_drop_tables_postgres)
      else err (plain "unknown dialect: %s" (text_arg dialect ∷ []))

  unfoldable pub test_create_tables : G.Db → Action G.World (Unit {0})
  unfolding create_script
  test_create_tables db = do
    query ← lift (create_script (G.dialect_name db))
    exec G D.background (some db) query [] []

  unfoldable pub test_drop_tables : G.Db → Action G.World (Unit {0})
  unfolding drop_script
  test_drop_tables db = do
    query ← lift (drop_script (G.dialect_name db))
    exec G D.background (some db) query [] []

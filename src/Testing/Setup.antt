-- ===== src/Testing/Setup.antt =====
-- `TestSetup` and `TestSetupWithMock` of testing.go, and the functions that they leave to `t.Cleanup`.
use go_dbw.Prelude.{
  String, ◌<>◌, ◌==◌, Bool, true, not, ◌||◌, Option, none, some, List, [], ◌∷◌, join, to_lower,
  if◌then◌else◌,
}
use go_dbw.Errors.{Outcome, ok, err, Error, plain}
use go_dbw.Reflect.{Value, text}
use go_dbw.Gorm.{Gorm}
use go_dbw.Action.{State, Action, ◌>>=◌, ◌>>◌, pure, lift}
use go_dbw.Registry.{init_non_updatable_fields, init_non_creatable_fields}
use go_dbw.Query.{exec}
use go_dbw.Ids.{Randoms, new_id}
use go_dbw.Db.{
  Drivers, DbType, postgres, string_to_db_type, open_connection, open_with, debug, close,
}
use go_dbw.Testing.{
  TestOptions, TestOption, Cleanup, drop_database, close_database, Harness, trim_slash, split_query,
  set_first, choose_dialect, choose_url, get_test_opts, on_world, run_migration, test_create_tables,
}

module _ (G : Gorm) (D : Drivers G) (N : Randoms G.World) (H : Harness G D) where
  -- `rw.Exec` on a connection, and its error
  abbrev exec_on : G.Db → String → List Value → Action G.World (Unit {0})
  exec_on db sql values = exec G D.background (some db) sql values []

  -- `t.Cleanup`
  unfoldable pub register : Cleanup G → Action G.World (Unit {0})
  unfolding on_world
  register c = on_world G D (λ w. (ok tt, H.cleanup c w))

  -- The functions that are registered. They stop nothing: a failure is only noted.
  unfoldable pub run_cleanup : Cleanup G → State G.World → State G.World
  run_cleanup (drop_database db name) s =
      let s =
        (exec_on db
          "select pg_terminate_backend(pid) from pg_stat_activity where datname = ? and pid <> pg_backend_pid()"
          (text "string" name ∷ []) s).1 in
      (exec_on db ("drop database " <> name) [] s).1
  run_cleanup (close_database db) s = record s { world = (close G D (some db) s.world).1 }

  -- A database of the test's own, on the server of the url; what is left is its url.
  unfoldable pub create_test_db : String → Action G.World String
  unfolding register split_query trim_slash
  create_test_db url = do
    u ← lift (H.parse_url url)
    db ← on_world G D (open_connection G D postgres (H.dsn u) [])
    id ← on_world G D (new_id N "go_db_tmp" [])
    let name = to_lower id
    exec_on db ("create database \"" <> name <> "\"") []
    register (drop_database db name)
    exec_on db ("grant all privileges on database " <> name <> " to " <> H.user_name u) []
    let segments = set_first name (split_query (trim_slash (H.path u)))
    lift (H.gen_postgres (H.with_path (join segments "?") u))

  -- The url of the test's database.
  unfoldable pub prepare_url : String → String → Action G.World String
  unfolding create_test_db choose_url
  prepare_url dialect url = do
    chosen ← lift (choose_url dialect url)
    if dialect == "postgres" then create_test_db url else pure chosen

  -- `StringToDbType`, whose error stops the test
  abbrev known_type : DbType × Option Error → Outcome DbType
  known_type (t, none) = ok t
  known_type (t, some e) = err e

  -- The pool that a migration runs on: that of an sqlite connection itself, which may be in memory.
  abbrev migration_pool : String → G.Db → Outcome D.Pool
  migration_pool dialect db =
      if dialect == "sqlite"
      then (elim (H.conn_pool db) [
        | some pool ↦ ok pool
        | none ↦ err (plain "expected the gorm ConnPool to be an *sql.DB" [])
      ])
      else D.pool_of db

  -- One set of migrations: of the first kind of option that is given, or else the package's test tables.
  unfoldable pub migrate : TestOptions G D → String → String → G.Db → Action G.World (Unit {0})
  unfolding run_migration test_create_tables
  migrate opts dialect url db = elim opts.with_test_migration [
    | some fn ↦ run_migration G D (fn dialect url)
    | none ↦ elim opts.with_test_migration_using_db [
      | some fn ↦ do pool ← lift (migration_pool dialect db); run_migration G D (fn pool)
      | none ↦ test_create_tables G D db
    ]
  ]

  abbrev pub store_sets : Action G.World (Unit {0})
  store_sets s = (
    ok tt,
    init_non_creatable_fields ("CreateTime" ∷ "UpdateTime" ∷ [])
        (init_non_updatable_fields ("CreateTime" ∷ "UpdateTime" ∷ "PublicId" ∷ []) s),
  )

  -- `opts.withTestDebug || strings.ToLower(os.Getenv("DEBUG")) == "true"`
  abbrev set_debug : Bool → String → G.Db → G.Db
  set_debug wanted env db = if wanted || to_lower env == "true" then debug G D true db else db

  -- The value of the environment, where it is not empty
  abbrev pub or_env : String → String → String
  or_env env chosen = if not (env == "") then env else chosen

  -- What follows the choice of the url. The logger that `LogMode` gives is dropped.
  unfoldable pub open_test_db : TestOptions G D → String → String → Action G.World (G.Db × String)
  unfolding migrate register
  open_test_db opts dialect url = do
    t ← lift (known_type (string_to_db_type dialect))
    db ← on_world G D (open_connection G D t url [])
    register (close_database db)
    let db = set_debug opts.with_test_debug (H.getenv "DEBUG") db
    migrate opts dialect url db
    pure (db, url)

  unfoldable pub test_setup : List (TestOption G D) → Action G.World (G.Db × String)
  unfolding prepare_url open_test_db get_test_opts choose_dialect
  test_setup opt = do
    store_sets
    let opts = get_test_opts G D opt
    let dialect = choose_dialect (H.getenv "DB_DIALECT") opts.with_dialect
    url ← prepare_url dialect (or_env (H.getenv "DB_DSN") opts.with_test_database_url)
    open_test_db opts dialect url

  -- `TestSetupWithMock`: `sqlmock.New` gives a connection and its mock, which postgres' dialect is put on.
  unfoldable pub test_setup_with_mock :
      {M : Type 0} → (G.World → Outcome (D.Dialector × M) × G.World) → Action G.World (G.Db × M)
  test_setup_with_mock new_mock = do
    (dialector, mock) ← on_world G D new_mock
    db ← on_world G D (open_with G D dialector [])
    pure (db, mock)

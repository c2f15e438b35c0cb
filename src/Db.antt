-- ===== src/Db.antt =====
-- db.go: the types of databases, and the opening of a connection. A connection's logger and its pool of
-- `database/sql` are gorm's.
pub mod Opened
pub mod Printed
use go_dbw.Prelude.{
  ◌≡◌, ℕ, suc, ℤ, pos, negsuc, String, ◌==◌, Bool, true, false, ◌&&◌, Option, none, some, List, [],
  ◌∷◌, is_positive, to_lower, ltb, if◌then◌else◌,
}
use go_dbw.Errors.{
  Outcome, ok, err, panic, Error, errorf, plain, sentinel, internal, text_arg, number_arg,
}
use go_dbw.Reflect.{Value, no_value}
use go_dbw.Options.{Options, Setter, get_opts, Logger, LogLevel, error, info}
use go_dbw.Gorm.{Gorm}
use go_dbw.Guards.{bad_parameter}

-- `DbType`; a number that is none of the constants is another.
pub data DbType : Type 0 where
  unknown_db postgres sqlite : DbType
  other_db : ℤ → DbType

-- `DbType.String`, which indexes an array.
unfoldable pub db_type_string : DbType → Outcome String
db_type_string unknown_db = ok "unknown"
db_type_string postgres = ok "postgres"
db_type_string sqlite = ok "sqlite"
db_type_string (other_db _) = panic

-- The type that is returned, and the error.
unfoldable pub string_to_db_type : String → DbType × Option Error
string_to_db_type dialect =
    if dialect == "postgres"
    then (postgres, none)
    else if dialect == "sqlite"
    then (sqlite, none)
    else (unknown_db, some (plain "%s is an unknown dialect" (text_arg dialect ∷ [])))

-- gorm's dialects, its logger, and the pool of `database/sql`.
pub record Drivers (G : Gorm) : Type 1 where
  pub Dialector : Type 0
  pub Pool : Type 0
  pub name_of : Dialector → String
  -- what `%s` prints of it
  pub text_of : Dialector → String
  pub postgres_dialector : String → Dialector
  pub sqlite_dialector : String → Dialector
  pub background : G.Context
  pub gorm_open : Dialector → G.World → Outcome G.Db × G.World
  -- a session with a new logger at the given level
  pub with_logger : Logger → LogLevel → G.Db → G.Db
  pub log_mode : LogLevel → G.Db → G.Db
  pub pool_of : G.Db → Outcome Pool
  pub set_max_open : Pool → ℤ → G.World → G.World
  pub close_pool : Pool → G.World → Option Error × G.World

abbrev pub lt_ℤ : ℤ → ℤ → Bool
lt_ℤ (pos m) (pos n) = ltb m n
lt_ℤ (pos m) (negsuc n) = false
lt_ℤ (negsuc m) (pos n) = true
lt_ℤ (negsuc m) (negsuc n) = ltb n m

abbrev pub foreign_keys_on : String
foreign_keys_on = "PRAGMA foreign_keys=ON"

-- The minimum is positive where it is printed.
abbrev magnitude : ℤ → ℕ
magnitude (pos n) = n
magnitude (negsuc n) = suc n

-- The error of limits that clash. Its second operand is a text with an operand of its own, the minimum.
abbrev clash : String → ℤ → Error
clash dialect min =
    plain
      "unable to create db object with dialect %s: max_open_connections must be unlimited by setting 0 or at least %d"
      (text_arg dialect ∷ number_arg (magnitude min) ∷ [])

module _ (G : Gorm) (D : Drivers G) where
  -- `DB.DbType` and `RW.Dialect`; following a nil `underlying` panics. No error is ever returned.
  unfoldable pub db_type : G.Db → DbType × String
  unfolding string_to_db_type
  db_type db = ((string_to_db_type (G.dialect_name db)).0, G.dialect_name db)

  unfoldable pub dialect : Option G.Db → Outcome (DbType × String)
  unfolding db_type
  dialect none = panic
  dialect (some db) = ok (db_type db)

  -- `DB.LogLevel` and `DB.Debug`
  unfoldable pub log_level : LogLevel → G.Db → G.Db
  log_level l db = D.log_mode l db

  unfoldable pub debug : Bool → G.Db → G.Db
  unfolding log_level
  debug true db = log_level info db
  debug false db = log_level error db

  unfoldable pub sql_db : Option G.Db → Outcome D.Pool
  sql_db none = err (errorf "dbw.(DB).SqlDB: missing underlying database" [] (sentinel internal))
  sql_db (some db) = D.pool_of db

  abbrev closed : Option Error → Outcome (Unit {0})
  closed none = ok tt
  closed (some e) = err e

  unfoldable pub close : Option G.Db → G.World → Outcome (Unit {0}) × G.World
  close none w =
      (err (errorf "dbw.(DB).Close: missing underlying database" [] (sentinel internal)), w)
  close (some db) w = elim (D.pool_of db) [
    | err e ↦ (err (errorf "dbw.(DB).Close" [] e), w)
    | panic ↦ (panic, w)
    | ok pool ↦ let (e, w) = D.close_pool pool w in (closed e, w)
  ]

  abbrev failed_with : String → Option Error → Outcome (Unit {0})
  failed_with message none = ok tt
  failed_with message (some e) = err (errorf message [] e)

  -- sqlite checks foreign keys only if it is told to.
  unfoldable pub enable_foreign_keys :
      Bool → String → List Value → G.Db → G.World → Outcome (Unit {0}) × G.World
  enable_foreign_keys false message values db w = (ok tt, w)
  enable_foreign_keys true message values db w =
      let t = G.exec db foreign_keys_on values w in (failed_with message t.error, t.world)

  unfoldable pub use_logger : Options G.World → G.Db → G.Db
  use_logger opts db = elim opts.with_logger [
    | none ↦ db
    | some l ↦ D.with_logger l opts.with_log_level db
  ]

  -- The limit on open connections, if there is one, which must not be below the minimum.
  unfoldable pub limit_connections :
      D.Dialector → Options G.World → G.Db → G.World → Outcome (Unit {0}) × G.World
  limit_connections dialect opts db w =
      let max : ℤ = opts.with_max_open_connections in
      let min : ℤ = opts.with_min_open_connections in
      if is_positive max
      then if is_positive min && lt_ℤ max min
        then (err (clash (D.text_of dialect) min), w)
        else elim (D.pool_of db) [
          | err e ↦ (err (errorf "unable retrieve db" [] e), w)
          | panic ↦ (panic, w)
          | ok pool ↦ (ok tt, D.set_max_open pool max w)
        ]
      else (ok tt, w)

  abbrev pub then_do {ℓ} :
      {A : Type ℓ}
      → Outcome (Unit {0}) × G.World
      → (G.World → Outcome A × G.World)
      → Outcome A × G.World
  then_do r next = elim r.0 [ ok _ ↦ next r.1 | err e ↦ (err e, r.1) | panic ↦ (panic, r.1) ]

  -- `openDialector` behind `gorm.Open`
  unfoldable pub set_up : D.Dialector → Options G.World → G.Db → G.World → Outcome G.Db × G.World
  unfolding enable_foreign_keys use_logger limit_connections debug
  set_up dialect opts db w =
      then_do
        (enable_foreign_keys (to_lower (D.name_of dialect) == "sqlite")
          "unable to enable sqlite foreign keys" (no_value ∷ []) db w)
        (λ w.
          let db : G.Db = use_logger opts db in
          then_do (limit_connections dialect opts db w) (λ w. (ok (debug opts.with_debug db), w)))

  unfoldable pub open_dialector :
      D.Dialector → List (Option (Setter G.World)) → G.World → Outcome G.Db × G.World
  unfolding set_up
  open_dialector dialect opt w =
      let (r, w) = D.gorm_open dialect w in
      elim r [
        | err e ↦ (err (errorf "unable to open database" [] e), w)
        | panic ↦ (panic, w)
        | ok db ↦ set_up dialect (get_opts opt) db w
      ]

  unfoldable pub open_with :
      D.Dialector → List (Option (Setter G.World)) → G.World → Outcome G.Db × G.World
  unfolding open_dialector
  open_with dialect opt w = open_dialector dialect opt w

  unfoldable pub dialector_for : DbType → String → Outcome D.Dialector
  dialector_for postgres url = ok (D.postgres_dialector url)
  dialector_for sqlite url = ok (D.sqlite_dialector url)
  dialector_for _ url = err (plain "unable to open %s database type" [])

  abbrev pub is_sqlite : DbType → Bool
  is_sqlite sqlite = true
  is_sqlite _ = false

  -- `Exec` of a new `RW` on the connection
  abbrev exec_failed : Option Error → Outcome (Unit {0})
  exec_failed none = ok tt
  exec_failed (some e) =
      err (errorf "dbw.Open: unable to enable sqlite foreign keys" [] (errorf "dbw.Exec" [] e))

  abbrev foreign_keys_again : Bool → G.Db → G.World → Outcome (Unit {0}) × G.World
  foreign_keys_again false db w = (ok tt, w)
  foreign_keys_again true db w =
      let t = G.exec (G.with_context D.background db) foreign_keys_on [] w in
      (exec_failed t.error, t.world)

  -- `Open`: a connection to one of the two known types of databases.
  unfoldable pub open_connection :
      DbType → String → List (Option (Setter G.World)) → G.World → Outcome G.Db × G.World
  unfolding open_dialector dialector_for
  open_connection t url opt w =
      if url == ""
      then (err (bad_parameter "dbw.Open: missing connection url"), w)
      else elim (dialector_for t url) [
        | err e ↦ (err e, w)
        | panic ↦ (panic, w)
        | ok dialector ↦
            let (r, w) = open_dialector dialector opt w in
            elim r [
              | err e ↦ (err (errorf "dbw.Open" [] e), w)
              | panic ↦ (panic, w)
              | ok db ↦ then_do (foreign_keys_again (is_sqlite t) db w) (λ w. (ok db, w))
            ]
      ]

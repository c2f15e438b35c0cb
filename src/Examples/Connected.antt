-- ===== src/Examples/Connected.antt =====
-- Tests of connections that are opened.
use go_dbw.Prelude.{
  ◌≡◌, refl, pos, true, false, Option, none, some, List, [], ◌∷◌, if◌then◌else◌, to_lower,
}
use go_dbw.Errors.{ok}
use go_dbw.Options.{
  Setter, LogLevel, silent, error, warn, info, with_log_level, with_max_open_connections,
  with_min_open_connections, get_opts, get_default_options, apply_options, apply_option,
}
use go_dbw.Gorm.{Gorm}
use go_dbw.Db.{
  Drivers, open_dialector, set_up, enable_foreign_keys, use_logger, limit_connections, debug,
  log_level,
}
use go_dbw.Db.Printed.{print_f, pg_error, other_value}
use go_dbw.Db.Opened.{open_dialector_opened, limits_clash}
use go_dbw.Examples.{Counters, at_start, toy}

-- A database whose connections show their log level.
abbrev pub levelled : Gorm
levelled = record {
  Context = Unit;
  World = Counters;
  Db = LogLevel;
  Conditions = Unit;
  Rows = Unit;
  with_context = λ _ db. db;
  model = λ _ db. db;
  debug = λ db. db;
  table = λ _ db. db;
  order = λ _ db. db;
  limit = λ _ db. db;
  clauses = λ _ db. db;
  where_clause = λ _ _ db. db;
  raw = λ _ _ db. db;
  build_condition = λ _ _ _. tt;
  parse = λ _ v. toy.parse tt v;
  error_of = λ _. none;
  can_begin = λ _. true;
  dialect_name = λ _. "sqlite";
  create = λ _ v w. toy.create tt v w;
  create_in_batches = λ _ v n w. toy.create_in_batches tt v n w;
  updates = λ _ us v w. toy.updates tt us v w;
  delete = λ _ v w. toy.delete tt v w;
  first = λ _ v w. toy.first tt v w;
  find = λ _ v w. toy.find tt v w;
  exec = λ _ sql vs w. toy.exec tt sql vs w;
  rows = λ _ w. (ok tt, w);
  scan_rows = λ _ r v w. toy.scan_rows tt r v w;
  begin = λ db w. (db, w);
  commit = λ _ w. (none, w);
  rollback = λ _ w. (none, w);
  is_done = λ _ _ w. (false, w);
}

abbrev pub sqlite_only : Drivers levelled
sqlite_only = record {
  Dialector = Unit;
  Pool = Unit;
  name_of = λ _. "sqlite";
  text_of = λ _. "sqlite";
  postgres_dialector = λ _. tt;
  sqlite_dialector = λ _. tt;
  background = tt;
  gorm_open = λ _ w. (ok warn, w);
  with_logger = λ _ l _. l;
  log_mode = λ l _. l;
  pool_of = λ _. ok tt;
  set_max_open = λ _ _ w. w;
  close_pool = λ _ w. (none, w);
}

abbrev quiet_options : List (Option (Setter Counters))
quiet_options =
    some (with_log_level silent)
    ∷ some (with_max_open_connections (pos 5))
    ∷ some (with_min_open_connections (pos 2))
    ∷ []

opened_run : (open_dialector levelled sqlite_only tt quiet_options at_start).0 ≡ ok error
unfolding open_dialector set_up enable_foreign_keys use_logger limit_connections debug log_level
    get_opts get_default_options apply_options apply_option with_log_level with_max_open_connections
    with_min_open_connections to_lower
opened_run = refl

open_dialector_opened_example :
    ((db' : LogLevel) × (error ≡ (if (get_opts quiet_options).with_debug then info else error)))
    × (limits_clash levelled sqlite_only (get_opts quiet_options) ≡ false)
open_dialector_opened_example =
    open_dialector_opened levelled sqlite_only tt quiet_options at_start error opened_run

-- A postgres error is passed on, with the location before it.
printed_run :
    (print_f "%s %v" (other_value "file.go" ∷ pg_error "duplicate key" ∷ [])
      ≡ some (record { location = other_value "file.go"; error = "duplicate key" }))
    × (print_f "%s %v" (pg_error "duplicate key" ∷ []) ≡ none)
    × (print_f "%s %v" (other_value "file.go" ∷ other_value "slow" ∷ []) ≡ none)
unfolding print_f
printed_run = (refl, refl, refl)

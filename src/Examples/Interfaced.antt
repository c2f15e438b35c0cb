-- ===== src/Examples/Interfaced.antt =====
-- Code that is given a `Reader`, and a transaction handler that is given a `Reader` and a `Writer`.
use go_dbw.Prelude.{arith, ◌≡◌, refl, none, some, [], ◌∷◌}
use go_dbw.Errors.{ok}
use go_dbw.Reflect.{text}
use go_dbw.Action.{State}
use go_dbw.Delete.{delete, check_keys_set, delete_schema, prepare_delete}
use go_dbw.Action.{
  ◌>>◌, ◌>>=◌, return_rows, pure, get, fail_when, lift, fail_on, call, fail, finish, when, within,
}
use go_dbw.Lookup.{
  underlying, lookup_by, ignore_error, clear_default_null_resource_fields, clear_defaults,
  is_default_null,
}
use go_dbw.Guards.{raise_error_on_hooks, validate_resources_interface, has_hook}
use go_dbw.Where.{
  primary_keys_where, collect_keys, resource_keys, version_clause, where_clauses_from_opts,
}
use go_dbw.Reflect.Zero.{is_zero}
use go_dbw.Prelude.{equal_fold, join, to_lower}
use go_dbw.Conditions.{with_conditions}
use go_dbw.Contains.{contains}
use go_dbw.Options.{apply_option, apply_options, get_default_options, get_opts}
use go_dbw.Writing.{after_write, before_write}
use go_dbw.Db.{Drivers}
use go_dbw.Interfaces.{Reader, Handler, reader_of, writer_of, on_new_rw}
use go_dbw.Interfaces.Reading.{done, looking_up, searching_where, setting}
use go_dbw.Interfaces.Transacted.{OnlyReads, TxSpares, do_tx-reads}
use go_dbw.DoTx.{TxResult}
use go_dbw.Examples.Transacted.{growing, always}
use go_dbw.Examples.{Counters, at_start, toy, plain_types, holding, user}
use go_dbw.Examples.Writes.{toy-Counting, no_options}

abbrev toy_drivers : Drivers toy
toy_drivers = record {
  Dialector = Unit;
  Pool = Unit;
  name_of = λ _. "toy";
  text_of = λ _. "toy";
  postgres_dialector = λ _. tt;
  sqlite_dialector = λ _. tt;
  background = tt;
  gorm_open = λ _ w. (ok tt, w);
  with_logger = λ _ _ db. db;
  log_mode = λ _ db. db;
  pool_of = λ _. ok tt;
  set_max_open = λ _ _ w. w;
  close_pool = λ _ w. (none, w);
}

-- A handler that reads twice
abbrev in_world : Counters → State Counters
in_world w = record (holding (user "u1" "ann")) { world = w }

abbrev read_again : State Counters → State Counters
read_again s = record s { resource = user "u2" "" }

abbrev reading_in : Reader toy → Counters → State Counters
reading_in reader w =
    (reader.search_where tt "name = ?" (text "string" "bob" ∷ []) no_options
      (read_again (reader.lookup_by tt no_options (in_world w)).1)).1

abbrev reading : Handler toy
reading reader writer w = (ok tt, (reading_in reader w).world)

reading-OnlyReads : OnlyReads toy plain_types toy_drivers (λ w. w.writes) reading
reading-OnlyReads = record {
  from = λ tx w. in_world w;
  to = λ tx w. reading_in (reader_of toy plain_types toy_drivers (some tx)) w;
  at_start = λ tx w. refl;
  reads = λ tx w.
      searching_where tt "name = ?" (text "string" "bob" ∷ []) no_options
        (setting _ refl (looking_up tt no_options (done (in_world w))));
  at_end = λ tx w. refl;
}

toy-TxSpares : TxSpares toy (λ w. w.writes)
toy-TxSpares = record {
  of_begin = λ db w. refl;
  of_commit = λ db w. refl;
  of_rollback = λ db w. refl;
  of_is_done = λ ctx d w. refl;
}

do_tx-reads_example :
    (r : TxResult Counters) × ((writer_of toy plain_types toy_drivers (some tt)).do_tx 4 tt
        (some always)
        2
        (some growing)
        (some (on_new_rw toy plain_types toy_drivers reading))
        at_start
      ≡ some r)
    × (r.world.writes ≡ 0)
do_tx-reads_example =
    do_tx-reads toy plain_types toy_drivers (λ w. w.writes) toy-Counting toy-TxSpares (some tt) 4 tt
      (some always) 2 growing reading at_start (ground arith) (ground arith) reading-OnlyReads
      (λ n v. refl)

-- A handler that reads a user and deletes it
abbrev replacing : Handler toy
replacing reader writer w =
    let s = (reader.lookup_by tt no_options (record (holding (user "u1" "ann")) { world = w })).1 in
    let r = writer.delete tt no_options s in (r.0, r.1.world)

replaced_run : (on_new_rw toy plain_types toy_drivers replacing tt at_start).0 ≡ ok tt
unfolding delete check_keys_set delete_schema prepare_delete ◌>>◌ ◌>>=◌ return_rows pure get
    fail_when lift fail_on call fail finish when within underlying lookup_by ignore_error
    clear_default_null_resource_fields clear_defaults is_default_null raise_error_on_hooks
    validate_resources_interface has_hook primary_keys_where collect_keys resource_keys
    version_clause where_clauses_from_opts is_zero equal_fold join to_lower with_conditions contains
    apply_option apply_options get_default_options get_opts after_write before_write
replaced_run = refl

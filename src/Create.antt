-- ===== src/Create.antt =====
-- `RW.Create` of create.go. The resource is the state's.
pub mod Items
use go_dbw.Prelude.{◌≡◌, String, Bool, true, false, not, Option, none, some, List, [], ◌∷◌}
use go_dbw.Errors.{Outcome, ok, err, panic, Error, errorf}
use go_dbw.Reflect.{Value, is_nil}
use go_dbw.Options.{Options, Setter, get_opts}
use go_dbw.Gorm.{Gorm, Resources, create_op}
use go_dbw.Action.{
  State, Action, ◌>>=◌, ◌>>◌, pure, lift, wrap, within, get, when, finish, fail_on, fail_when,
  store_rows,
}
use go_dbw.Guards.{bad_parameter, raise_error_on_hooks}
use go_dbw.Registry.{non_creatable_fields}
use go_dbw.Clear.{set_fields_to_nil}
use go_dbw.Lookup.{underlying, set_resource, debug_then_table, lookup_after_write}
use go_dbw.Writing.{vet_for_write, before_write, after_write}
use go_dbw.Conflict.{conflict_clauses}

module _ (G : Gorm) (R : Resources G.World) where
  -- From the vetting to the statement that is ready: nothing here writes to the database.
  unfoldable pub prepare_create : G.Context → G.Db → Options G.World → Action G.World G.Db
  unfolding vet_for_write before_write
  prepare_create ctx db opts = do
    s ← get
    set_resource (set_fields_to_nil s.resource (non_creatable_fields s))
    when (not opts.with_skip_vet_for_write) (vet_for_write R "dbw.Create" create_op [] [])
    s ← get
    statement ← lift (conflict_clauses G "dbw.Create" db (G.with_context ctx db) s.resource opts)
    before_write "dbw.Create: error before write" opts
    pure (debug_then_table G opts statement)

  -- The write, and what follows it.
  unfoldable pub finish_create :
      G.Context → Option G.Db → G.Db → List (Option (Setter G.World)) → Action G.World (Unit {0})
  unfolding after_write
  finish_create ctx rw statement opt = do
    let opts = get_opts opt
    t ← finish (G.create statement)
    fail_on t.error (errorf "dbw.Create: create failed" [])
    when opts.with_rows_affected (store_rows t.rows_affected)
    after_write "dbw.Create: error after write" opts t.rows_affected
    within "dbw.Create" (lookup_after_write G R ctx rw opt)

  unfoldable pub create :
      G.Context → Option G.Db → List (Option (Setter G.World)) → Action G.World (Unit {0})
  unfolding prepare_create finish_create
  create ctx rw opt = do
    db ← underlying (bad_parameter "dbw.Create: missing underlying db") rw
    s ← get
    fail_when (is_nil s.resource) (bad_parameter "dbw.Create: missing interface")
    lift (wrap "dbw.Create" (raise_error_on_hooks R s.resource))
    statement ← prepare_create ctx db (get_opts opt)
    finish_create ctx rw statement opt

-- ===== src/Search.antt =====
-- `LookupWhere` and `SearchWhere` of rw.go. The resource, or the slice of resources, is the state's.
pub mod Missing
pub mod Limited
use go_dbw.Prelude.{ℤ, pos, String, ◌==◌, not, ◌&&◌, Option, List, [], map, is_empty, if◌then◌else◌}
use go_dbw.Prelude.Int.{is_zero, is_negative}
use go_dbw.Errors.{errorf}
use go_dbw.Reflect.{Value}
use go_dbw.Options.{Options, Setter, get_opts}
use go_dbw.Gorm.{Gorm, Resources, bind_value}
use go_dbw.Action.{Action, ◌>>=◌, ◌>>◌, lift, wrap, get, finish, fail_on, fail_when}
use go_dbw.Guards.{bad_parameter, raise_error_on_hooks, validate_resources_interface}
use go_dbw.Lookup.{underlying, table_then_debug, debug_then_table, not_found_as_ours}

abbrev pub default_limit : ℤ
default_limit = pos 10000

module _ (G : Gorm) (R : Resources G.World) where
  unfoldable pub lookup_where :
      G.Context
      → Option G.Db
      → String
      → List Value
      → List (Option (Setter G.World))
      → Action G.World (Unit {0})
  lookup_where ctx rw condition args opt = do
    db ← underlying (bad_parameter "dbw.LookupWhere: missing underlying db") rw
    s ← get
    lift (wrap "dbw.LookupWhere" (validate_resources_interface s.resource))
    lift (wrap "dbw.LookupWhere" (raise_error_on_hooks R s.resource))
    let statement = table_then_debug G (get_opts opt) (G.with_context ctx db)
    t ← finish (G.first (G.where_clause condition (map bind_value args) statement))
    fail_on t.error (not_found_as_ours "dbw.LookupWhere")

  -- A negative limit is none, and zero stands for the default.
  unfoldable pub limited : ℤ → G.Db → G.Db
  limited n db =
      if is_negative n then db else if is_zero n then G.limit default_limit db else G.limit n db

  -- Order, debug and table, the limit, and the condition.
  unfoldable pub search_statement : Options G.World → String → List Value → G.Db → G.Db
  unfolding limited
  search_statement opts condition args db =
      let db = if not (opts.with_order == "") then G.order opts.with_order db else db in
      let db = limited opts.with_limit (debug_then_table G opts db) in
      if not (condition == "") then G.where_clause condition (map bind_value args) db else db

  unfoldable pub search_where :
      G.Context
      → Option G.Db
      → String
      → List Value
      → List (Option (Setter G.World))
      → Action G.World (Unit {0})
  unfolding search_statement
  search_where ctx rw condition args opt = do
    let opts = get_opts opt
    db ← underlying (bad_parameter "dbw.SearchWhere: missing underlying db") rw
    fail_when (condition == "" && not (is_empty args))
        (bad_parameter "dbw.SearchWhere: args provided with empty where")
    s ← get
    lift (wrap "dbw.SearchWhere" (raise_error_on_hooks R s.resource))
    lift (wrap "dbw.SearchWhere" (validate_resources_interface s.resource))
    t ← finish (G.find (search_statement opts condition args (G.with_context ctx db)))
    fail_on t.error (errorf "dbw.SearchWhere" [])

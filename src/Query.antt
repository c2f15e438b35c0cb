-- ===== src/Query.antt =====
-- query.go, and `Exec` of rw.go.
use go_dbw.Prelude.{String, ◌==◌, Option, List, [], if◌then◌else◌}
use go_dbw.Errors.{errorf, sentinel, internal}
use go_dbw.Reflect.{Value, is_nil}
use go_dbw.Options.{Setter, get_opts}
use go_dbw.Gorm.{Gorm}
use go_dbw.Action.{
  Action, ◌>>=◌, ◌>>◌, get, finish, fail_on, fail_when, return_rows, no_rows_affected,
}
use go_dbw.Guards.{bad_parameter}
use go_dbw.Lookup.{underlying}

module _ (G : Gorm) where
  abbrev with_debug_of : List (Option (Setter G.World)) → G.Db → G.Db
  with_debug_of opt db = if (get_opts opt).with_debug then G.debug db else db

  -- `db.Rows()`, whose error is returned as it is
  abbrev read_rows : G.Db → Action G.World G.Rows
  read_rows db s = let (r, w) = G.rows db s.world in (r, record s { world = w })

  unfoldable pub query :
      G.Context
      → Option G.Db
      → String
      → List Value
      → List (Option (Setter G.World))
      → Action G.World G.Rows
  query ctx rw sql values opt = do
    db ← underlying (errorf "dbw.Query: missing underlying db" [] (sentinel internal)) rw
    fail_when (sql == "") (bad_parameter "dbw.Query: missing sql")
    let db = G.raw sql values (with_debug_of opt (G.with_context ctx db))
    fail_on (G.error_of db) (errorf "dbw.Query" [])
    read_rows db

  -- The result that is scanned into is the state's resource.
  unfoldable pub scan_rows : Option G.Db → Option G.Rows → Action G.World (Unit {0})
  scan_rows rw rows = do
    db ← underlying (errorf "dbw.ScanRows: missing underlying db" [] (sentinel internal)) rw
    rows ← underlying (bad_parameter "dbw.ScanRows: missing rows") rows
    s ← get
    fail_when (is_nil s.resource) (bad_parameter "dbw.ScanRows: missing result")
    t ← finish (G.scan_rows db rows)
    fail_on t.error (λ e. e)

  abbrev run_exec : G.Db → String → List Value → Value → G.World → go_dbw.Gorm.Written G.World
  run_exec db sql values v w = record (G.exec db sql values w) { resource = v }

  unfoldable pub exec :
      G.Context
      → Option G.Db
      → String
      → List Value
      → List (Option (Setter G.World))
      → Action G.World (Unit {0})
  exec ctx rw sql values opt = do
    return_rows no_rows_affected
    db ← underlying (errorf "dbw.Exec: missing underlying db" [] (sentinel internal)) rw
    fail_when (sql == "") (bad_parameter "dbw.Exec: missing sql")
    t ← finish (run_exec (with_debug_of opt (G.with_context ctx db)) sql values)
    fail_on t.error (errorf "dbw.Exec" [])
    return_rows t.rows_affected

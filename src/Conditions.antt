-- ===== src/Conditions.antt =====
-- A statement with the conditions of the options: `db.Where(where, args...)` behind
-- `whereClausesFromOpts`, as `Update`, `Delete` and `DeleteItems` write it.
use go_dbw.Prelude.{String, Bool}
use go_dbw.Errors.{Outcome, ok, ◌>>=◌}
use go_dbw.Prelude.{if◌then◌else◌}
use go_dbw.Reflect.{Value}
use go_dbw.Options.{Options}
use go_dbw.Gorm.{Gorm}
use go_dbw.Action.{wrap}
use go_dbw.Where.{where_clauses_from_opts}

-- `wanted` is the test that the operation makes on its options.
unfoldable pub with_conditions :
    (G : Gorm) → String → Bool → G.Db → G.Db → Value → Options G.World → Outcome G.Db
with_conditions G op wanted db statement i opts =
    if wanted
    then (do
      (condition, args) ← wrap op (where_clauses_from_opts G db i opts)
      ok (G.where_clause condition args statement))
    else ok statement

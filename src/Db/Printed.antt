-- ===== src/Db/Printed.antt =====
-- `gormLogger` of db.go: what the default logger prints for gorm.
use go_dbw.Prelude.{String, Option, none, some, List, ◌∷◌}

-- A value that gorm hands to `Printf`: an error of the postgres driver, or anything else.
pub data Printed : Type 0 where
  pg_error : String → Printed
  other_value : String → Printed

-- A call of hclog's `Trace`: the location and the error.
pub record Trace : Type 0 where
  pub location : Printed
  pub error : String

-- `Printf`. The format is not looked at; only a postgres error as the second value is passed on.
unfoldable pub print_f : String → List Printed → Option Trace
print_f format (location ∷ pg_error e ∷ _) = some (record { location = location; error = e })
print_f format _ = none

-- ===== src/Clause.antt =====
-- clause.go: the column assignments and the conflict policies of a write.
mod TextOrder
pub mod Sorted
use Prim.Native.Nat.{Ordering}
use Prim.Native.String.{compare}
use go_dbw.Prelude.{
  String, Bool, true, false, Option, none, some, List, [], ◌∷◌, map, if◌then◌else◌,
}
use go_dbw.Prelude.Dict.{Dict, lookup, keys}
use go_dbw.Reflect.{Value, no_value}

-- The dynamic value of a `ColumnValue`: a `Column` (name and table), an `ExprValue` (sql and
-- variables), or any other value.
pub data Assigned : Type 0 where
  column : String → String → Assigned
  expression : String → List Value → Assigned
  other : Value → Assigned

pub record ColumnValue : Type 0 where
  pub column_name : String
  pub value : Assigned

-- What gorm is given as an assignment's value: `clause.Column` with table and name, `gorm.Expr`, or
-- the value itself.
pub data ClauseValue : Type 0 where
  clause_column : String → String → ClauseValue
  gorm_expr : String → List Value → ClauseValue
  raw : Value → ClauseValue

-- `clause.Assignment` to `clause.Column{Name: target}`
pub record Assignment : Type 0 where
  pub target : String
  pub source : ClauseValue

-- `Column.toAssignment`: name, table, and the column that is assigned.
unfoldable pub column_to_assignment : String → String → String → Assignment
column_to_assignment name table target = record {
  target = target;
  source = clause_column table name;
}

unfoldable pub raw_assignment : String → Value → Assignment
raw_assignment target v = record { target = target; source = raw v }

-- `ExprValue.toAssignment`
unfoldable pub expr_to_assignment : String → List Value → String → Assignment
expr_to_assignment sql vars target = record { target = target; source = gorm_expr sql vars }

abbrev pub expr : String → List Value → Assigned
expr sql args = expression sql args

-- `sort.Strings`, as an insertion sort by `<=` on texts
unfoldable pub text_le : String → String → Bool
text_le s t = elim (compare s t) [ Ordering.gt ↦ false | _ ↦ true ]

unfoldable pub sort_insert : String → List String → List String
unfolding text_le
sort_insert k [] = k ∷ []
sort_insert k (j ∷ ks) = if text_le k j then k ∷ j ∷ ks else j ∷ sort_insert k ks

unfoldable pub sort_strings : List String → List String
unfolding sort_insert
sort_strings [] = []
sort_strings (k ∷ ks) = sort_insert k (sort_strings ks)

-- `columnValues[key]`: the nil interface for a key that is missing.
abbrev pub value_at : Dict Assigned → String → Assigned
value_at m k = elim (lookup k m) [ some v ↦ v | none ↦ other no_value ]

unfoldable pub set_column_values : Dict Assigned → List ColumnValue
unfolding sort_strings
set_column_values column_values =
    map (λ key. record { column_name = key; value = value_at column_values key })
      (sort_strings (keys column_values))

unfoldable pub set_columns : List String → List ColumnValue
set_columns names =
    map (λ name. record { column_name = name; value = column name "excluded" }) names

-- The `Target` of an `OnConflict`, by its dynamic type.
pub data Target : Type 0 where
  constraint : String → Target
  columns : List String → Target
  bad_target : Target

-- The `Action`, by its dynamic type; `DoNothing` and `UpdateAll` are Boolean types.
pub data ConflictAction : Type 0 where
  do_nothing : Bool → ConflictAction
  update_all : Bool → ConflictAction
  set_values : List ColumnValue → ConflictAction
  bad_action : ConflictAction

pub record OnConflict : Type 0 where
  pub target : Target
  pub action : ConflictAction

-- gorm's `clause.OnConflict`, over gorm's type of conditions
pub record ConflictClause (Conditions : Type 0) : Type 0 where
  pub on_constraint : String
  pub conflict_columns : List String
  pub does_nothing : Bool
  pub updates_all : Bool
  pub do_updates : List Assignment
  pub where_conditions : Option Conditions

-- ===== src/Conflict.antt =====
-- The conflict clause of a create. `Create` and `CreateItems` build it by the same statements, which
-- differ in the operation's name and in the resource that the conditions are for.
pub mod Laws
use go_dbw.Prelude.{
  ◌≡◌, String, ◌<>◌, ◌==◌, Bool, true, false, not, ◌||◌, Option, none, some, List, [], ◌∷◌, is_some,
  to_lower, if◌then◌else◌,
}
use go_dbw.Errors.{
  Outcome, ok, err, panic, Error, errorf, sentinel, invalid_parameter, text_arg, fail_if, ◌>>=◌,
}
use go_dbw.Reflect.{Value}
use go_dbw.Contains.{contains}
use go_dbw.Clause.{
  OnConflict, Target, constraint, columns, bad_target, ConflictAction, do_nothing, update_all,
  set_values, bad_action, ColumnValue, Assigned, column, expression, other, Assignment,
  ConflictClause, column_to_assignment, expr_to_assignment, raw_assignment,
}
use go_dbw.Options.{Options}
use go_dbw.Gorm.{Gorm, Bind}
use go_dbw.Action.{wrap}
use go_dbw.Guards.{bad_parameter}
use go_dbw.Where.{where_clauses_from_opts}

-- The switch on the target's type: gorm's `OnConstraint` and `Columns`.
unfoldable pub conflict_target : String → Target → Outcome (String × List String)
conflict_target op (constraint name) = ok (name, [])
conflict_target op (columns names) = ok ("", names)
conflict_target op bad_target = err (bad_parameter (op <> ": invalid conflict target %v"))

abbrev pub immutable_columns : List String
immutable_columns = "createtime" ∷ "publicid" ∷ []

unfoldable pub to_assignment : ColumnValue → Assignment
unfolding column_to_assignment expr_to_assignment raw_assignment
to_assignment s = elim s.value [
  | column name table ↦ column_to_assignment name table s.column_name
  | expression sql vars ↦ expr_to_assignment sql vars s.column_name
  | other v ↦ raw_assignment s.column_name v
]

-- The loop over the updates.
unfoldable pub conflict_updates : String → List ColumnValue → Outcome (List Assignment)
unfolding to_assignment
conflict_updates op [] = ok []
conflict_updates op (s ∷ updates) =
    if contains immutable_columns (to_lower s.column_name)
    then err (
        errorf (op <> ": cannot do update on conflict for column %s") (text_arg s.column_name ∷ [])
          (sentinel invalid_parameter))
    else conflict_updates op updates >>= λ set. ok (to_assignment s ∷ set)

-- What the switch on the action's type sets: `DoNothing`, `UpdateAll` and `DoUpdates`. The Boolean
-- values of the first two are not looked at.
pub record ActionParts : Type 0 where
  pub does_nothing : Bool
  pub updates_all : Bool
  pub do_updates : List Assignment

unfoldable pub conflict_action : String → ConflictAction → Outcome ActionParts
unfolding conflict_updates
conflict_action op (do_nothing _) =
    ok (record { does_nothing = true; updates_all = false; do_updates = [] })
conflict_action op (update_all _) =
    ok (record { does_nothing = false; updates_all = true; do_updates = [] })
conflict_action op (set_values updates) = do
  set ← conflict_updates op updates
  ok (record { does_nothing = false; updates_all = false; do_updates = set })
conflict_action op bad_action = err (bad_parameter (op <> ": invalid conflict action %v"))

module _ (G : Gorm) where
  -- The conditions of a version or of the caller's where clause, if there are any.
  unfoldable pub conflict_where :
      String → G.Db → G.Db → Value → Options G.World → Outcome (Option G.Conditions)
  conflict_where op db statement i opts =
      if is_some opts.with_version || not (opts.with_where_clause == "")
      then (do
        (condition, args) ← wrap op (where_clauses_from_opts G db i opts)
        ok (some (G.build_condition statement condition args)))
      else ok none

  -- The statement with the conflict clause, if the options have one.
  unfoldable pub conflict_clauses : String → G.Db → G.Db → Value → Options G.World → Outcome G.Db
  unfolding conflict_target conflict_action conflict_where
  conflict_clauses op db statement i opts = elim opts.with_on_conflict [
    | none ↦ ok statement
    | some on_conflict ↦ do
      (name, names) ← conflict_target op on_conflict.target
      parts ← conflict_action op on_conflict.action
      conditions ← conflict_where op db statement i opts
      let c : ConflictClause G.Conditions = record {
        on_constraint = name;
        conflict_columns = names;
        does_nothing = parts.does_nothing;
        updates_all = parts.updates_all;
        do_updates = parts.do_updates;
        where_conditions = conditions;
      }
      ok (G.clauses c statement)
  ]

-- ===== src/Examples/Locked.antt =====
-- A database whose one row has the count of runs for its version.
use go_dbw.Prelude.{
  ◌≡◌, ◌≢◌, ◌⊎◌, refl, ℕ, ◌+◌, pos, Bool, true, Option, none, some, List, [], ◌∷◌, eqb, Bool-cases,
  inl, inr, arith,
}
use go_dbw.Errors.{ok}
use go_dbw.Reflect.{Value}
use go_dbw.Common.Intersection.{Slice}
use go_dbw.Options.{Setter, get_opts, with_version}
use go_dbw.Gorm.{Gorm, Written, Bind, bind_value, bind_version}
use go_dbw.Update.{update}
use go_dbw.Delete.{delete}
use go_dbw.Locks.{Locks, CallbacksSpare, IsVersioned}
use go_dbw.Update.Locked.{update-locked}
use go_dbw.Delete.Locked.{delete-locked}
use go_dbw.Examples.{Counters, toy, plain_types, holding, user, read}

-- The version that a condition asks for
abbrev asked : List Bind → Option ℕ → Option ℕ
asked [] o = o
asked (bind_version v ∷ _) o = some v
asked (bind_value _ ∷ bs) o = asked bs o

abbrev bumped : Counters → Counters
bumped w = record w { writes = w.writes + 1; runs = w.runs + 1 }

abbrev row_update : Bool → Value → Counters → Written Counters
row_update true v w = read v (bumped w)
row_update Bool.false v w = record (read v w) { rows_affected = pos 0 }

abbrev update_row : Option ℕ → Value → Counters → Written Counters
update_row none v w = row_update true v w
update_row (some n) v w = row_update (eqb n w.runs) v w

abbrev versioned_db : Gorm
versioned_db = record {
  Context = Unit;
  World = Counters;
  Db = Option ℕ;
  Conditions = Unit;
  Rows = Unit;
  with_context = λ _ db. db;
  model = λ _ db. db;
  debug = λ db. db;
  table = λ _ db. db;
  order = λ _ db. db;
  limit = λ _ db. db;
  clauses = λ _ db. db;
  where_clause = λ _ args db. asked args db;
  raw = λ _ _ db. db;
  build_condition = λ _ _ _. tt;
  parse = λ _ v. toy.parse tt v;
  error_of = λ _. none;
  can_begin = λ _. true;
  dialect_name = λ _. "toy";
  create = λ _ v w. read v w;
  create_in_batches = λ _ v _ w. read v w;
  updates = λ db _ v w. update_row db v w;
  delete = λ db v w. update_row db v w;
  first = λ _ v w. read v w;
  find = λ _ v w. read v w;
  exec = λ _ _ _ w. toy.exec tt "" [] w;
  rows = λ _ w. (ok tt, w);
  scan_rows = λ _ _ v w. read v w;
  begin = λ db w. (db, w);
  commit = λ _ w. (none, w);
  rollback = λ _ w. (none, w);
  is_done = λ _ _ w. (Bool.false, w);
}

abbrev version_of : Unit {0} → Counters → Option ℕ
version_of _ w = some w.runs

stale_row :
    (db : Option ℕ) (u : Value) (w : Counters)
    → db ≡ some 3
    → version_of tt w ≢ some 3
    → ((update_row db u w).world ≡ w)
      × ((update_row db u w).error ≡ none → (update_row db u w).rows_affected ≡ pos 0)
stale_row none u w asks stale = absurd (ground arith)
stale_row (some n) u w asks stale = elim (Bool-cases (eqb n w.runs)) [
  | inl same ↦ absurd (stale (ground arith))
  | inr other ↦ rw other (refl, λ _. refl)
]

versioned_db-Locks :
    Locks versioned_db plain_types {A = Counters} (λ w. w) (λ _. tt) version_of (λ db. db) 3
versioned_db-Locks = record {
  of_where = λ db. refl;
  of_debug = λ db. refl;
  of_table = λ name db. refl;
  of_updates = λ db us u w asks stale. stale_row db u w asks stale;
  of_delete = λ db u w asks stale. stale_row db u w asks stale;
  of_first = λ db u w. refl;
  of_vet = λ u vet h op masks nulls u' w. cc;
}

abbrev at_three : List (Option (Setter Counters))
at_three = some (with_version (some 3)) ∷ []

at_three-IsVersioned : IsVersioned (get_opts at_three) 3
unfolding get_opts with_version
at_three-IsVersioned = record { at_version = refl; no_where = refl; no_conflict = refl }

at_three-CallbacksSpare : CallbacksSpare {A = Counters} (λ w. w) (λ _. tt) (get_opts at_three)
unfolding get_opts with_version
at_three-CallbacksSpare = record { before = λ fn h u w. cc; after = λ fn h n u w. cc }

abbrev name_path : Slice
name_path = some ("Name" ∷ [])

update-locked_example :
    let run =
      update versioned_db plain_types tt
        (some none)
        name_path
        none
        at_three
        (holding (user "u1" "ann")) in
    (run.1.world ≡ (holding (user "u1" "ann")).world) × ((run.0 ≢ ok tt) ⊎ (run.1.returned ≡ pos 0))
update-locked_example =
    update-locked versioned_db plain_types tt (some none) (λ w. w) (λ _. tt) version_of (λ db. db) 3
      versioned_db-Locks at_three at_three-CallbacksSpare at_three-IsVersioned name_path none
      (holding (user "u1" "ann")) (λ h. cc)

delete-locked_example :
    let run = delete versioned_db plain_types tt (some none) at_three (holding (user "u1" "ann")) in
    (run.1.world ≡ (holding (user "u1" "ann")).world) × ((run.0 ≢ ok tt) ⊎ (run.1.returned ≡ pos 0))
delete-locked_example =
    delete-locked versioned_db plain_types tt (some none) (λ w. w) (λ _. tt) version_of (λ db. db) 3
      versioned_db-Locks at_three at_three-CallbacksSpare at_three-IsVersioned
      (holding (user "u1" "ann")) (λ h. cc)

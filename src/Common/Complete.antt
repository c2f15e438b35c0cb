-- ===== src/Common/Complete.antt =====
-- `UpdateFields` leaves none of the caller's paths out.
use go_dbw.Prelude.{
  ◌≡◌, refl, String, eq_iff, true, List, [], ◌∷◌, All, to_upper, equal_fold, equal_fold_iff,
  is_empty, is_some, arith, if◌then◌else◌,
}
use go_dbw.Prelude.Dict.{Dict, lookup, insert, keys, lookup-insert}
use go_dbw.Errors.{ok}
use go_dbw.Reflect.{Value}
use go_dbw.Contains.{contains}
use go_dbw.Common.Intersection.{Slice}
use go_dbw.Common.Run.{update_fields-Run, start}
use go_dbw.Common.Keeps.{visit_fields-keeps}
use go_dbw.Common.{Update, Scan, assign, find_missing_paths, check_missing, update_fields, elements}

contains-keys-insert :
    (f k : String) (u : Update) (m : Dict Update)
    → contains (keys (insert f u m)) k ≡ (if equal_fold f k then true else contains (keys m) k)
unfolding contains keys insert
contains-keys-insert f k u [] = refl
contains-keys-insert f k u ((j, w) ∷ m) =
    ground (arith, eq_iff j f, equal_fold_iff f k, equal_fold_iff j k, contains-keys-insert f k u m)

-- What counts as found has an update.
abbrev FoundHasUpdate : Scan → Type 0
FoundHasUpdate s =
    (k : String) → is_some (lookup (to_upper k) s.found) ≡ true → contains (keys s.updates) k ≡ true

assign-FoundHasUpdate :
    (p : String) (u : Update) (s : Scan) → FoundHasUpdate s → FoundHasUpdate (assign p u s)
unfolding assign
assign-FoundHasUpdate p u s h k found = ground (
  arith,
  h k,
  contains-keys-insert p k u s.updates,
  lookup-insert (to_upper p) (to_upper k) tt s.found,
  eq_iff (to_upper p) (to_upper k),
  equal_fold_iff p k,
)

none_missing :
    (paths : List String) (found : Dict (Unit {0}))
    → is_empty (find_missing_paths paths found) ≡ true
    → All (λ p. is_some (lookup (to_upper p) found) ≡ true) paths
unfolding find_missing_paths
none_missing [] found h = tt
none_missing (p ∷ paths) found h = (ground arith, none_missing paths found (ground arith))

has_updates :
    (paths : List String) (s : Scan)
    → FoundHasUpdate s
    → All (λ p. is_some (lookup (to_upper p) s.found) ≡ true) paths
    → All (λ p. contains (keys s.updates) p ≡ true) paths
has_updates [] s h found = tt
has_updates (p ∷ paths) s h found = (h p found.0, has_updates paths s h found.1)

checked :
    (masks nulls : List String) (s : Scan) (us : Dict Update)
    → check_missing masks nulls s ≡ ok us
    → (is_empty (find_missing_paths masks s.found) ≡ true)
      × (is_empty (find_missing_paths nulls s.found) ≡ true)
      × (s.updates ≡ us)
unfolding check_missing
checked masks nulls s us h = ground arith

-- If `UpdateFields` succeeds, every mask path and every null path has an update, under a key that is
-- the path up to case.
pub update_fields_complete :
    (i : Value) (masks nulls : Slice) (us : Dict Update)
    → update_fields i masks nulls ≡ ok us
    → All (λ p. contains (keys us) p ≡ true) (elements masks)
      × All (λ p. contains (keys us) p ≡ true) (elements nulls)
unfolding lookup
update_fields_complete i masks nulls us e =
    let run = update_fields-Run i masks nulls us e in
    let s = run.scan in
    let (no_mask, no_null, same) = checked (elements masks) (elements nulls) s us run.checked in
    let found =
      visit_fields-keeps run.paths.left run.paths.right FoundHasUpdate assign-FoundHasUpdate
        run.fields start s run.scanned (λ k h. cc) in
    rw (← same) (
      has_updates (elements masks) s found (none_missing (elements masks) s.found no_mask),
      has_updates (elements nulls) s found (none_missing (elements nulls) s.found no_null),
    )

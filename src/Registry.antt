-- ===== src/Registry.antt =====
-- The package's two sets of fields, which `InitNonCreatableFields` and `InitNonUpdatableFields` store
-- in `atomic.Value`s, and `filterPaths` of update.go.
use go_dbw.Prelude.{String, not, none, some, List, [], ◌∷◌, is_empty, if◌then◌else◌}
use go_dbw.Prelude.Dict.{Dict, insert, keys}
use go_dbw.Contains.{contains, keep}
use go_dbw.Common.Intersection.{Slice}
use go_dbw.Common.{elements}
use go_dbw.Action.{State}

-- `m := map[string]struct{}{}` filled with the names
unfoldable pub field_set : List String → Dict (Unit {0}) → Dict (Unit {0})
field_set [] m = m
field_set (f ∷ fs) m = field_set fs (insert f tt m)

module _ {W : Type 0} where
  unfoldable pub init_non_creatable_fields : List String → State W → State W
  unfolding field_set
  init_non_creatable_fields fields s = record s {
    non_creatable = some (keys (field_set fields []));
  }

  unfoldable pub init_non_updatable_fields : List String → State W → State W
  unfolding field_set
  init_non_updatable_fields fields s = record s {
    non_updatable = some (keys (field_set fields []));
  }

  -- The names in the set, in some order; none before the first `Init`.
  unfoldable pub non_creatable_fields : State W → List String
  non_creatable_fields s = elements s.non_creatable

  unfoldable pub non_updatable_fields : State W → List String
  non_updatable_fields s = elements s.non_updatable

-- A nil slice that is appended to.
abbrev pub slice_of : List String → Slice
slice_of [] = none
slice_of (x ∷ xs) = some (x ∷ xs)

unfoldable pub filter_paths : List String → Slice → Slice
filter_paths non_updatable paths =
    if is_empty (elements paths)
    then none
    else if is_empty non_updatable
    then paths
    else slice_of (keep (λ p. not (contains non_updatable p)) (elements paths))

-- ===== src/Common/Paths.antt =====
-- `BuildUpdatePaths` as two filters.
use go_dbw.Prelude.{◌≡◌, refl, String, Bool, not, ◌&&◌, List, [], ◌∷◌, Bool-cases, inl, inr}
use go_dbw.Prelude.Dict.{Dict, keys}
use go_dbw.Reflect.{Value}
use go_dbw.Reflect.Zero.{is_zero}
use go_dbw.Contains.{contains, keep}
use go_dbw.Common.{build_update_paths}

-- An entry that is to be set to null: the mask names it, it is zero, and it may not be zero.
abbrev pub becomes_null : List String → List String → String × Value → Bool
becomes_null field_mask allow_zero e =
    contains field_mask e.0 && (is_zero e.1 && not (contains allow_zero e.0))

abbrev pub becomes_mask : List String → List String → String × Value → Bool
becomes_mask field_mask allow_zero e =
    contains field_mask e.0 && not (is_zero e.1 && not (contains allow_zero e.0))

-- `BuildUpdatePaths` gives the names of the entries that the mask names, up to case, in the order of the entries:
-- among the null paths those whose value is zero and that are not among the fields that may be zero, and among the
-- mask paths the others.
build_update_paths_lem :
    (values : Dict Value) (field_mask allow_zero : List String)
    → build_update_paths values field_mask allow_zero ≡ (
      keys (keep (becomes_mask field_mask allow_zero) values),
      keys (keep (becomes_null field_mask allow_zero) values),
    )
unfolding build_update_paths keep keys
build_update_paths_lem [] field_mask allow_zero = refl
build_update_paths_lem ((f, v) ∷ values) field_mask allow_zero =
    let ih = build_update_paths_lem values field_mask allow_zero in
    elim (Bool-cases (contains field_mask f)) [
      | inr out ↦ rw out ih
      | inl named ↦ elim (Bool-cases (is_zero v)) [
        | inr some ↦ rw (named, some, ih) refl
        | inl zero ↦ elim (Bool-cases (contains allow_zero f)) [
          | inl allowed ↦ rw (named, zero, allowed, ih) refl
          | inr other ↦ rw (named, zero, other, ih) refl
        ]
      ]
    ]

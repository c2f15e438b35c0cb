-- ===== src/Conflict/Laws.antt =====
-- The assignments of a conflict clause.
use go_dbw.Prelude.{
  ◌≡◌, refl, String, true, false, List, [], ◌∷◌, map, any, ◌⊎◌, All, to_lower, equal_fold,
  Bool-cases, inl, inr,
}
use go_dbw.Errors.{Error, ok, err, invalid_parameter, errors_is}
use go_dbw.Contains.{contains}
use go_dbw.Clause.{Assigned, ColumnValue}
use go_dbw.Conflict.{immutable_columns, to_assignment, conflict_updates}

-- A column that the loop lets pass.
abbrev pub IsAllowed : ColumnValue → Type 0
IsAllowed s = contains immutable_columns (to_lower s.column_name) ≡ false

-- Either all columns pass, and the loop gives the assignments to them in the caller's order, or one of them is
-- `createtime` or `publicid` up to case, and the loop fails with an invalid parameter.
conflict_updates_lem :
    (op : String) (updates : List ColumnValue)
    → (All IsAllowed updates × (conflict_updates op updates ≡ ok (map to_assignment updates)))
      ⊎ ((any (λ s. contains immutable_columns (to_lower s.column_name)) updates ≡ true)
          × ((e : Error) × (conflict_updates op updates ≡ err e)
              × (errors_is e invalid_parameter ≡ true)))
unfolding conflict_updates
conflict_updates_lem op [] = inl (tt, refl)
conflict_updates_lem op (s ∷ updates) =
    elim (Bool-cases (contains immutable_columns (to_lower s.column_name))) [
      | inl bad ↦ inr (rw bad (refl, (_, refl, refl)))
      | inr good ↦ elim (conflict_updates_lem op updates) [
        | inl (all, eq) ↦ inl (rw (good, eq) ((refl, all), refl))
        | inr (some_bad, (e, eq, is)) ↦ inr (rw (good, eq) (some_bad, (e, refl, is)))
      ]
    ]

-- The columns of the resources are spelt with an underscore, so an update of them on conflict passes.
conflict_updates_create_time :
    (op : String) (v w : Assigned)
    → conflict_updates op (
        record { column_name = "create_time"; value = v }
        ∷ record { column_name = "public_id"; value = w }
        ∷ [])
      ≡ ok (
          to_assignment (record { column_name = "create_time"; value = v })
          ∷ to_assignment (record { column_name = "public_id"; value = w })
          ∷ [])
unfolding conflict_updates contains equal_fold
conflict_updates_create_time op v w = refl

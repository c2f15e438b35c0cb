-- ===== src/Clear.antt =====
-- `Clear`, `clear` and `setFieldsToNil` of create.go.
pub mod Laws
use go_dbw.Prelude.{
  ℕ, zero, suc, ℤ, pos, negsuc, String, ◌==◌, Bool, true, false, not, ◌&&◌, ◌||◌, List, any,
  is_empty, if◌then◌else◌,
}
use go_dbw.Prelude.Int.{is_zero}
use go_dbw.Errors.{Outcome, ok, err}
use go_dbw.Reflect.{Value, Fields, FieldInfo, ptr, struct, done, field}
use go_dbw.Reflect.Zero.{zero_of}
use go_dbw.Guards.{bad_parameter}

-- `depth--`. A negative depth never comes to zero: there is no limit then.
abbrev pub pred_depth : ℤ → ℤ
pred_depth (pos zero) = negsuc zero
pred_depth (pos (suc n)) = pos n
pred_depth (negsuc n) = negsuc (suc n)

-- `fields[name]`
abbrev pub is_listed : List String → String → Bool
is_listed fields name = any (λ f. f == name) fields

module _ (fields : List String) where
  unfoldable mutual
    -- `sticky` says that the value was reached through an unexported field that is not embedded: nothing
    -- below it can be set. A pointer gives its depth back, so only structs use it up.
    pub clear : Bool → Value → ℤ → Value
    clear sticky (ptr v) depth = if is_zero depth then ptr v else ptr (clear sticky v depth)
    clear sticky (struct t fs) depth =
        if is_zero depth then struct t fs else struct t (clear_fields sticky fs (pred_depth depth))
    clear sticky v depth = v

    pub clear_fields : Bool → Fields → ℤ → Fields
    clear_fields sticky done depth = done
    clear_fields sticky (field f v fs) depth =
        field f
          (if is_listed fields f.name
            then (if f.exported && not sticky then zero_of v else v)
            else clear (sticky || not f.exported && not f.embedded) v depth)
          (clear_fields sticky fs depth)

-- The value behind the pointer afterwards, or the error, which leaves it as it was.
unfoldable pub clear_value : Value → List String → ℤ → Outcome Value
unfolding clear
clear_value i fields depth = if is_empty fields || is_zero depth then ok i else elim i [
  | ptr (struct t fs) ↦ ok (clear fields false (ptr (struct t fs)) depth)
  | _ ↦ err (bad_parameter "dbw.Clear")
]

abbrev or_unchanged : Value → Outcome Value → Value
or_unchanged i (ok v) = v
or_unchanged i _ = i

-- The errors of `Clear` are dropped.
unfoldable pub set_fields_to_nil : Value → List String → Value
unfolding clear_value
set_fields_to_nil i field_names = or_unchanged i (clear_value i field_names (pos 2))

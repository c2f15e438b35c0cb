-- ===== src/Clear/Laws.antt =====
-- What `Clear` changes.
use go_dbw.Prelude.{
  ◌≡◌, refl, sym, ℤ, pos, String, Bool, true, false, not, ◌&&◌, ◌||◌, List, is_empty, Bool-cases,
  inl, inr, arith,
}
use go_dbw.Reflect.{Value, Fields, ptr, struct, done, field}
use go_dbw.Reflect.Zero.{zero_of, zero_of_idem, zero_fields}
use go_dbw.Clear.{pred_depth, is_listed, clear, clear_fields, set_fields_to_nil}

module _ (fields : List String) where
  mutual
    unfolding clear clear_fields

    clear_idem_lem :
        (sticky : Bool) (v : Value) (d : ℤ)
        → clear fields sticky (clear fields sticky v d) d ≡ clear fields sticky v d
    clear_idem_lem sticky (ptr v) d = ground (arith, clear_idem_lem sticky v d)
    clear_idem_lem sticky (struct t fs) d =
        ground (arith, clear_fields_idem sticky fs (pred_depth d))
    clear_idem_lem sticky _ d = refl

    clear_fields_idem :
        (sticky : Bool) (fs : Fields) (d : ℤ)
        → clear_fields fields sticky (clear_fields fields sticky fs d) d
          ≡ clear_fields fields sticky fs d
    clear_fields_idem sticky done d = refl
    clear_fields_idem sticky (field f v fs) d = ground (
      arith,
      clear_fields_idem sticky fs d,
      clear_idem_lem (sticky || not f.exported && not f.embedded) v d,
      zero_of_idem v,
    )

-- Every exported field with a listed name is zero.
abbrev pub AllZeroed : List String → Fields → Type 0
AllZeroed fields done = Unit
AllZeroed fields (field f v fs) =
    (is_listed fields f.name ≡ true → f.exported ≡ true → v ≡ zero_of v) × AllZeroed fields fs

-- The same of the fields of a struct, or of a struct behind a pointer.
abbrev pub InnerZeroed : List String → Value → Type 0
InnerZeroed fields (struct _ fs) = AllZeroed fields fs
InnerZeroed fields (ptr (struct _ fs)) = AllZeroed fields fs
InnerZeroed fields _ = Unit

-- The same of every exported field's own fields.
abbrev pub ChildrenZeroed : List String → Fields → Type 0
ChildrenZeroed fields done = Unit
ChildrenZeroed fields (field f v fs) =
    (f.exported ≡ true → InnerZeroed fields v) × ChildrenZeroed fields fs

-- The two levels that `Create` clears.
abbrev pub IsCleared : List String → Value → Type 0
IsCleared fields (ptr (struct _ fs)) = AllZeroed fields fs × ChildrenZeroed fields fs
IsCleared fields _ = ⊥

module _ (fields : List String) where
  AllZeroed-zero_fields : (fs : Fields) → AllZeroed fields (zero_fields fs)
  unfolding zero_fields
  AllZeroed-zero_fields done = tt
  AllZeroed-zero_fields (field f v fs) = (λ _ _. sym (zero_of_idem v), AllZeroed-zero_fields fs)

  AllZeroed-clear_fields : (fs : Fields) (d : ℤ) → AllZeroed fields (clear_fields fields false fs d)
  unfolding clear_fields
  AllZeroed-clear_fields done d = tt
  AllZeroed-clear_fields (field f v fs) d =
      (λ l x. rw (l, x) (sym (zero_of_idem v)), AllZeroed-clear_fields fs d)

  InnerZeroed-zero_of : (v : Value) → InnerZeroed fields (zero_of v)
  unfolding zero_of
  InnerZeroed-zero_of (struct t fs) = AllZeroed-zero_fields fs
  InnerZeroed-zero_of _ = tt

  InnerZeroed-clear : (v : Value) → InnerZeroed fields (clear fields false v (pos 1))
  unfolding clear
  InnerZeroed-clear (struct t fs) = AllZeroed-clear_fields fs (pos 0)
  InnerZeroed-clear (ptr (struct t fs)) = AllZeroed-clear_fields fs (pos 0)
  InnerZeroed-clear (ptr (ptr v)) = tt
  InnerZeroed-clear (ptr _) = tt
  InnerZeroed-clear _ = tt

  ChildrenZeroed-clear_fields :
      (fs : Fields) → ChildrenZeroed fields (clear_fields fields false fs (pos 1))
  unfolding clear_fields
  ChildrenZeroed-clear_fields done = tt
  ChildrenZeroed-clear_fields (field f v fs) = (
    λ x. elim (Bool-cases (is_listed fields f.name)) [
      | inl l ↦ rw (l, x) (InnerZeroed-zero_of v)
      | inr l ↦ rw (l, x) (InnerZeroed-clear v)
    ],
    ChildrenZeroed-clear_fields fs,
  )

-- After `setFieldsToNil` on a pointer to a struct, every exported field with a listed name is zero,
-- and so is every such field of an exported field of struct (or pointer to struct) type.
pub set_fields_to_nil-IsCleared :
    (t : String) (fs : Fields) (names : List String)
    → is_empty names ≡ false
    → IsCleared names (set_fields_to_nil (ptr (struct t fs)) names)
unfolding set_fields_to_nil
set_fields_to_nil-IsCleared t fs names some_name =
    rw some_name (AllZeroed-clear_fields names fs (pos 1), ChildrenZeroed-clear_fields names fs)

-- Clearing twice is clearing once, on every value and for every list of names.
set_fields_to_nil_idem :
    (i : Value) (names : List String)
    → set_fields_to_nil (set_fields_to_nil i names) names ≡ set_fields_to_nil i names
unfolding set_fields_to_nil
set_fields_to_nil_idem (ptr (struct t fs)) names =
    ground (arith, clear_idem_lem names false (ptr (struct t fs)) (pos 2))
set_fields_to_nil_idem (ptr v) names = ground arith
set_fields_to_nil_idem i names = ground arith

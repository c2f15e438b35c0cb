-- ===== src/Guards.antt =====
-- The checks of rw.go that operations make before they touch the database.
use go_dbw.Prelude.{String, Bool, true, false, not, ◌&&◌, List, [], ◌∷◌, any, if◌then◌else◌}
use go_dbw.Errors.{Outcome, ok, err, Error, errorf, sentinel, invalid_parameter, fail_if}
use go_dbw.Reflect.{
  Value, ptr_kind, kind_eq, type_kind, type_of, is_no_value, nil, item, slice, nil_slice, ptr,
  nil_ptr, to_interface,
}
use go_dbw.Gorm.{
  Resources, Hook, before_create, after_create, before_save, after_save, before_update,
  after_update, before_delete, after_delete, after_find,
}

-- `fmt.Errorf("<op>: <message>: %w", ErrInvalidParameter)`
abbrev pub bad_parameter : String → Error
bad_parameter message = errorf message [] (sentinel invalid_parameter)

abbrev pub hooks : List Hook
hooks =
    before_create ∷ after_create ∷ before_save ∷ after_save ∷ before_update ∷ after_update
    ∷ before_delete ∷ after_delete ∷ after_find ∷ []

module _ {W : Type 0} (R : Resources W) where
  -- The type switch; a nil interface implements nothing.
  unfoldable pub has_hook : Value → Bool
  has_hook v = not (is_no_value v) && any (R.implements (type_of v)) hooks

  -- Of a slice only the first item is looked at.
  abbrev pub hooked_value : Value → Value
  hooked_value (slice _ (item v _)) = to_interface v
  hooked_value v = v

  abbrev pub is_empty_slice : Value → Bool
  is_empty_slice (nil_slice _) = true
  is_empty_slice (slice _ nil) = true
  is_empty_slice _ = false

  unfoldable pub raise_error_on_hooks : Value → Outcome (Unit {0})
  unfolding has_hook
  raise_error_on_hooks i =
      if is_empty_slice i
      then ok tt
      else fail_if (has_hook (hooked_value i))
          (bad_parameter "dbw.raiseErrorOnHooks: gorm callback/hooks are not supported")

-- `e.Kind() == reflect.Slice` and its elements' kind, for the element of a pointer
abbrev pub has_bad_elements : Value → Bool
has_bad_elements (slice t _) = not (kind_eq (type_kind t) ptr_kind)
has_bad_elements (nil_slice t) = not (kind_eq (type_kind t) ptr_kind)
has_bad_elements _ = false

unfoldable pub validate_resources_interface : Value → Outcome (Unit {0})
validate_resources_interface (ptr e) = fail_if (has_bad_elements e) (
    bad_parameter
      "dbw.validateResourcesInterface: interface parameter is a slice, but the elements of the slice are not pointers")
validate_resources_interface (nil_ptr _) = ok tt
validate_resources_interface _ =
    err (bad_parameter "dbw.validateResourcesInterface: interface parameter must to be a pointer")

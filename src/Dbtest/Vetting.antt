-- ===== src/Dbtest/Vetting.antt =====
-- The methods that the package tests for, of the types of internal/dbtest, and how they meet its checks.
use go_dbw.Prelude.{
  ◌≡◌, refl, String, ◌==◌, Bool, false, not, Option, none, some, List, any, if◌then◌else◌,
}
use go_dbw.Errors.{Outcome, ok, err, panic, fail_if}
use go_dbw.Reflect.{
  Value, Fields, Items, GoType, named, ptr_type, struct_kind, struct, ptr, text, field, done, slice,
  item, type_eq, type_of,
}
use go_dbw.Gorm.{
  Resources, Vetter, OpType, Hook, before_create, after_create, before_save, after_save,
  before_update, after_update, before_delete, after_delete, after_find,
}
use go_dbw.Guards.{bad_parameter, hooks, raise_error_on_hooks}
use go_dbw.Dbtest.{
  TestType, test_user, test_car, test_rental, test_scooter, TestResource, type_names,
  default_table_name, to_value, field_value, text_of, vet_test_user,
}

-- The type that has a method of gorm's hooks, and no field
abbrev pub hook_type : Hook → String
hook_type before_create = "TestWithBeforeCreate"
hook_type after_create = "TestWithAfterCreate"
hook_type before_save = "TestWithBeforeSave"
hook_type after_save = "TestWithAfterSave"
hook_type before_update = "TestWithBeforeUpdate"
hook_type after_update = "TestWithAfterUpdate"
hook_type before_delete = "TestWithBeforeDelete"
hook_type after_delete = "TestWithAfterDelete"
hook_type after_find = "TestWithAfterFind"

-- The methods are those of pointers.
abbrev pub implements : GoType → Hook → Bool
implements (ptr_type (named _ s)) h = s == hook_type h
implements _ h = false

-- The fields of the embedded message; following a nil pointer to it panics.
abbrev pub store_of : Value → Option Fields
store_of (ptr (struct _ (field _ (ptr (struct _ fs)) _))) = some fs
store_of _ = none

abbrev is_test : String → Value → Bool
is_test name v = type_eq (type_of v) (ptr_type (named struct_kind name))

abbrev pub vet_store : OpType → List String → Option Fields → Outcome (Unit {0})
vet_store op masks none = panic
vet_store op masks (some fs) = vet_test_user op masks fs

abbrev field_of_store : String → Option Fields → String
field_of_store name none = ""
field_of_store name (some fs) = text_of (field_value name fs)

-- The getters of the messages, which a nil message has too.
unfoldable pub get_public_id : Value → Option String
get_public_id v =
    if is_test "TestUser" v
    then some (field_of_store "PublicId" (store_of v))
    else if is_test "TestCar" v
    then some (field_of_store "PublicId" (store_of v))
    else none

unfoldable pub get_private_id : Value → Option String
get_private_id v =
    if is_test "TestScooter" v then some (field_of_store "PrivateId" (store_of v)) else none

-- The unexported table of a resource, or the default of its type
abbrev table_or : String → Value → Option String
table_or default (ptr (struct _ (field _ _ (field _ (text _ table) _)))) =
    some (if not (table == "") then table else default)
table_or default _ = some default

unfoldable pub table_name_of : Value → Option String
table_name_of v =
    if is_test "TestUser" v
    then table_or (default_table_name test_user) v
    else if is_test "TestCar" v
    then table_or (default_table_name test_car) v
    else if is_test "TestRental" v
    then table_or (default_table_name test_rental) v
    else if is_test "TestScooter" v
    then table_or (default_table_name test_scooter) v
    else none

module _ {W : Type 0} where
  -- Only `TestUser` is a `VetForWriter`. It changes nothing.
  unfoldable pub vet_for_write : Value → Option (Vetter W)
  vet_for_write v =
      if is_test "TestUser" v
      then some (λ op masks nulls u w. (vet_store op masks (store_of u), u, w))
      else none

  -- What the package finds out about the types
  abbrev pub test_types : Resources W
  test_types = record {
    implements = implements;
    vet_for_write = vet_for_write;
    get_public_id = get_public_id;
    get_private_id = get_private_id;
    table_name = table_name_of;
  }

refused :
    (h : Hook)
    → fail_if
        (any (implements (ptr_type (named struct_kind (hook_type h)))) hooks)
        (bad_parameter "dbw.raiseErrorOnHooks: gorm callback/hooks are not supported")
      ≡ err (bad_parameter "dbw.raiseErrorOnHooks: gorm callback/hooks are not supported")
refused before_create = refl
refused after_create = refl
refused before_save = refl
refused after_save = refl
refused before_update = refl
refused after_update = refl
refused before_delete = refl
refused after_delete = refl
refused after_find = refl

accepted :
    (t : TestType)
    → fail_if
        (any (implements (ptr_type (named struct_kind (type_names t).0))) hooks)
        (bad_parameter "dbw.raiseErrorOnHooks: gorm callback/hooks are not supported")
      ≡ ok tt
accepted test_user = refl
accepted test_car = refl
accepted test_rental = refl
accepted test_scooter = refl

-- The package refuses a pointer to each of the types with a hook, alone or at the head of a slice, and
-- none of the four types of resources.
pub hook_types_refused :
    (W : Type 0) (h : Hook) (t : GoType) (vs : Items) (r : TestResource)
    → (raise_error_on_hooks (test_types {W = W}) (ptr (struct (hook_type h) done))
        ≡ err (bad_parameter "dbw.raiseErrorOnHooks: gorm callback/hooks are not supported"))
      × (raise_error_on_hooks
            (test_types {W = W})
            (slice t (item (ptr (struct (hook_type h) done)) vs))
          ≡ err (bad_parameter "dbw.raiseErrorOnHooks: gorm callback/hooks are not supported"))
      × (raise_error_on_hooks (test_types {W = W}) (to_value r) ≡ ok tt)
unfolding raise_error_on_hooks
hook_types_refused W h t vs r = (refused h, refused h, accepted r.test_type)

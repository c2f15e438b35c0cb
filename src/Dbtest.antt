-- ===== src/Dbtest.antt =====
-- internal/dbtest: the resource types of the package's own tests, with their tables, ids, vetting and hooks.
pub mod Stamps
pub mod Vetting
pub mod Vetted
pub mod Made
pub mod Tables
use go_dbw.Prelude.{
  ◌≡◌, ℕ, String, ◌==◌, Bool, true, false, not, Option, none, some, List, [], ◌∷◌, any, ℤ, pos,
  if◌then◌else◌,
}
use go_dbw.Errors.{Outcome, ok, err, panic, Error, errorf, foreign, fail_if, text_arg, ◌>>◌}
use go_dbw.Reflect.{
  Value, Fields, FieldInfo, GoType, named, ptr_type, struct_kind, struct, ptr, nil_ptr, nil_slice,
  text, integer, field, done, no_value, is_nil,
}
use go_dbw.Gorm.{
  Resources, Vetter, OpType, create_op, update_op, delete_op, unknown_op, Hook, before_create,
  after_create, before_save, after_save, before_update, after_update, before_delete, after_delete,
  after_find,
}
use go_dbw.Guards.{bad_parameter}
use go_dbw.Ids.{Randoms}

-- `TestUser`, `TestCar`, `TestRental` and `TestScooter`
pub data TestType : Type 0 where
  test_user test_car test_rental test_scooter : TestType

-- One of them: the fields of the embedded message, and the table of `SetTableName`.
pub record TestResource : Type 0 where
  pub test_type : TestType
  pub store : Fields
  pub table : String

abbrev pub type_names : TestType → String × String
type_names test_user = ("TestUser", "StoreTestUser")
type_names test_car = ("TestCar", "StoreTestCar")
type_names test_rental = ("TestRental", "StoreTestRental")
type_names test_scooter = ("TestScooter", "StoreTestScooter")

abbrev pub default_table_name : TestType → String
default_table_name test_user = "db_test_user"
default_table_name test_car = "db_test_car"
default_table_name test_rental = "db_test_rental"
default_table_name test_scooter = "db_test_scooter"

abbrev pub exported : String → FieldInfo
exported name = record { name = name; exported = true; embedded = false }

abbrev pub hidden : String → FieldInfo
hidden name = record { name = name; exported = false; embedded = false }

-- A pointer to the resource: the embedded pointer to its message, and the unexported table.
abbrev pub to_value : TestResource → Value
to_value r = ptr (
    struct (type_names r.test_type).0 (
      field (record { name = (type_names r.test_type).1; exported = true; embedded = true })
        (ptr (struct (type_names r.test_type).1 r.store))
        (field (hidden "table") (text "string" r.table) done)))

-- A field of type `*Timestamp`
abbrev pub stamp_field : Option Value → Value
stamp_field none = nil_ptr (named struct_kind "Timestamp")
stamp_field (some v) = ptr (struct "Timestamp" (field (exported "Timestamp") v done))

-- The fields of `StoreTestUser`, in their order; those of the protobuf runtime go first.
pub record StoreTestUser : Type 0 where
  pub public_id : String
  pub create_time : Option Value
  pub update_time : Option Value
  pub name : String
  pub phone_number : String
  pub email : String
  pub version : ℕ

abbrev pub user_fields : StoreTestUser → Fields
user_fields u = field (hidden "state") (struct "MessageState" done) (
    field (hidden "sizeCache") (integer "int32" (pos 0)) (
      field (hidden "unknownFields") (nil_slice (named go_dbw.Reflect.int_kind "uint8")) (
        field (exported "PublicId") (text "string" u.public_id) (
          field (exported "CreateTime") (stamp_field u.create_time) (
            field (exported "UpdateTime") (stamp_field u.update_time) (
              field (exported "Name") (text "string" u.name) (
                field (exported "PhoneNumber") (text "string" u.phone_number) (
                  field (exported "Email") (text "string" u.email)
                    (field (exported "Version") (integer "uint32" (pos u.version)) done)))))))))

abbrev pub a_test_user : StoreTestUser → String → TestResource
a_test_user u table = record { test_type = test_user; store = user_fields u; table = table }

abbrev pub no_user : StoreTestUser
no_user = record {
  public_id = "";
  create_time = none;
  update_time = none;
  name = "";
  phone_number = "";
  email = "";
  version = 0;
}

-- `NewTestUser`, on the random strings of base62, whose error is returned as it is; and `AllocTestUser`.
abbrev made_user : Option String → Outcome TestResource
made_user none = err (foreign "base62")
made_user (some id) = ok (a_test_user (record no_user { public_id = id }) "")

unfoldable pub new_test_user : {W : Type 0} → Randoms W → W → Outcome TestResource × W
new_test_user N w = let (id, w) = N.random 20 w in (made_user id, w)

unfoldable pub alloc_test_user : TestResource
alloc_test_user = a_test_user no_user ""

-- `TableName` and `SetTableName` of the four types; that of a user sets the default for the empty name.
unfoldable pub table_name : TestResource → String
table_name r = if not (r.table == "") then r.table else default_table_name r.test_type

unfoldable pub set_table_name : String → TestResource → TestResource
set_table_name name r = elim r.test_type [
  | test_user ↦ record r { table = if name == "" then default_table_name test_user else name }
  | _ ↦ record r { table = name }
]

-- `Clone`, which cars do not have; `proto.Clone` is the parameter. The table is not copied.
unfoldable pub clone : (Fields → Fields) → TestResource → Option TestResource
clone proto_clone r = elim r.test_type [
  | test_car ↦ none
  | t ↦ some (record { test_type = t; store = proto_clone r.store; table = "" })
]

-- A field by its name
abbrev pub field_value : String → Fields → Value
field_value name done = no_value
field_value name (field f v fs) = if f.name == name then v else field_value name fs

abbrev pub text_of : Value → String
text_of (text _ s) = s
text_of _ = ""

-- The paths that `VetForWrite` refuses, spelt as they are
abbrev pub immutable_paths : List String
immutable_paths = "PublicId" ∷ "CreateTime" ∷ "UpdateTime" ∷ []

-- The loop over the mask paths; the first that is immutable is named.
unfoldable pub vet_paths : List String → Outcome (Unit {0})
vet_paths [] = ok tt
vet_paths (path ∷ paths) =
    if any (λ p. p == path) immutable_paths
    then err (
        errorf "dbtest.(TestUser).VetForWrite: %s is immutable" (text_arg path ∷ [])
          (go_dbw.Errors.sentinel go_dbw.Errors.invalid_parameter))
    else vet_paths paths

abbrev vet_operation : OpType → List String → Fields → Outcome (Unit {0})
vet_operation update_op masks fs = vet_paths masks
vet_operation create_op masks fs =
    fail_if (not (is_nil (field_value "CreateTime" fs)))
      (bad_parameter "dbtest.(TestUser).VetForWrite: create time is set by the database")
vet_operation delete_op masks fs = ok tt
vet_operation unknown_op masks fs = ok tt

-- `TestUser.VetForWrite`, on the fields of the message
unfoldable pub vet_test_user : OpType → List String → Fields → Outcome (Unit {0})
unfolding vet_paths
vet_test_user op_type masks fs = do
  fail_if (text_of (field_value "PublicId" fs) == "")
      (bad_parameter "dbtest.(TestUser).VetForWrite: missing public id")
  fail_if (text_of (field_value "Name" fs) == "fail-VetForWrite")
      (bad_parameter "dbtest.(TestUser).VetForWrite: name was fail-VetForWrite")
  vet_operation op_type masks fs

-- ===== src/Dbtest/Made.antt =====
-- `NewTestCar`, `NewTestRental` and `NewTestScooter` of internal/dbtest.
use go_dbw.Prelude.{String, Option, none, some, pos}
use go_dbw.Errors.{Outcome, ok, err, foreign}
use go_dbw.Reflect.{Fields, int_kind, named, struct, integer, nil_slice, text, field, done}
use go_dbw.Ids.{Randoms}
use go_dbw.Dbtest.{
  TestType, test_car, test_rental, test_scooter, TestResource, exported, hidden, stamp_field,
}

-- What every message begins with, for the protobuf runtime
abbrev message : Fields → Fields
message fs = field (hidden "state") (struct "MessageState" done) (
    field (hidden "sizeCache") (integer "int32" (pos 0))
      (field (hidden "unknownFields") (nil_slice (named int_kind "uint8")) fs))

abbrev text_field : String → String → Fields → Fields
text_field name s fs = field (exported name) (text "string" s) fs

-- `CreateTime` and `UpdateTime`, which a new message does not set
abbrev stamps : Fields → Fields
stamps fs =
    field (exported "CreateTime") (stamp_field none)
      (field (exported "UpdateTime") (stamp_field none) fs)

abbrev mileage : Fields → Fields
mileage fs = field (exported "Mpg") (integer "int32" (pos 0)) fs

abbrev version : Fields
version = field (exported "Version") (integer "uint32" (pos 0)) done

-- `StoreTestCar`, `StoreTestRental` and `StoreTestScooter`, with nothing but their ids set
abbrev pub car_fields : String → Fields
car_fields id = message (
    text_field "PublicId" id (stamps (text_field "Name" "" (text_field "Model" "" (mileage done)))))

abbrev pub rental_fields : String → String → Fields
rental_fields user_id car_id = message (
    text_field "UserId" user_id (text_field "CarId" car_id (stamps (text_field "Name" "" version))))

abbrev pub scooter_fields : String → Fields
scooter_fields id = message (
    text_field "PrivateId" id
      (stamps (text_field "Model" "" (mileage (text_field "ReadOnlyField" "" done)))))

-- A new resource, with no table of its own
abbrev pub made : TestType → Fields → TestResource
made t fs = record { test_type = t; store = fs; table = "" }

-- On the random strings of base62, whose error is returned as it is
abbrev made_with_id : TestType → (String → Fields) → Option String → Outcome TestResource
made_with_id t fields_of none = err (foreign "base62")
made_with_id t fields_of (some id) = ok (made t (fields_of id))

module _ {W : Type 0} (N : Randoms W) where
  unfoldable pub new_test_car : W → Outcome TestResource × W
  new_test_car w = let (id, w) = N.random 20 w in (made_with_id test_car car_fields id, w)

  unfoldable pub new_test_scooter : W → Outcome TestResource × W
  new_test_scooter w =
      let (id, w) = N.random 20 w in (made_with_id test_scooter scooter_fields id, w)

unfoldable pub new_test_rental : String → String → Outcome TestResource
new_test_rental user_id car_id = ok (made test_rental (rental_fields user_id car_id))

-- ===== src/Dbtest/Tables.antt =====
-- The tables and the keys of the types of internal/dbtest.
use go_dbw.Prelude.{
  ◌≡◌, ◌≢◌, refl, ap, ◌∙◌, String, ◌==◌, false, none, some, [], ◌∷◌, Bool-cases, inl, inr,
  if◌then◌else◌,
}
use go_dbw.Errors.{ok}
use go_dbw.Reflect.{Fields, text, type_eq}
use go_dbw.Gorm.{Gorm, bind_value}
use go_dbw.Where.{primary_keys_where}
use go_dbw.Dbtest.{
  TestType, test_user, test_car, test_rental, test_scooter, TestResource, default_table_name,
  to_value, StoreTestUser, a_test_user, table_name, set_table_name, clone,
}
use go_dbw.Dbtest.Vetting.{test_types, get_public_id, table_name_of}

set_lem :
    (t : TestType) (name : String) (store : Fields) (table : String)
    → table_name (set_table_name name (record { test_type = t; store = store; table = table }))
      ≡ (if name == "" then default_table_name t else name)
unfolding table_name set_table_name
set_lem test_user name store table = elim (Bool-cases (name == "")) [
  | inl empty ↦ rw empty refl
  | inr named ↦ rw (named, named) refl
]
set_lem test_car name store table = elim (Bool-cases (name == "")) [
  | inl empty ↦ rw empty refl
  | inr named ↦ rw named refl
]
set_lem test_rental name store table = elim (Bool-cases (name == "")) [
  | inl empty ↦ rw empty refl
  | inr named ↦ rw named refl
]
set_lem test_scooter name store table = elim (Bool-cases (name == "")) [
  | inl empty ↦ rw empty refl
  | inr named ↦ rw named refl
]

found_lem :
    (t : TestType) (store : Fields) (table : String)
    → table_name_of (to_value (record { test_type = t; store = store; table = table }))
      ≡ some (table_name (record { test_type = t; store = store; table = table }))
unfolding table_name table_name_of type_eq
found_lem test_user store table = refl
found_lem test_car store table = refl
found_lem test_rental store table = refl
found_lem test_scooter store table = refl

found_set :
    (t : TestType) (name : String) (store : Fields) (table : String)
    → table_name_of
        (to_value (set_table_name name (record { test_type = t; store = store; table = table })))
      ≡ some (if name == "" then default_table_name t else name)
unfolding set_table_name
found_set test_user name store table =
    found_lem test_user store _ ∙ ap some (set_lem test_user name store table)
found_set test_car name store table =
    found_lem test_car store _ ∙ ap some (set_lem test_car name store table)
found_set test_rental name store table =
    found_lem test_rental store _ ∙ ap some (set_lem test_rental name store table)
found_set test_scooter name store table =
    found_lem test_scooter store _ ∙ ap some (set_lem test_scooter name store table)

clone_lem :
    (proto_clone : Fields → Fields) (t : TestType) (name : String) (store : Fields) (table : String)
    → t ≢ test_car
    → (r' : TestResource) × (clone proto_clone
          (set_table_name name (record { test_type = t; store = store; table = table }))
        ≡ some r')
      × (r'.store ≡ proto_clone store)
      × (table_name r' ≡ default_table_name t)
unfolding clone set_table_name table_name
clone_lem proto_clone test_car name store table no_car = absurd (no_car refl)
clone_lem proto_clone test_user name store table no_car =
    (record { test_type = test_user; store = proto_clone store; table = "" }, refl, refl, refl)
clone_lem proto_clone test_rental name store table no_car =
    (record { test_type = test_rental; store = proto_clone store; table = "" }, refl, refl, refl)
clone_lem proto_clone test_scooter name store table no_car =
    (record { test_type = test_scooter; store = proto_clone store; table = "" }, refl, refl, refl)

-- The table that the package finds for a resource is the one that was set, or the default of its type where the
-- empty name was set.
table_name_of-set :
    (r : TestResource) (name : String)
    → table_name_of (to_value (set_table_name name r))
      ≡ some (if name == "" then default_table_name r.test_type else name)
unfolding set_table_name
table_name_of-set r name = found_set r.test_type name r.store r.table

-- A clone of a user, a rental or a scooter has the default table, whatever table was set.
table_name-clone :
    (proto_clone : Fields → Fields) (r : TestResource) (name : String)
    → r.test_type ≢ test_car
    → (r' : TestResource) × (clone proto_clone (set_table_name name r) ≡ some r')
      × (r'.store ≡ proto_clone r.store)
      × (table_name r' ≡ default_table_name r.test_type)
table_name-clone proto_clone r name no_car =
    clone_lem proto_clone r.test_type name r.store r.table no_car

-- The keys by which the package looks for a user are its public id, which must be set.
pub primary_keys_where-test_user :
    (G : Gorm) (db : G.Db) (u : StoreTestUser) (table : String)
    → (G.parse (G.model (to_value (a_test_user u table)) db) (to_value (a_test_user u table))).0
      ≡ none
    → (u.public_id == "") ≡ false
    → primary_keys_where G test_types db (to_value (a_test_user u table))
      ≡ ok ("public_id = ?", bind_value (text "string" u.public_id) ∷ [])
unfolding primary_keys_where get_public_id type_eq
primary_keys_where-test_user G db u table parsed id = rw (parsed, id) refl

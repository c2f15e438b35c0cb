-- ===== src/Dbtest/Vetted.antt =====
-- What `TestUser.VetForWrite` lets pass, alone and behind the filters of `Create` and `Update`.
use go_dbw.Prelude.{
  ◌≡◌, ◌↔◌, refl, sym, ap, ◌∙◌, String, ◌==◌, eq_iff, Bool, true, false, not, ◌&&◌, ◌||◌, eq_refl,
  equal_fold, equal_fold_iff, to_upper, Option, none, some, List, [], ◌∷◌, any, All, Bool-cases,
  Option-cases, inl, inr, arith,
}
use go_dbw.Errors.{ok}
use go_dbw.Reflect.{Value}
use go_dbw.Contains.{contains}
use go_dbw.Common.{elements}
use go_dbw.Common.Intersection.{Slice}
use go_dbw.Prelude.Dict.{insert, keys}
use go_dbw.Reflect.Zero.{zero_of}
use go_dbw.Clear.{set_fields_to_nil}
use go_dbw.Gorm.{OpType, unknown_op, create_op, update_op, delete_op}
use go_dbw.Action.{State}
use go_dbw.Registry.{
  filter_paths, init_non_updatable_fields, non_updatable_fields, init_non_creatable_fields,
  non_creatable_fields,
}
use go_dbw.Update.Filtered.{filter_paths-init}
use go_dbw.Dbtest.{
  vet_operation, stamp_field, to_value, StoreTestUser, user_fields, a_test_user, immutable_paths,
  vet_paths, vet_test_user,
}
use go_dbw.Dbtest.Vetting.{store_of, vet_store}

not_of_true : (a b : Bool) → (a && not b) ≡ true → b ≡ false
not_of_true true false h = refl
not_of_true true true h = cc
not_of_true false b h = cc

or_right : (a b : Bool) → b ≡ true → (a || b) ≡ true
or_right true b h = refl
or_right false b h = h

-- A path that `VetForWrite` refuses
abbrev pub is_immutable : String → Bool
is_immutable path = any (λ p. p == path) immutable_paths

-- What the operation adds to the checks.
abbrev pub Vetted : OpType → List String → StoreTestUser → Type 0
Vetted unknown_op masks u = Unit
Vetted create_op masks u = u.create_time ≡ none
Vetted update_op masks u = All (λ p. is_immutable p ≡ false) masks
Vetted delete_op masks u = Unit

vet_paths_passed :
    (masks : List String) → vet_paths masks ≡ ok tt → All (λ p. is_immutable p ≡ false) masks
unfolding vet_paths
vet_paths_passed [] h = tt
vet_paths_passed (p ∷ ps) h = elim (Bool-cases (is_immutable p)) [
  | inl bad ↦ let h' = rw bad at h in cc
  | inr good ↦ (good, vet_paths_passed ps (rw good at h))
]

vet_paths_passes :
    (masks : List String) → All (λ p. is_immutable p ≡ false) masks → vet_paths masks ≡ ok tt
unfolding vet_paths
vet_paths_passes [] h = refl
vet_paths_passes (p ∷ ps) (good, rest) = rw good (vet_paths_passes ps rest)

-- The ids that every operation asks for
abbrev pub IsNamed : StoreTestUser → Type 0
IsNamed u = ((u.public_id == "") ≡ false) × ((u.name == "fail-VetForWrite") ≡ false)

vet_named :
    (op : OpType) (masks : List String) (u : StoreTestUser)
    → IsNamed u
    → vet_test_user op masks (user_fields u) ≡ vet_operation op masks (user_fields u)
unfolding vet_test_user
vet_named op masks u (id, name) = rw (id, name) refl

passed_id_and_name :
    (op : OpType) (masks : List String) (u : StoreTestUser)
    → vet_test_user op masks (user_fields u) ≡ ok tt
    → IsNamed u
unfolding vet_test_user
passed_id_and_name op masks u h = elim (Bool-cases (u.public_id == "")) [
  | inl missing ↦ let h' = rw missing at h in cc
  | inr id ↦ elim (Bool-cases (u.name == "fail-VetForWrite")) [
    | inl bad ↦ let h' = rw (id, bad) at h in cc
    | inr name ↦ (id, name)
  ]
]

operation_passed :
    (op : OpType) (masks : List String) (u : StoreTestUser)
    → vet_operation op masks (user_fields u) ≡ ok tt
    → Vetted op masks u
operation_passed unknown_op masks u h = tt
operation_passed create_op masks u h = elim (Option-cases u.create_time) [
  | inl unset ↦ unset
  | inr (t, set) ↦ let h' = rw set at h in cc
]
operation_passed update_op masks u h = vet_paths_passed masks h
operation_passed delete_op masks u h = tt

operation_passes :
    (op : OpType) (masks : List String) (u : StoreTestUser)
    → Vetted op masks u
    → vet_operation op masks (user_fields u) ≡ ok tt
operation_passes unknown_op masks u h = refl
operation_passes create_op masks u h = rw h refl
operation_passes update_op masks u h = vet_paths_passes masks h
operation_passes delete_op masks u h = refl

-- `VetForWrite` passes a user exactly if it has a public id and is not named "fail-VetForWrite", and, for a create, has
-- no create time or, for an update, no path of the mask is immutable.
pub vet_test_user_iff :
    (op : OpType) (masks : List String) (u : StoreTestUser)
    → (vet_test_user op masks (user_fields u) ≡ ok tt) ↔ (IsNamed u × Vetted op masks u)
vet_test_user_iff op masks u = (
  λ h.
      let named = passed_id_and_name op masks u h in
      (named, operation_passed op masks u (sym (vet_named op masks u named) ∙ h)),
  λ (named, vetted). vet_named op masks u named ∙ operation_passes op masks u vetted,
)

-- The two sets that `TestSetup` stores.
abbrev pub with_test_sets : {W : Type 0} → State W → State W
with_test_sets s =
    init_non_creatable_fields ("CreateTime" ∷ "UpdateTime" ∷ [])
      (init_non_updatable_fields ("CreateTime" ∷ "UpdateTime" ∷ "PublicId" ∷ []) s)

abbrev untimed : StoreTestUser → StoreTestUser
untimed u = record u { create_time = none; update_time = none }

zero_stamp : (o : Option Value) → zero_of (stamp_field o) ≡ stamp_field none
unfolding zero_of
zero_stamp none = refl
zero_stamp (some v) = refl

cleared_user :
    {W : Type 0} (s : State W) (u : StoreTestUser) (table : String)
    → set_fields_to_nil (to_value (a_test_user u table)) (non_creatable_fields (with_test_sets s))
      ≡ to_value (a_test_user (untimed u) table)
unfolding set_fields_to_nil non_creatable_fields init_non_creatable_fields init_non_updatable_fields
    insert keys
cleared_user s u table = rw (zero_stamp u.create_time, zero_stamp u.update_time) refl

unlike : (n q : String) → equal_fold n q ≡ false → (n == q) ≡ false
unlike n q h = elim (Bool-cases (n == q)) [
  | inr other ↦ other
  | inl same ↦
      let folded : equal_fold n q ≡ true =
        (equal_fold_iff n q).1 (ap to_upper ((eq_iff n q).0 same)) in
      cc
]

mutable_of_kept :
    (q : String)
    → contains ("CreateTime" ∷ "UpdateTime" ∷ "PublicId" ∷ []) q ≡ false
    → is_immutable q ≡ false
unfolding contains
mutable_of_kept q h =
    ground (arith, unlike "CreateTime" q, unlike "UpdateTime" q, unlike "PublicId" q)

-- The paths that the filter leaves are none of the three.
filtered_mutable :
    {W : Type 0} (s : State W) (paths : Slice) (q : String)
    → any (λ x. x == q) (elements (filter_paths (non_updatable_fields (with_test_sets s)) paths))
      ≡ true
    → is_immutable q ≡ false
unfolding init_non_creatable_fields non_updatable_fields
filtered_mutable s paths q h =
    let e = filter_paths-init ("CreateTime" ∷ "UpdateTime" ∷ "PublicId" ∷ []) s paths q in
    mutable_of_kept q (not_of_true _ _ (sym e ∙ h))

All-of_any :
    (masks : List String)
    → ((q : String) → any (λ x. x == q) masks ≡ true → is_immutable q ≡ false)
    → All (λ p. is_immutable p ≡ false) masks
All-of_any [] h = tt
All-of_any (p ∷ ps) h =
    let here : (p == p) ≡ true = eq_refl p in
    (h p (rw here refl), All-of_any ps (λ q m. h q (or_right _ _ m)))

-- After `TestSetup` has stored its sets, vetting asks of a user only for a public id and a name that is not
-- "fail-VetForWrite": of a resource that `Create` has cleared, whatever times it had, and of an update by the paths
-- that `Update` leaves of any mask.
pub test_sets_vetted :
    {W : Type 0} (s : State W) (u : StoreTestUser) (table : String) (masks : List String)
    (paths : Slice)
    → ((vet_store create_op masks (
            store_of (
              set_fields_to_nil
                (to_value (a_test_user u table))
                (non_creatable_fields (with_test_sets s))))
          ≡ ok tt)
        ↔ IsNamed u)
      × ((vet_store update_op
              (elements (filter_paths (non_updatable_fields (with_test_sets s)) paths))
              (store_of (to_value (a_test_user u table)))
            ≡ ok tt)
          ↔ IsNamed u)
test_sets_vetted s u table masks paths = (
  rw (cleared_user s u table) (
    λ h. ((vet_test_user_iff create_op masks (untimed u)).0 h).0,
    λ named. (vet_test_user_iff create_op masks (untimed u)).1 (named, refl),
  ),
  (
    λ h. ((vet_test_user_iff update_op _ u).0 h).0,
    λ named. (vet_test_user_iff update_op _ u).1 (named, All-of_any _ (filtered_mutable s paths)),
  ),
)

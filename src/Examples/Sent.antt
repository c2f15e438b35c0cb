-- ===== src/Examples/Sent.antt =====
-- Tests of the columns that an update sends.
use go_dbw.Prelude.{
  any, pos, not, ◌&&◌, ◌==◌, ◌≡◌, refl, ◌≢◌, ◌↔◌, true, false, none, some, [], ◌∷◌, All, is_empty,
  to_upper, to_lower, equal_fold, inl,
}
use go_dbw.Prelude.Dict.{Dict, lookup, insert, keys}
use go_dbw.Errors.{ok, panic}
use go_dbw.Reflect.{Fields, struct, ptr, text, done, field, indirect}
use go_dbw.Contains.{contains, keep}
use go_dbw.Common.{
  Update, to_value, to_null, update_fields, elements, visit_fields, visit_field, visit_mask,
  visit_null, visit_inner, visit_embedded, assign, check_missing, find_missing_paths,
}
use go_dbw.Common.Intersection.{
  Slice, Intersected, intersection, intersect_loop, upper_map, IsIntersection, intersection_lem,
}
use go_dbw.Common.Sound.{Requested, update_fields_sound}
use go_dbw.Common.Complete.{update_fields_complete}
use go_dbw.Common.Rejects.{update_fields-ne-panic, update_fields_hidden, AllReadable, HasHidden}
use go_dbw.Registry.{filter_paths, non_updatable_fields, init_non_updatable_fields}
use go_dbw.Action.{State}
use go_dbw.Update.Checks.{Columns, update_columns, check_primary_fields}
use go_dbw.Update.Filtered.{filter_paths-init, update_columns_safe, check_primary_fields_iff}
use go_dbw.Examples.{user, user_fields, users, hidden_field}

abbrev name_path : Slice
name_path = some ("name" ∷ [])

abbrev id_path : Slice
id_path = some ("PublicId" ∷ [])

abbrev two_updates : Dict Update
two_updates = ("PublicId", to_null) ∷ ("name", to_value (text "string" "ann")) ∷ []

two_updates_run : update_fields (user "u1" "ann") name_path id_path ≡ ok two_updates
unfolding update_fields intersection intersect_loop upper_map visit_fields visit_field visit_mask
    visit_null visit_inner visit_embedded assign check_missing find_missing_paths lookup insert
    contains keep equal_fold to_upper to_lower
two_updates_run = refl

name_is_there : lookup "name" two_updates ≡ some (to_value (text "string" "ann"))
unfolding lookup
name_is_there = refl

update_fields_sound_example :
    Requested
      (user_fields "u1" "ann")
      (elements name_path)
      (elements id_path)
      "name"
      (to_value (text "string" "ann"))
update_fields_sound_example =
    update_fields_sound (user "u1" "ann") name_path id_path (user_fields "u1" "ann") two_updates
      "name" (to_value (text "string" "ann")) refl two_updates_run name_is_there

update_fields_complete_example :
    All (λ p. contains (keys two_updates) p ≡ true) (elements name_path)
    × All (λ p. contains (keys two_updates) p ≡ true) (elements id_path)
update_fields_complete_example =
    update_fields_complete (user "u1" "ann") name_path id_path two_updates two_updates_run

overlap : contains (elements name_path) "NAME" ≡ true
unfolding contains equal_fold to_upper
overlap = refl

all_readable : AllReadable (elements name_path) (user_fields "u1" "ann")
all_readable = ((λ _. refl), tt, ((λ _. refl), tt, ((λ _. refl), tt, tt)))

update_fields-ne-panic_example : update_fields (user "u1" "ann") name_path id_path ≢ panic
update_fields-ne-panic_example =
    update_fields-ne-panic (user "u1" "ann") name_path id_path (user_fields "u1" "ann") refl
      all_readable

-- A resource with an unexported field.
abbrev hidden_fields : Fields
hidden_fields = field (hidden_field "secret") (text "string" "s") done

has_hidden : HasHidden ("secret" ∷ []) hidden_fields
unfolding contains equal_fold to_upper
has_hidden = inl (refl, refl)

update_fields_hidden_example :
    update_fields (ptr (struct "Vault" hidden_fields)) (some ("secret" ∷ [])) none ≡ panic
unfolding keep
update_fields_hidden_example =
    update_fields_hidden (ptr (struct "Vault" hidden_fields)) (some ("secret" ∷ [])) none
      hidden_fields refl refl refl refl has_hidden

intersection_lem_example :
    (r : Intersected) × (intersection (some ("a" ∷ [])) (some ("A" ∷ "b" ∷ [])) ≡ ok r)
    × IsIntersection ("a" ∷ []) ("A" ∷ "b" ∷ []) r
intersection_lem_example = intersection_lem ("a" ∷ []) ("A" ∷ "b" ∷ [])

abbrev sent : Columns
sent = record {
  masks = some ("Name" ∷ []);
  nulls = none;
  updates = ("Name", to_value (text "string" "ann")) ∷ [];
}

sent_run :
    update_columns ("CreateTime" ∷ []) (user "u1" "ann") (some ("Name" ∷ "CreateTime" ∷ [])) none
    ≡ ok sent
unfolding update_columns filter_paths update_fields intersection intersect_loop upper_map
    visit_fields visit_field visit_mask visit_null visit_inner visit_embedded assign check_missing
    find_missing_paths lookup insert contains keep equal_fold to_upper to_lower
sent_run = refl

sent_has_name : lookup "Name" sent.updates ≡ some (to_value (text "string" "ann"))
unfolding lookup
sent_has_name = refl

update_columns_safe_example :
    (is_empty sent.updates ≡ false) × (contains ("CreateTime" ∷ []) "Name" ≡ false)
update_columns_safe_example =
    update_columns_safe ("CreateTime" ∷ []) (user "u1" "ann") (some ("Name" ∷ "CreateTime" ∷ []))
      none sent "Name" (to_value (text "string" "ann")) sent_run sent_has_name

check_primary_fields_iff_example :
    check_primary_fields (indirect (user "u1" "ann")) ("Name" ∷ []) users.primary_fields ≡ ok tt
    ↔ All
        (λ pf.
          ((pf.value_of (indirect (user "u1" "ann"))).1 ≡ false)
          × (contains ("Name" ∷ []) pf.name ≡ false))
        users.primary_fields
check_primary_fields_iff_example =
    check_primary_fields_iff (indirect (user "u1" "ann")) ("Name" ∷ []) users.primary_fields

-- A state of the package's sets
abbrev no_sets : State (Unit {0})
no_sets = record {
  world = tt;
  resource = user "u1" "ann";
  rows_affected = none;
  returned = pos 0;
  non_creatable = none;
  non_updatable = none;
}

filter_paths-init_example :
    any
      (λ x. x == "Name")
      (elements (
        filter_paths
          (non_updatable_fields (init_non_updatable_fields ("CreateTime" ∷ []) no_sets))
          (some ("createtime" ∷ "Name" ∷ []))))
    ≡ (any (λ x. x == "Name") ("createtime" ∷ "Name" ∷ [])
        && not (contains ("CreateTime" ∷ []) "Name"))
filter_paths-init_example =
    filter_paths-init ("CreateTime" ∷ []) no_sets (some ("createtime" ∷ "Name" ∷ [])) "Name"

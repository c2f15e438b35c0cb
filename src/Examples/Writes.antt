-- ===== src/Examples/Writes.antt =====
-- Tests of the operations on the small database.
use go_dbw.Prelude.{
  ◌≢◌, ◌⊎◌, ◌≡◌, refl, ◌+◌, ◌≤◌, ◌==◌, pos, false, not, Option, none, some, List, [], ◌∷◌, eqb,
  is_some,
}
use go_dbw.Errors.{ok, foreign}
use go_dbw.Reflect.{
  Value, is_nil, slice, nil, item, ptr_type, named, struct_kind, type_of, type_eq, first_item, len,
}
use go_dbw.Common.Intersection.{Slice}
use go_dbw.Options.{Setter, get_opts, get_default_options}
use go_dbw.Gorm.{Gorm, Schema}
use go_dbw.Action.{
  ◌>>=◌, ◌>>◌, pure, fail, lift, within, get, fail_when, when, call, finish, store_rows,
  return_rows, fail_on,
}
use go_dbw.Guards.{raise_error_on_hooks}
use go_dbw.Registry.{non_updatable_fields}
use go_dbw.Lookup.{underlying, set_resource, ignore_error, lookup_by}
use go_dbw.Create.{create}
use go_dbw.Update.{update}
use go_dbw.Update.Checks.{Columns, update_columns, check_keys}
use go_dbw.Update.Passed.{update_passed}
use go_dbw.Delete.{delete}
use go_dbw.Delete.Items.{delete_items, items_schema, items_of}
use go_dbw.Delete.Passed.{AllDeletable, delete_items_passed}
use go_dbw.Once.{Counting, Quiet}
use go_dbw.Once.Writes.{create_writes_once, update_writes_once, deletes_write_once}
use go_dbw.Contains.{contains, keep}
use go_dbw.Prelude.{equal_fold, to_upper, to_lower, join}
use go_dbw.Prelude.Dict.{lookup, insert, keys}
use go_dbw.Common.{
  update_fields, visit_fields, visit_field, visit_mask, visit_null, visit_inner, visit_embedded,
  assign, check_missing, find_missing_paths,
}
use go_dbw.Common.Intersection.{intersection, intersect_loop, upper_map}
use go_dbw.Reflect.Zero.{is_zero}
use go_dbw.Registry.{filter_paths}
use go_dbw.Update.Checks.{check_primary_fields, parsed_schema}
use go_dbw.Where.{
  primary_fields_are_zero, zero_names, primary_keys_where, resource_keys, collect_keys,
}
use go_dbw.Update.{prepare_update, finish_update}
use go_dbw.Conditions.{with_conditions}
use go_dbw.Writing.{vet_for_write, before_write, after_write}
use go_dbw.Options.{apply_options, apply_option, with_lookup}
use go_dbw.Lookup.{
  lookup_after_write, clear_default_null_resource_fields, clear_defaults, is_default_null,
}
use go_dbw.Guards.{has_hook, validate_resources_interface}
use go_dbw.Examples.{Counters, toy, plain_types, holding, user}

abbrev pub no_options : List (Option (Setter Counters))
no_options = []

pub toy-Counting : Counting toy plain_types (λ w. w.writes)
toy-Counting = record {
  of_create = λ db v w. refl;
  of_updates = λ db us v w. refl;
  of_delete = λ db v w. refl;
  of_first = λ db v w. refl;
  of_find = λ db v w. refl;
  of_vet = λ u vet h op masks nulls v w. cc;
}

toy-Quiet : Quiet (λ w. w.writes) (get_opts no_options)
unfolding get_opts
toy-Quiet = record { before = λ fn h v w. cc; after = λ fn h n v w. cc }

abbrev named_only : Slice
named_only = some ("Name" ∷ "CreateTime" ∷ [])

abbrev two_users : Value
two_users =
    slice (ptr_type (named struct_kind "User"))
      (item (user "u1" "ann") (item (user "u2" "bob") nil))

-- An update of a name, by a caller who also names a column that may not be updated.
update_run :
    ((update toy plain_types tt (some tt) named_only none no_options (holding (user "u1" "ann"))).0
      ≡ ok tt)
    × ((update toy plain_types tt
          (some tt)
          named_only
          none
          no_options
          (holding (user "u1" "ann"))).1.returned
        ≡ pos 1)
unfolding update ◌>>=◌ ◌>>◌ pure fail lift within get fail_when when call finish store_rows
    return_rows fail_on underlying set_resource ignore_error raise_error_on_hooks update_columns
    check_keys non_updatable_fields get_opts get_default_options lookup_by contains keep equal_fold
    to_upper to_lower join lookup insert keys update_fields visit_fields visit_field visit_mask
    visit_null visit_inner visit_embedded assign check_missing find_missing_paths intersection
    intersect_loop upper_map is_zero filter_paths check_primary_fields parsed_schema
    primary_fields_are_zero zero_names primary_keys_where resource_keys collect_keys prepare_update
    finish_update with_conditions vet_for_write before_write after_write apply_options apply_option
    with_lookup lookup_after_write clear_default_null_resource_fields clear_defaults is_default_null
    has_hook validate_resources_interface
update_run = (refl, refl)

create_writes_once_example :
    ((create toy plain_types tt (some tt) no_options (holding (user "u1" "ann"))).1.world.writes
      ≤ 0 + 1)
    × (((create toy plain_types tt (some tt) no_options (holding (user "u1" "ann"))).0 ≢ ok tt)
        ⊎ ((create toy plain_types tt
              (some tt)
              no_options
              (holding (user "u1" "ann"))).1.world.writes
            ≡ 0 + 1))
create_writes_once_example =
    create_writes_once toy plain_types (λ w. w.writes) toy-Counting tt (some tt) no_options
      (holding (user "u1" "ann")) toy-Quiet

update_writes_once_example :
    ((update toy plain_types tt
        (some tt)
        named_only
        none
        no_options
        (holding (user "u1" "ann"))).1.world.writes
      ≤ 0 + 1)
    × (((update toy plain_types tt
            (some tt)
            named_only
            none
            no_options
            (holding (user "u1" "ann"))).0
          ≢ ok tt)
        ⊎ ((update toy plain_types tt
              (some tt)
              named_only
              none
              no_options
              (holding (user "u1" "ann"))).1.world.writes
            ≡ 0 + 1))
update_writes_once_example =
    update_writes_once toy plain_types (λ w. w.writes) toy-Counting tt (some tt) named_only none
      no_options (holding (user "u1" "ann")) toy-Quiet

deletes_write_once_example :
    ((delete toy plain_types tt (some tt) no_options (holding two_users)).1.world.writes ≤ 0 + 1)
    × (((delete toy plain_types tt (some tt) no_options (holding two_users)).0 ≢ ok tt)
        ⊎ ((delete toy plain_types tt (some tt) no_options (holding two_users)).1.world.writes
            ≡ 0 + 1))
    × ((delete_items toy plain_types tt (some tt) no_options (holding two_users)).1.world.writes
        ≤ 0 + 1)
    × (((delete_items toy plain_types tt (some tt) no_options (holding two_users)).0 ≢ ok tt)
        ⊎ ((delete_items toy plain_types tt (some tt) no_options (holding two_users)).1.world.writes
            ≡ 0 + 1))
deletes_write_once_example =
    deletes_write_once toy plain_types (λ w. w.writes) toy-Counting tt (some tt) no_options
      (holding two_users) toy-Quiet

update_passed_example :
    (is_nil (user "u1" "ann") ≡ false)
    × (raise_error_on_hooks plain_types (user "u1" "ann") ≡ ok tt)
    × ((c : Columns) × (db : Unit {0}) × (update_columns
            (non_updatable_fields (holding (user "u1" "ann")))
            (user "u1" "ann")
            named_only
            none
          ≡ ok c)
        × (some tt ≡ some db)
        × (check_keys toy db (user "u1" "ann") c.masks ≡ ok tt))
update_passed_example =
    update_passed toy plain_types tt (some tt) named_only none no_options
      (holding (user "u1" "ann")) update_run.0

delete_items_run :
    (delete_items toy plain_types tt (some tt) no_options (holding two_users)).0 ≡ ok tt
unfolding delete_items ◌>>=◌ ◌>>◌ pure fail lift within get fail_when when call finish store_rows
    return_rows fail_on underlying set_resource ignore_error raise_error_on_hooks has_hook get_opts
    get_default_options apply_options items_schema with_conditions before_write after_write type_eq
    is_zero
delete_items_run = refl

delete_items_passed_example :
    (eqb (len two_users) 0 ≡ false)
    × ((get_opts no_options).with_lookup ≡ false)
    × (is_some (get_opts no_options).with_version ≡ false)
    × ((db : Unit {0}) × (schema : Schema) × (some tt ≡ some db)
        × (items_schema (toy.parse (toy.model (first_item two_users) db) (first_item two_users))
            ≡ ok schema)
        × AllDeletable
            (not ((get_opts no_options).with_where_clause == ""))
            schema.primary_fields
            (type_of (first_item two_users))
            (items_of two_users))
delete_items_passed_example =
    delete_items_passed toy plain_types tt (some tt) no_options (holding two_users) delete_items_run

-- A database that cannot parse the type of any resource.
abbrev mute : Gorm
mute = record toy { parse = λ _ _. (some (foreign "unsupported data type"), none) }

user_has_no_hooks : raise_error_on_hooks plain_types (user "u1" "ann") ≡ ok tt
unfolding raise_error_on_hooks has_hook
user_has_no_hooks = refl

-- ===== src/Examples/Vetoed.antt =====
-- Tests of writes that are vetoed.
use go_dbw.Prelude.{◌≡◌, ◌≢◌, refl, ◌==◌, if◌then◌else◌, false, Option, none, some, List, [], ◌∷◌}
use go_dbw.Errors.{ok, err, foreign}
use go_dbw.Options.{Setter, Callback, get_opts, with_before_write}
use go_dbw.Gorm.{Resources, Vetter}
use go_dbw.Reflect.{Value, ptr, struct}
use go_dbw.Create.{create}
use go_dbw.Update.{update}
use go_dbw.Delete.{delete}
use go_dbw.Once.Vetoed.{Refuses, Vetoes, vetoed_never_written, refused_never_deleted}
use go_dbw.Examples.{Counters, toy, plain_types, holding, user, user_fields}

abbrev no : Callback Counters
no v w = (err (foreign "not today"), v, w)

-- One type is vetted, and each of its values is refused.
abbrev vet_user : Value → Option (Vetter Counters)
vet_user (ptr (struct t fs)) = if t == "User" then some (λ op masks nulls. no) else none
vet_user _ = none

abbrev refused_types : Resources Counters
refused_types = record plain_types { vet_for_write = vet_user }

refused_types-Vetoes : Vetoes (λ w. w.writes) refused_types "User"
refused_types-Vetoes = record {
  vetter = λ op masks nulls. no;
  vets = λ fs. refl;
  refuses = λ op masks nulls fs w bad. cc;
  kept = λ op masks nulls fs w. refl;
}

abbrev no_options : List (Option (Setter Counters))
no_options = []

is_vetted : (get_opts no_options).with_skip_vet_for_write ≡ false
unfolding get_opts
is_vetted = refl

vetoed_never_written_example :
    ((create toy refused_types tt (some tt) no_options (holding (user "u1" "ann"))).0 ≢ ok tt)
    × ((create toy refused_types tt (some tt) no_options (holding (user "u1" "ann"))).1.world.writes
        ≡ 0)
    × ((update toy refused_types tt
          (some tt)
          (some ("Name" ∷ []))
          none
          no_options
          (holding (user "u1" "ann"))).0
        ≢ ok tt)
    × ((update toy refused_types tt
          (some tt)
          (some ("Name" ∷ []))
          none
          no_options
          (holding (user "u1" "ann"))).1.world.writes
        ≡ 0)
vetoed_never_written_example =
    vetoed_never_written toy refused_types (λ w. w.writes) tt (some tt) no_options "User"
      (user_fields "u1" "ann") (some ("Name" ∷ [])) none (holding (user "u1" "ann")) refl
      refused_types-Vetoes is_vetted

no-Refuses : Refuses (λ w. w.writes) no
no-Refuses = record { error = λ v w. foreign "not today"; fails = λ v w. refl; kept = λ v w. refl }

abbrev refusing_options : List (Option (Setter Counters))
refusing_options = some (with_before_write (some no)) ∷ []

has_callback : (get_opts refusing_options).with_before_write ≡ some no
unfolding get_opts with_before_write
has_callback = refl

refused_never_deleted_example :
    ((delete toy plain_types tt (some tt) refusing_options (holding (user "u1" "ann"))).0 ≢ ok tt)
    × ((delete toy plain_types tt
          (some tt)
          refusing_options
          (holding (user "u1" "ann"))).1.world.writes
        ≡ 0)
refused_never_deleted_example =
    refused_never_deleted toy plain_types (λ w. w.writes) tt (some tt) refusing_options no
      (holding (user "u1" "ann")) has_callback no-Refuses

-- ===== src/Examples/Kept.antt =====
-- Tests of invariants that `Update` and `Create` keep: nobody touches the time of creation.
use mathlib.Core.Path.{subst}
use go_dbw.Prelude.{
  ap, ◌∙◌, not, ◌&&◌, Bool-cases, ◌≡◌, refl, String, true, false, Option, none, some, List, [], ◌∷◌,
  is_some, if◌then◌else◌, Option-cases, inl, inr, equal_fold, to_upper, ◌+◌, ℕ,
}
use go_dbw.Prelude.Dict.{Dict, lookup}
use go_dbw.Contains.{contains}
use go_dbw.Common.{Update}
use go_dbw.Common.Intersection.{Slice}
use go_dbw.Options.{Setter, get_opts}
use go_dbw.Errors.{ok}
use go_dbw.Gorm.{Gorm, Resources, Vetter}
use go_dbw.Registry.{non_updatable_fields, non_creatable_fields}
use go_dbw.Update.{update}
use go_dbw.Keeping.{CallbacksKeep}
use go_dbw.Keeping.Updates.{Avoids, Permits, update-keeps}
use go_dbw.Reflect.{Value, Fields, ptr, struct, done, field}
use go_dbw.Reflect.Zero.{is_zero, is_zero-zero_of}
use go_dbw.Clear.{is_listed}
use go_dbw.Clear.Laws.{AllZeroed, IsCleared}
use go_dbw.Action.{State}
use go_dbw.Create.{create}
use go_dbw.Keeping.Creates.{SparesCleared, PermitsCreates, create-keeps}
use go_dbw.Examples.{user_fields, Counters, toy, plain_types, holding, user, read}

-- A database whose counter of runs says how often a time of creation was changed.
abbrev pub touched : Dict Update → ℕ
touched us = if is_some (lookup "CreateTime" us) then 1 else 0

abbrev pub watched : Gorm
watched = record toy { updates = λ _ us v w. read v (record w { runs = w.runs + touched us }) }

abbrev pub Untouched : Counters → Type 0
Untouched w = w.runs ≡ 0

pub Untouched-touched :
    (us : Dict Update) (w : Counters)
    → Avoids ("CreateTime" ∷ []) us
    → Untouched w
    → w.runs + touched us ≡ 0
unfolding contains equal_fold to_upper
Untouched-touched us w avoids p = elim (Option-cases (lookup "CreateTime" us)) [
  | inl eq ↦ rw (eq, p) refl
  | inr (u, eq) ↦ let e : true ≡ false = avoids "CreateTime" u eq in cc
]

watched-Permits : Permits watched plain_types ("CreateTime" ∷ []) Untouched
watched-Permits = record {
  of_updates = λ db us v w avoids p. Untouched-touched us w avoids p;
  of_first = λ db v w p. p;
  of_vet = λ u vet h op masks nulls v w p. cc;
}

abbrev pub no_options : List (Option (Setter Counters))
no_options = []

no_callbacks-CallbacksKeep : CallbacksKeep Untouched (get_opts no_options)
unfolding get_opts
no_callbacks-CallbacksKeep = record { before = λ fn h v w p. cc; after = λ fn h n v w p. cc }

abbrev pub both_paths : Slice
both_paths = some ("Name" ∷ "CreateTime" ∷ [])

pub names_set :
    ◌≡◌ {A = List String} ("CreateTime" ∷ []) (non_updatable_fields (holding (user "u1" "ann")))
unfolding non_updatable_fields
names_set = refl

update-keeps_example :
    Untouched
      (update watched plain_types tt
        (some tt)
        both_paths
        none
        no_options
        (holding (user "u1" "ann"))).1.world
update-keeps_example =
    update-keeps watched plain_types tt (some tt) ("CreateTime" ∷ []) Untouched watched-Permits
      both_paths none no_options (holding (user "u1" "ann")) names_set no_callbacks-CallbacksKeep
      refl

-- A database whose counter of runs says how many times of creation it was given.
abbrev stamped : Fields → ℕ
stamped done = 0
stamped (field f v fs) =
    let rest = stamped fs in
    if is_listed ("CreateTime" ∷ []) f.name && (f.exported && not (is_zero v))
    then rest + 1
    else rest

abbrev stamps : Value → ℕ
stamps (ptr (struct t fs)) = stamped fs
stamps _ = 0

abbrev stamping : Gorm
stamping = record toy { create = λ _ v w. read v (record w { runs = w.runs + stamps v }) }

stamped_lem : (fs : Fields) → AllZeroed ("CreateTime" ∷ []) fs → stamped fs ≡ 0
stamped_lem done _ = refl
stamped_lem (field f v fs) (zeroed, rest) =
    elim (Bool-cases (is_listed ("CreateTime" ∷ []) f.name)) [
      | inr l ↦ rw l (stamped_lem fs rest)
      | inl l ↦ elim (Bool-cases f.exported) [
        | inr x ↦ rw (l, x) (stamped_lem fs rest)
        | inl x ↦ rw (l, x, ap is_zero (zeroed l x) ∙ is_zero-zero_of v) (stamped_lem fs rest)
      ]
    ]

stamps_lem : (v : Value) → IsCleared ("CreateTime" ∷ []) v → stamps v ≡ 0
stamps_lem (ptr (struct t fs)) (zeroed, _) = stamped_lem fs zeroed
stamps_lem _ _ = refl

stamping-PermitsCreates : PermitsCreates stamping ("CreateTime" ∷ []) Untouched
stamping-PermitsCreates = record {
  of_create = λ db v w cleared p. rw (stamps_lem v cleared, p) refl;
  of_first = λ db v w p. p;
}

-- Types that are vetted and pass.
abbrev passing : Vetter Counters
passing op masks nulls v w = (ok tt, v, w)

abbrev vetted_types : Resources Counters
vetted_types = record plain_types { vet_for_write = λ v. some passing }

abbrev to_create : State Counters
to_create = record (holding (user "u1" "ann")) { non_creatable = some ("CreateTime" ∷ []) }

create_names_set : ◌≡◌ {A = List String} ("CreateTime" ∷ []) (non_creatable_fields to_create)
unfolding non_creatable_fields
create_names_set = refl

no_options-SparesCleared :
    SparesCleared vetted_types ("CreateTime" ∷ []) Untouched (get_opts no_options)
unfolding get_opts
no_options-SparesCleared = record {
  of_vet = λ vets u vet eq op masks nulls v w c p.
      let same : passing ≡ vet = cc in
      subst
        (λ g.
          IsCleared ("CreateTime" ∷ []) (g op masks nulls v w).1
          × Untouched (g op masks nulls v w).2)
        same (c, p);
  of_before = λ fn eq v w c. cc;
}

create-keeps_example :
    Untouched (create stamping vetted_types tt (some tt) no_options to_create).1.world
create-keeps_example =
    create-keeps stamping vetted_types tt (some tt) ("CreateTime" ∷ []) Untouched
      stamping-PermitsCreates no_options to_create "User" (user_fields "u1" "ann") refl
      create_names_set refl no_callbacks-CallbacksKeep no_options-SparesCleared refl

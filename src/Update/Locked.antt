-- ===== src/Update/Locked.antt =====
-- `Update` with a version that is not the row's.
use go_dbw.Prelude.{◌≡◌, ◌≢◌, refl, ◌∙◌, ℕ, ℤ, pos, Option, some, List, ◌⊎◌, inl, inr}
use go_dbw.Prelude.Dict.{Dict}
use go_dbw.Errors.{Outcome, ok, err, panic, Error, Outcome-cases, fails_or}
use go_dbw.Reflect.{Value}
use go_dbw.Common.{Update}
use go_dbw.Common.Intersection.{Slice}
use go_dbw.Options.{Setter, get_opts}
use go_dbw.Gorm.{Gorm, Resources}
use go_dbw.Action.{State, ◌>>=◌, ◌>>◌, get, lift, finish, return_rows, no_rows_affected}
use go_dbw.Inversion.{then_gave, get_passed, fail_on_passed}
use go_dbw.Update.Checks.{Columns}
use go_dbw.Keeping.{>>-Keeps, within-Keeps, return_rows-Keeps, fail_on-Keeps, after_write-Keeps}
use go_dbw.Keeping.Lookups.{lookup_after_write-Keeps}
use go_dbw.Keeping.States.{
  Stays, >>=-Stays, >>-Stays, lift-Stays, get-Stays, when-Stays, vet_for_write-Stays,
}
use go_dbw.Steps.{fail_when-step, check-step, lift-step, underlying-step}
use go_dbw.Locks.{
  Locks, CallbacksSpare, IsVersioned, Same, Stale, Refused, spare-CallbacksKeep, before_write-Stale,
  then_returned,
}
use go_dbw.Locks.Statement.{conditions_ask}
use go_dbw.Update.{prepare_update, finish_update, update}

module _ (G : Gorm) (R : Resources G.World) (ctx : G.Context) (conn : Option G.Db) {A K : Type 0}
    (data_of : G.World → A) (key : Value → K) (version_of : K → A → Option ℕ)
    (asked_by : G.Db → Option ℕ) (v : ℕ) (locks : Locks G R data_of key version_of asked_by v)
    (opt : List (Option (Setter G.World))) (spare : CallbacksSpare data_of key (get_opts opt))
    (alone : IsVersioned (get_opts opt) v) (a : A) where
  prepare_update-Stays :
      (k : K) (db : G.Db) (c : Columns)
      → Stays (Stale data_of key a k) (prepare_update G R db (get_opts opt) c)
  unfolding prepare_update
  prepare_update-Stays k db c =
      >>-Stays
        (when-Stays _ (
          vet_for_write-Stays R
            (λ u vet eq op masks nulls s (p, q). (
              (locks.of_vet u vet eq op masks nulls s.resource s.world).0 ∙ p,
              (locks.of_vet u vet eq op masks nulls s.resource s.world).1 ∙ q,
            ))
            _ _ _ _))
        (>>-Stays (before_write-Stale data_of key a (get_opts opt) spare k _)
          (>>=-Stays get-Stays λ s. lift-Stays _))

  -- The statement that is prepared asks for the version.
  prepared_asks :
      (db : G.Db) (c : Columns) (s : State G.World) (st : G.Db)
      → (prepare_update G R db (get_opts opt) c s).0 ≡ ok st
      → asked_by st ≡ some v
  unfolding prepare_update lift
  prepared_asks db c s st h =
      let (t, _, h1, _) = then_gave _ _ s st h in
      let (t', _, h2, _) = then_gave _ _ t st h1 in
      conditions_ask G R data_of key version_of asked_by v locks "dbw.Update" db _ st t'.resource
        (get_opts opt) alone (get_passed t' _ h2)

  finish_update_locked :
      (k : K) (st : G.Db) (us : Dict Update) (s : State G.World)
      → asked_by st ≡ some v
      → version_of k a ≢ some v
      → Stale data_of key a k s
      → Refused data_of key a (finish_update G R ctx conn st us opt s)
  unfolding finish_update ◌>>=◌ finish return_rows
  finish_update_locked k st us s asks stale (at_key, same) =
      let t = G.updates st us s.resource s.world in
      let s1 : State G.World = record s { resource = t.resource; world = t.world } in
      let (kept, no_rows) =
        locks.of_updates st us s.resource s.world asks (rw (at_key, same) stale) in
      let calls = spare-CallbacksKeep data_of key a (get_opts opt) spare in
      (
        (>>-Keeps {P = Same data_of key a} (fail_on-Keeps t.error _) (
              >>-Keeps (return_rows-Keeps _) (
                >>-Keeps (after_write-Keeps calls _ _) (
                  >>-Keeps (return_rows-Keeps _) (
                    >>-Keeps
                      (within-Keeps _ (
                        lookup_after_write-Keeps G R ctx conn (Same data_of key a)
                          (λ db u w p. locks.of_first db u w ∙ p) _))
                      (return_rows-Keeps _)))))).kept
            s1 (kept ∙ same),
        λ done.
            let (no_error, _) = fail_on_passed s1 t.error _ _ done in
            let n : ℤ = t.rows_affected in
            then_returned _ _ n s1
              (λ x. then_returned _ _ n x (λ x.
                then_returned _ _ n x
                  (λ x. then_returned _ _ n x (λ x. then_returned _ _ n x (λ x _. refl)))))
              done
            ∙ no_rows no_error,
      )

  sent_locked :
      (k : K) (db : G.Db) (c : Columns) (s : State G.World)
      → version_of k a ≢ some v
      → Stale data_of key a k s
      → Refused data_of key a (
          (prepare_update G R db (get_opts opt) c >>= λ statement.
          finish_update G R ctx conn statement c.updates opt)
            s)
  unfolding ◌>>=◌
  sent_locked k db c s stale at_start =
      let kept = (prepare_update-Stays k db c).kept s at_start in
      elim (Outcome-cases (prepare_update G R db (get_opts opt) c s).0) [
        | inl (st, eq) ↦
            rw eq (finish_update_locked k st c.updates _ (prepared_asks db c s st eq) stale kept)
        | inr (inl (e, eq)) ↦ rw eq (kept.1, λ h. cc)
        | inr (inr eq) ↦ rw eq (kept.1, λ h. cc)
      ]

-- If the database `Locks` on the version and the callbacks `CallbacksSpare` data and keys, an `Update` whose only
-- condition is a version that the resource's row does not have changes no data, and returns an error or no
-- rows.
pub update-locked :
    (G : Gorm) (R : Resources G.World) (ctx : G.Context) (conn : Option G.Db) {A K : Type 0}
    (data_of : G.World → A) (key : Value → K) (version_of : K → A → Option ℕ)
    (asked_by : G.Db → Option ℕ) (v : ℕ)
    → Locks G R data_of key version_of asked_by v
    → (opt : List (Option (Setter G.World))) → CallbacksSpare data_of key (get_opts opt)
    → IsVersioned (get_opts opt) v
    → (masks nulls : Slice) (s : State G.World)
    → version_of (key s.resource) (data_of s.world) ≢ some v
    → (data_of (update G R ctx conn masks nulls opt s).1.world ≡ data_of s.world)
      × (((update G R ctx conn masks nulls opt s).0 ≢ ok tt)
          ⊎ ((update G R ctx conn masks nulls opt s).1.returned ≡ pos 0))
unfolding update ◌>>=◌ ◌>>◌ return_rows get
update-locked G R ctx conn data_of key version_of asked_by v locks opt spare alone masks nulls s
      stale =
    let s1 : State G.World = record s { returned = no_rows_affected } in
    let Q : Outcome (Unit {0}) × State G.World → Type 0 = Refused data_of key (data_of s.world) in
    let fails : (e : Error) → Q (err e, s1) = λ e. (refl, λ h. refl) in
    let panics : Q (panic, s1) = (refl, λ h. refl) in
    let (kept, no_rows) = underlying-step Q s1 fails panics _ _ conn λ db.
      fail_when-step Q s1 fails panics _ _ _ (
        check-step Q s1 fails panics _ _ λ _. fail_when-step Q s1 fails panics _ _ _ (
          lift-step Q s1 fails panics _ _ λ c _. check-step Q s1 fails panics _ _ λ _.
            sent_locked G R ctx conn data_of key version_of asked_by v locks opt spare alone
              (data_of s.world) (key s.resource) db c s1 stale (refl, refl))) in
    (kept, fails_or _ no_rows)

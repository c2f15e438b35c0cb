-- ===== src/Testing/Registered.antt =====
-- The sets of fields that `TestSetup` leaves, and what they mean for the test users of internal/dbtest.
use go_dbw.Common.{elements}
use go_dbw.Common.Intersection.{Slice}
use go_dbw.Clear.{set_fields_to_nil}
use go_dbw.Dbtest.{to_value, StoreTestUser, a_test_user}
use go_dbw.Dbtest.Vetting.{store_of, vet_store}
use go_dbw.Dbtest.Vetted.{IsNamed, with_test_sets, test_sets_vetted}
use go_dbw.Prelude.{
  ap, ◌≡◌, ◌↔◌, refl, ℤ, String, ◌==◌, Option, some, List, [], ◌∷◌, Option-cases, Bool-cases, inl,
  inr,
}
use go_dbw.Prelude.Dict.{insert, keys}
use go_dbw.Errors.{Outcome, ok, Error}
use go_dbw.Reflect.{Value}
use go_dbw.Options.{Setter}
use go_dbw.Gorm.{Gorm, Written, create_op, update_op}
use go_dbw.Action.{State, Action, ◌>>=◌, ◌>>◌, finish, return_rows}
use go_dbw.Registry.{
  filter_paths, init_non_updatable_fields, init_non_creatable_fields, non_updatable_fields,
  non_creatable_fields,
}
use go_dbw.Query.{exec}
use go_dbw.Ids.{Randoms}
use go_dbw.Db.{Drivers}
use go_dbw.Keeping.States.{
  Stays, >>=-Stays, >>-Stays, lift-Stays, pure-Stays, underlying-Stays, fail_when-Stays,
  fail_on-Stays,
}
use go_dbw.Testing.{
  TestOptions, TestOption, Harness, Cleanup, get_test_opts, choose_dialect, on_world, run_migration,
  test_create_tables,
}
use go_dbw.Testing.Setup.{
  store_sets, or_env, register, create_test_db, prepare_url, migrate, open_test_db, test_setup,
}

abbrev creatable_set : List String
creatable_set = "CreateTime" ∷ "UpdateTime" ∷ []

abbrev updatable_set : List String
updatable_set = "CreateTime" ∷ "UpdateTime" ∷ "PublicId" ∷ []

-- The two sets are those of `TestSetup`.
abbrev pub HasTestSets : {W : Type 0} → State W → Type 0
HasTestSets s = (s.non_creatable ≡ some creatable_set) × (s.non_updatable ≡ some updatable_set)

module _ (G : Gorm) where
  abbrev S : {A : Type 0} → Action G.World A → Type 0
  S m = Stays HasTestSets m

  return_rows-Stays : (n : ℤ) → S (return_rows n)
  unfolding return_rows
  return_rows-Stays n = record { kept = λ s p. p }

  finish-Stays : (f : Value → G.World → Written G.World) → S (finish f)
  unfolding finish
  finish-Stays f = record { kept = λ s p. p }

  exec-Stays :
      (ctx : G.Context) (conn : Option G.Db) (sql : String) (values : List Value)
      (opt : List (Option (Setter G.World)))
      → S (exec G ctx conn sql values opt)
  unfolding exec
  exec-Stays ctx conn sql values opt = >>-Stays (return_rows-Stays _) (
      >>=-Stays (underlying-Stays _ conn) λ db.
        >>-Stays (fail_when-Stays _ _)
          (>>=-Stays (finish-Stays _) λ t. >>-Stays (fail_on-Stays _ _) (return_rows-Stays _)))

  module _ (D : Drivers G) where
    on_world-Stays : {A : Type 0} (f : G.World → Outcome A × G.World) → S (on_world G D f)
    unfolding on_world
    on_world-Stays f = record { kept = λ s p. p }

    run_migration-Stays : (f : G.World → Option Error × G.World) → S (run_migration G D f)
    unfolding run_migration
    run_migration-Stays f = record {
      kept = λ s p.
          (fail_on-Stays {I = HasTestSets} (f s.world).0 (λ e. e)).kept
            (record s { world = (f s.world).1 }) p;
    }

    test_create_tables-Stays : (db : G.Db) → S (test_create_tables G D db)
    unfolding test_create_tables
    test_create_tables-Stays db = >>=-Stays (lift-Stays _) λ query. exec-Stays _ _ _ _ _

    module _ (N : Randoms G.World) (H : Harness G D) where
      register-Stays : (c : Cleanup G) → S (register G D N H c)
      unfolding register
      register-Stays c = on_world-Stays _

      create_test_db-Stays : (url : String) → S (create_test_db G D N H url)
      unfolding create_test_db
      create_test_db-Stays url = >>=-Stays (lift-Stays _) λ u. >>=-Stays (on_world-Stays _) λ db.
          >>=-Stays (on_world-Stays _) λ id.
            >>-Stays (exec-Stays _ _ _ _ _)
              (>>-Stays (register-Stays _) (>>-Stays (exec-Stays _ _ _ _ _) (lift-Stays _)))

      prepare_url-Stays : (dialect url : String) → S (prepare_url G D N H dialect url)
      unfolding prepare_url
      prepare_url-Stays dialect url = >>=-Stays (lift-Stays _) λ chosen.
          elim (Bool-cases (dialect == "postgres")) [
            | inl server ↦ rw server (create_test_db-Stays url)
            | inr file ↦ rw file (pure-Stays chosen)
          ]

      migrate-Stays :
          (opts : TestOptions G D) (dialect url : String) (db : G.Db)
          → S (migrate G D N H opts dialect url db)
      unfolding migrate
      migrate-Stays opts dialect url db = elim (Option-cases opts.with_test_migration) [
        | inr (fn, eq) ↦ rw (migrate, eq) (run_migration-Stays (fn dialect url))
        | inl eq ↦ elim (Option-cases opts.with_test_migration_using_db) [
          | inr (fn, eq') ↦
              rw (migrate, eq, eq') (>>=-Stays (lift-Stays _) λ pool. run_migration-Stays (fn pool))
          | inl eq' ↦ rw (migrate, eq, eq') (test_create_tables-Stays db)
        ]
      ]

      open_test_db-Stays :
          (opts : TestOptions G D) (dialect url : String)
          → S (open_test_db G D N H opts dialect url)
      unfolding open_test_db
      open_test_db-Stays opts dialect url = >>=-Stays (lift-Stays _) λ t.
          >>=-Stays (on_world-Stays _) λ db.
            >>-Stays (register-Stays _) (>>-Stays (migrate-Stays opts dialect url _) (pure-Stays _))

      -- However `TestSetup` ends, the sets are those that it stores.
      pub test_setup-HasTestSets :
          (opt : List (TestOption G D)) (s : State G.World)
          → HasTestSets (test_setup G D N H opt s).1
      unfolding test_setup ◌>>=◌ ◌>>◌ init_non_updatable_fields init_non_creatable_fields insert
          keys
      test_setup-HasTestSets opt s =
          let opts : TestOptions G D = get_test_opts G D opt in
          let dialect : String = choose_dialect (H.getenv "DB_DIALECT") opts.with_dialect in
          let wanted : String = or_env G D N H (H.getenv "DB_DSN") opts.with_test_database_url in
          (>>=-Stays (prepare_url-Stays dialect wanted)
              λ url. open_test_db-Stays opts dialect url).kept
            (store_sets G D N H s).1 (refl, refl)

      same_sets :
          (s s' : State G.World)
          → HasTestSets s'
          → (non_creatable_fields s' ≡ non_creatable_fields (with_test_sets s))
            × (non_updatable_fields s' ≡ non_updatable_fields (with_test_sets s))
      unfolding non_creatable_fields non_updatable_fields init_non_updatable_fields
          init_non_creatable_fields insert keys
      same_sets s s' (c, u) = (ap elements c, ap elements u)

      -- After `TestSetup`, whether it fails or not, vetting asks of a test user only for a public id and a name
      -- that is not "fail-VetForWrite": of a resource that `Create` has cleared, whatever times it had, and
      -- of an update by the paths that `Update` leaves of any mask.
      pub test_setup-vetted :
          (opt : List (TestOption G D)) (s : State G.World) (u : StoreTestUser) (table : String)
          (masks : List String) (paths : Slice)
          → ((vet_store create_op masks (
                  store_of (
                    set_fields_to_nil
                      (to_value (a_test_user u table))
                      (non_creatable_fields (test_setup G D N H opt s).1)))
                ≡ ok tt)
              ↔ IsNamed u)
            × ((vet_store update_op
                    (elements
                      (filter_paths (non_updatable_fields (test_setup G D N H opt s).1) paths))
                    (store_of (to_value (a_test_user u table)))
                  ≡ ok tt)
                ↔ IsNamed u)
      test_setup-vetted opt s u table masks paths =
          let (c, n) = same_sets s (test_setup G D N H opt s).1 (test_setup-HasTestSets opt s) in
          rw (c, n) (test_sets_vetted s u table masks paths)

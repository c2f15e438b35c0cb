-- ===== src/Once/Writes.antt =====
-- The operations that write: create.go, update.go and delete.go.
use go_dbw.Prelude.{◌≢◌, ◌⊎◌, ◌≡◌, ℕ, ◌+◌, ◌≤◌, Option, List}
use go_dbw.Errors.{fails_or, ok}
use go_dbw.Common.Intersection.{Slice}
use go_dbw.Options.{Options, Setter, get_opts}
use go_dbw.Gorm.{Gorm, Resources}
use go_dbw.Action.{State}
use go_dbw.Create.{prepare_create, finish_create, create}
use go_dbw.Update.{prepare_update, finish_update, update}
use go_dbw.Update.Checks.{Columns}
use go_dbw.Delete.{prepare_delete, delete}
use go_dbw.Delete.Items.{delete_items}
use go_dbw.Once.{
  Counting, Quiet, Costs, Free, >>=-Free, >>=-Costs, >>=-Costs_first, >>-Free, >>-Costs, pure-Free,
  lift-Free, underlying-Free, within-Free, get-Free, set_resource-Free, return_rows-Free,
  store_rows-Free, fail_when-Free, fail_on-Free, when-Free, finish-Costs, before_write-Free,
  after_write-Free, vet_for_write-Free,
}
use go_dbw.Once.Reads.{lookup_after_write-Free}

module _ (G : Gorm) (R : Resources G.World) (writes : G.World → ℕ) (counting : Counting G R writes)
    (ctx : G.Context) (conn : Option G.Db) where
  prepare_create-Free :
      (db : G.Db) (opts : Options G.World)
      → Quiet writes opts
      → Free writes (prepare_create G R ctx db opts)
  unfolding prepare_create
  prepare_create-Free db opts quiet = >>=-Free get-Free λ s. >>-Free (set_resource-Free _) (
      >>-Free (when-Free _ (vet_for_write-Free R counting.of_vet _ _ _ _)) (
        >>=-Free get-Free λ s.
          >>=-Free (lift-Free _) λ statement. >>-Free (before_write-Free quiet _) (pure-Free _)))

  finish_create-Costs :
      (statement : G.Db) (opt : List (Option (Setter G.World)))
      → Quiet writes (get_opts opt)
      → Costs writes 1 (finish_create G R ctx conn statement opt)
  unfolding finish_create
  finish_create-Costs statement opt quiet =
      >>=-Costs_first (finish-Costs _ (counting.of_create _)) λ t. >>-Free (fail_on-Free _ _) (
        >>-Free (when-Free _ (store_rows-Free _)) (
          >>-Free (after_write-Free quiet _ _)
            (within-Free _ (lookup_after_write-Free G R writes counting ctx conn opt))))

  create-Costs :
      (opt : List (Option (Setter G.World)))
      → Quiet writes (get_opts opt)
      → Costs writes 1 (create G R ctx conn opt)
  unfolding create
  create-Costs opt quiet = >>=-Costs (underlying-Free _ conn) λ db. >>=-Costs get-Free λ s.
      >>-Costs (fail_when-Free _ _) (
        >>-Costs (lift-Free _) (
          >>=-Costs (prepare_create-Free db _ quiet)
            λ statement. finish_create-Costs statement opt quiet))

  -- If `Counting` holds and the callbacks are `Quiet`, `Create` writes at most once, and once if it returns no error.
  pub create_writes_once :
      (opt : List (Option (Setter G.World))) (s : State G.World)
      → Quiet writes (get_opts opt)
      → (writes (create G R ctx conn opt s).1.world ≤ writes s.world + 1)
        × (((create G R ctx conn opt s).0 ≢ ok tt)
            ⊎ (writes (create G R ctx conn opt s).1.world ≡ writes s.world + 1))
  create_writes_once opt s quiet =
      ((create-Costs opt quiet).at_most s, fails_or _ ((create-Costs opt quiet).exactly s tt))

  prepare_update-Free :
      (db : G.Db) (opts : Options G.World) (c : Columns)
      → Quiet writes opts
      → Free writes (prepare_update G R db opts c)
  unfolding prepare_update
  prepare_update-Free db opts c quiet =
      >>-Free (when-Free _ (vet_for_write-Free R counting.of_vet _ _ _ _))
        (>>-Free (before_write-Free quiet _) (>>=-Free get-Free λ s. lift-Free _))

  finish_update-Costs :
      (statement : G.Db) (c : Columns) (opt : List (Option (Setter G.World)))
      → Quiet writes (get_opts opt)
      → Costs writes 1 (finish_update G R ctx conn statement c.updates opt)
  unfolding finish_update
  finish_update-Costs statement c opt quiet =
      >>=-Costs_first (finish-Costs _ (counting.of_updates _ _)) λ t. >>-Free (fail_on-Free _ _) (
        >>-Free (return_rows-Free _) (
          >>-Free (after_write-Free quiet _ _) (
            >>-Free (return_rows-Free _) (
              >>-Free (within-Free _ (lookup_after_write-Free G R writes counting ctx conn _))
                (return_rows-Free _)))))

  update-Costs :
      (masks nulls : Slice) (opt : List (Option (Setter G.World)))
      → Quiet writes (get_opts opt)
      → Costs writes 1 (update G R ctx conn masks nulls opt)
  unfolding update
  update-Costs masks nulls opt quiet = >>-Costs (return_rows-Free _) (
      >>=-Costs (underlying-Free _ conn) λ db. >>=-Costs get-Free λ s.
        >>-Costs (fail_when-Free _ _) (
          >>-Costs (lift-Free _) (
            >>-Costs (fail_when-Free _ _) (
              >>=-Costs (lift-Free _) λ c. >>-Costs (lift-Free _) (
                >>=-Costs (prepare_update-Free db _ c quiet)
                  λ statement. finish_update-Costs statement c opt quiet)))))

  -- If `Counting` holds and the callbacks are `Quiet`, `Update` writes at most once, and once if it returns no error.
  pub update_writes_once :
      (masks nulls : Slice) (opt : List (Option (Setter G.World))) (s : State G.World)
      → Quiet writes (get_opts opt)
      → (writes (update G R ctx conn masks nulls opt s).1.world ≤ writes s.world + 1)
        × (((update G R ctx conn masks nulls opt s).0 ≢ ok tt)
            ⊎ (writes (update G R ctx conn masks nulls opt s).1.world ≡ writes s.world + 1))
  update_writes_once masks nulls opt s quiet = (
    (update-Costs masks nulls opt quiet).at_most s,
    fails_or _ ((update-Costs masks nulls opt quiet).exactly s tt),
  )

  prepare_delete-Free :
      (db : G.Db) (opts : Options G.World)
      → Quiet writes opts
      → Free writes (prepare_delete G R ctx db opts)
  unfolding prepare_delete
  prepare_delete-Free db opts quiet = >>=-Free get-Free λ s. >>=-Free (lift-Free _) λ schema.
      >>-Free (lift-Free _) (
        >>-Free (before_write-Free quiet _)
          (>>=-Free get-Free λ s. >>=-Free (lift-Free _) λ statement. pure-Free _))

  delete-Costs :
      (opt : List (Option (Setter G.World)))
      → Quiet writes (get_opts opt)
      → Costs writes 1 (delete G R ctx conn opt)
  unfolding delete
  delete-Costs opt quiet = >>-Costs (return_rows-Free _) (
      >>=-Costs (underlying-Free _ conn) λ db. >>=-Costs get-Free λ s.
        >>-Costs (fail_when-Free _ _) (
          >>-Costs (lift-Free _) (
            >>=-Costs (prepare_delete-Free db _ quiet) λ statement.
              >>=-Costs_first (finish-Costs _ (counting.of_delete _)) λ t.
                >>-Free (fail_on-Free _ _)
                  (>>-Free (return_rows-Free _) (after_write-Free quiet _ _)))))

  delete_items-Costs :
      (opt : List (Option (Setter G.World)))
      → Quiet writes (get_opts opt)
      → Costs writes 1 (delete_items G R ctx conn opt)
  unfolding delete_items
  delete_items-Costs opt quiet = >>-Costs (return_rows-Free _) (
      >>=-Costs (underlying-Free _ conn) λ db. >>=-Costs get-Free λ s.
        >>-Costs (fail_when-Free _ _) (
          >>-Costs (fail_when-Free _ _) (
            >>-Costs (fail_when-Free _ _) (
              >>-Costs (lift-Free _) (
                >>-Costs (fail_when-Free _ _) (
                  >>-Costs (fail_when-Free _ _) (
                    >>=-Costs (lift-Free _) λ schema. >>-Costs (lift-Free _) (
                      >>-Costs (before_write-Free quiet _) (
                        >>=-Costs get-Free λ s. >>=-Costs (lift-Free _) λ statement.
                          >>=-Costs_first (finish-Costs _ (counting.of_delete _)) λ t.
                            >>-Free (fail_on-Free _ _)
                              (>>-Free (return_rows-Free _) (after_write-Free quiet _ _)))))))))))

  -- If `Counting` holds and the callbacks are `Quiet`, `Delete` and `DeleteItems` write at most once, and once if they return no error.
  pub deletes_write_once :
      (opt : List (Option (Setter G.World))) (s : State G.World)
      → Quiet writes (get_opts opt)
      → (writes (delete G R ctx conn opt s).1.world ≤ writes s.world + 1)
        × (((delete G R ctx conn opt s).0 ≢ ok tt)
            ⊎ (writes (delete G R ctx conn opt s).1.world ≡ writes s.world + 1))
        × (writes (delete_items G R ctx conn opt s).1.world ≤ writes s.world + 1)
        × (((delete_items G R ctx conn opt s).0 ≢ ok tt)
            ⊎ (writes (delete_items G R ctx conn opt s).1.world ≡ writes s.world + 1))
  deletes_write_once opt s quiet = (
    (delete-Costs opt quiet).at_most s,
    fails_or _ ((delete-Costs opt quiet).exactly s tt),
    (delete_items-Costs opt quiet).at_most s,
    fails_or _ ((delete_items-Costs opt quiet).exactly s tt),
  )

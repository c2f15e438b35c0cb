-- ===== src/Sessions/Kept.antt =====
-- Invariants of sessions.
use go_dbw.Prelude.{◌≡◌, ℕ, ℤ, String, Option, none, some, List}
use go_dbw.Prelude.Dict.{Dict}
use go_dbw.Reflect.{Value}
use go_dbw.Common.{Update}
use go_dbw.Options.{Options}
use go_dbw.Gorm.{Gorm, Resources, Vetter, OpType}
use go_dbw.Transactions.{begin, commit, rollback}
use go_dbw.DoTx.Kept.{TxKeeps, do_tx-kept}
use go_dbw.Keeping.{CallbacksKeep}
use go_dbw.Keeping.Updates.{Avoids, Permits, update-keeps}
use go_dbw.Keeping.Lookups.{lookup_by-Keeps, lookup_where-Keeps, search_where-Keeps}
use go_dbw.Keeping.Writers.{delete-Keeps, delete_items-Keeps, create-Keeps, create_items-Keeps}
use go_dbw.Sessions.{
  Step, Reach, created, created_items, updated, deleted, deleted_items, looked_up, looked_up_where,
  searched, began, committed, rolled_back, transacted, here, next,
}

-- The database keeps `P`: under updates that avoid the names, and under all else that the package asks of it.
pub record Serves (G : Gorm) (R : Resources G.World) (names : List String) (P : G.World → Type 0)
    : Type 0 where
  pub of_updates :
      (db : G.Db) (us : Dict Update) (v : Value) (w : G.World)
      → Avoids names us
      → P w
      → P (G.updates db us v w).world
  pub of_create : (db : G.Db) (v : Value) (w : G.World) → P w → P (G.create db v w).world
  pub of_batches :
      (db : G.Db) (v : Value) (n : ℤ) (w : G.World) → P w → P (G.create_in_batches db v n w).world
  pub of_delete : (db : G.Db) (v : Value) (w : G.World) → P w → P (G.delete db v w).world
  pub of_first : (db : G.Db) (v : Value) (w : G.World) → P w → P (G.first db v w).world
  pub of_find : (db : G.Db) (v : Value) (w : G.World) → P w → P (G.find db v w).world
  pub of_vet :
      (u : Value) (vet : Vetter G.World)
      → R.vet_for_write u ≡ some vet
      → (op : OpType) (masks nulls : List String) (v : Value) (w : G.World) → P w
      → P (vet op masks nulls v w).2
  pub of_begin : (db : G.Db) (w : G.World) → P w → P (G.begin db w).1
  pub of_commit : (db : G.Db) (w : G.World) → P w → P (G.commit db w).1
  pub of_rollback : (db : G.Db) (w : G.World) → P w → P (G.rollback db w).1
  pub of_is_done : (ctx : G.Context) (d : ℕ) (w : G.World) → P w → P (G.is_done ctx d w).1

module _ (G : Gorm) (R : Resources G.World) (names : List String) (P : G.World → Type 0)
    (serves : Serves G R names P) where
  permits : Permits G R names P
  permits = record {
    of_updates = serves.of_updates;
    of_first = serves.of_first;
    of_vet = serves.of_vet;
  }

  tx_keeps : TxKeeps G P
  tx_keeps = record {
    of_begin = serves.of_begin;
    of_commit = serves.of_commit;
    of_rollback = serves.of_rollback;
    of_is_done = serves.of_is_done;
  }

  begin_kept : (ctx : G.Context) (conn : Option G.Db) (w : G.World) → P w → P (begin G ctx conn w).1
  unfolding begin
  begin_kept ctx none w p = p
  begin_kept ctx (some db) w p = serves.of_begin _ w p

  commit_kept :
      (ctx : G.Context) (conn : Option G.Db) (w : G.World) → P w → P (commit G ctx conn w).1
  unfolding commit
  commit_kept ctx none w p = p
  commit_kept ctx (some db) w p = serves.of_commit _ w p

  rollback_kept :
      (ctx : G.Context) (conn : Option G.Db) (w : G.World) → P w → P (rollback G ctx conn w).1
  unfolding rollback
  rollback_kept ctx none w p = p
  rollback_kept ctx (some db) w p = serves.of_rollback _ w p

  module _ (Allowed : Options G.World → Type 0)
      (calls : (opts : Options G.World) → Allowed opts → CallbacksKeep P opts) where
    mutual
      Step-kept : {w w' : G.World} → Step G R names Allowed w w' → P w → P w'
      Step-kept (created ctx conn opt s allowed) p =
          (create-Keeps G R ctx conn P serves.of_vet serves.of_create serves.of_first opt
              (calls _ allowed)).kept
            s p
      Step-kept (created_items ctx conn opt s allowed) p =
          (create_items-Keeps G R ctx conn P serves.of_vet serves.of_batches opt
              (calls _ allowed)).kept
            s p
      Step-kept (updated ctx conn masks nulls opt s same allowed) p =
          update-keeps G R ctx conn names P permits masks nulls opt s same (calls _ allowed) p
      Step-kept (deleted ctx conn opt s allowed) p =
          (delete-Keeps G R ctx conn P serves.of_delete opt (calls _ allowed)).kept s p
      Step-kept (deleted_items ctx conn opt s allowed) p =
          (delete_items-Keeps G R ctx conn P serves.of_delete opt (calls _ allowed)).kept s p
      Step-kept (looked_up ctx conn opt s) p =
          (lookup_by-Keeps G R ctx conn P serves.of_first opt).kept s p
      Step-kept (looked_up_where ctx conn condition args opt s) p =
          (lookup_where-Keeps G R ctx conn P serves.of_first condition args opt).kept s p
      Step-kept (searched ctx conn condition args opt s) p =
          (search_where-Keeps G R ctx conn P serves.of_first serves.of_find condition args opt).kept
            s p
      Step-kept (began ctx conn w) p = begin_kept ctx conn w p
      Step-kept (committed ctx conn w) p = commit_kept ctx conn w p
      Step-kept (rolled_back ctx conn w) p = rollback_kept ctx conn w p
      Step-kept (transacted fuel ctx c w r handles waits h) p =
          do_tx-kept G P tx_keeps fuel ctx c w r
            (λ handler tx v eq q. Reach-kept (handles handler tx v eq) q) waits p h

      Reach-kept : {w w' : G.World} → Reach G R names Allowed w w' → P w → P w'
      Reach-kept (here w) p = p
      Reach-kept (next r s) p = Step-kept s (Reach-kept r p)

    -- A session keeps every invariant that the database `Serves`, if the callbacks of the allowed options keep
    -- it: whatever operations the program makes, in whatever order and with whatever outcomes, and
    -- whatever transactions its handlers are tried in.
    pub Reach-keeps : {w w' : G.World} → Reach G R names Allowed w w' → P w → P w'
    Reach-keeps r p = Reach-kept r p

-- ===== src/Sessions.antt =====
-- What a program does with an `RW`: a sequence of its operations, in transactions of its own or of `DoTx`.
-- Raw SQL, by `Exec` and `Query`, is no step.
pub mod Kept
use go_dbw.Prelude.{◌≡◌, ℕ, String, Option, some, List}
use go_dbw.Reflect.{Value}
use go_dbw.Common.Intersection.{Slice}
use go_dbw.Options.{Options, Setter, get_opts}
use go_dbw.Gorm.{Gorm, Resources}
use go_dbw.Action.{State}
use go_dbw.Registry.{non_updatable_fields}
use go_dbw.Create.{create}
use go_dbw.Create.Items.{create_items}
use go_dbw.Update.{update}
use go_dbw.Delete.{delete}
use go_dbw.Delete.Items.{delete_items}
use go_dbw.Lookup.{lookup_by}
use go_dbw.Search.{lookup_where, search_where}
use go_dbw.Transactions.{begin, commit, rollback}
use go_dbw.DoTx.{TxHandler, Backoff, TxResult, Call, do_tx}

module _ (G : Gorm) (R : Resources G.World) (names : List String)
    (Allowed : Options G.World → Type 0) where
  mutual
    -- One operation, on any connection and resource and with allowed options. The names are those of the
    -- set of non-updatable fields. The handler of a transaction is a session itself.
    pub data Step : G.World → G.World → Type 0 where
      created :
          (ctx : G.Context) (conn : Option G.Db) (opt : List (Option (Setter G.World)))
          (s : State G.World)
          → Allowed (get_opts opt)
          → Step s.world (create G R ctx conn opt s).1.world
      created_items :
          (ctx : G.Context) (conn : Option G.Db) (opt : List (Option (Setter G.World)))
          (s : State G.World)
          → Allowed (get_opts opt)
          → Step s.world (create_items G R ctx conn opt s).1.world
      updated :
          (ctx : G.Context) (conn : Option G.Db) (masks nulls : Slice)
          (opt : List (Option (Setter G.World))) (s : State G.World)
          → names ≡ non_updatable_fields s
          → Allowed (get_opts opt)
          → Step s.world (update G R ctx conn masks nulls opt s).1.world
      deleted :
          (ctx : G.Context) (conn : Option G.Db) (opt : List (Option (Setter G.World)))
          (s : State G.World)
          → Allowed (get_opts opt)
          → Step s.world (delete G R ctx conn opt s).1.world
      deleted_items :
          (ctx : G.Context) (conn : Option G.Db) (opt : List (Option (Setter G.World)))
          (s : State G.World)
          → Allowed (get_opts opt)
          → Step s.world (delete_items G R ctx conn opt s).1.world
      looked_up :
          (ctx : G.Context) (conn : Option G.Db) (opt : List (Option (Setter G.World)))
          (s : State G.World)
          → Step s.world (lookup_by G R ctx conn opt s).1.world
      looked_up_where :
          (ctx : G.Context) (conn : Option G.Db) (condition : String) (args : List Value)
          (opt : List (Option (Setter G.World))) (s : State G.World)
          → Step s.world (lookup_where G R ctx conn condition args opt s).1.world
      searched :
          (ctx : G.Context) (conn : Option G.Db) (condition : String) (args : List Value)
          (opt : List (Option (Setter G.World))) (s : State G.World)
          → Step s.world (search_where G R ctx conn condition args opt s).1.world
      began : (ctx : G.Context) (conn : Option G.Db) (w : G.World) → Step w (begin G ctx conn w).1
      committed :
          (ctx : G.Context) (conn : Option G.Db) (w : G.World) → Step w (commit G ctx conn w).1
      rolled_back :
          (ctx : G.Context) (conn : Option G.Db) (w : G.World) → Step w (rollback G ctx conn w).1
      transacted :
          (fuel : ℕ) (ctx : G.Context) (c : Call G) (w : G.World) (r : TxResult G.World)
          → ((handler : TxHandler G) (tx : G.Db) (v : G.World)
              → c.handler ≡ some handler
              → Reach v (handler tx v).1)
          → ((back_off : Backoff G.World) (n : ℕ) (v : G.World)
              → c.back_off ≡ some back_off
              → (back_off n v).1 ≡ v)
          → do_tx G fuel ctx c w ≡ some r
          → Step w r.world

    -- Any number of them.
    pub data Reach : G.World → G.World → Type 0 where
      here : (w : G.World) → Reach w w
      next : {u v w : G.World} → Reach u v → Step v w → Reach u w

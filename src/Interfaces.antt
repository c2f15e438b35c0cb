-- ===== src/Interfaces.antt =====
-- The interfaces of reader.go and writer.go, and `RW`, which implements both. The resource of an operation is
-- that of the state.
pub mod Reading
pub mod Transacted
use go_dbw.Prelude.{ℕ, String, Bool, Option, none, some, List}
use go_dbw.Errors.{Outcome, Error}
use go_dbw.Reflect.{Value}
use go_dbw.Common.Intersection.{Slice}
use go_dbw.Options.{Setter}
use go_dbw.Gorm.{Gorm, Resources}
use go_dbw.Action.{Action}
use go_dbw.Lookup.{lookup_by, lookup_by_public_id}
use go_dbw.Search.{lookup_where, search_where}
use go_dbw.Query.{query, scan_rows, exec}
use go_dbw.Create.{create}
use go_dbw.Create.Items.{create_items}
use go_dbw.Update.{update}
use go_dbw.Delete.{delete}
use go_dbw.Delete.Items.{delete_items}
use go_dbw.Transactions.{begin, commit, rollback}
use go_dbw.DoTx.{TxHandler, TxResult, Backoff, Call, do_tx}
use go_dbw.Db.{DbType, Drivers, dialect}

-- `...Option`
abbrev pub OptionList : Gorm → Type 0
OptionList G = List (Option (Setter G.World))

pub record Reader (G : Gorm) : Type 0 where
  pub lookup_by : G.Context → OptionList G → Action G.World (Unit {0})
  pub lookup_by_public_id : G.Context → OptionList G → Action G.World (Unit {0})
  pub lookup_where : G.Context → String → List Value → OptionList G → Action G.World (Unit {0})
  pub search_where : G.Context → String → List Value → OptionList G → Action G.World (Unit {0})
  pub query : G.Context → String → List Value → OptionList G → Action G.World G.Rows
  pub scan_rows : Option G.Rows → Action G.World (Unit {0})
  pub dialect : Outcome (DbType × String)

-- The first argument of `do_tx` is the fuel of its loop.
pub record Writer (G : Gorm) : Type 0 where
  pub do_tx :
      ℕ
      → G.Context
      → Option (Error → Bool)
      → ℕ
      → Option (Backoff G.World)
      → Option (TxHandler G)
      → G.World
      → Option (TxResult G.World)
  pub update : G.Context → Slice → Slice → OptionList G → Action G.World (Unit {0})
  pub create : G.Context → OptionList G → Action G.World (Unit {0})
  pub create_items : G.Context → OptionList G → Action G.World (Unit {0})
  pub delete : G.Context → OptionList G → Action G.World (Unit {0})
  pub delete_items : G.Context → OptionList G → Action G.World (Unit {0})
  pub exec : G.Context → String → List Value → OptionList G → Action G.World (Unit {0})
  pub query : G.Context → String → List Value → OptionList G → Action G.World G.Rows
  pub scan_rows : Option G.Rows → Action G.World (Unit {0})
  pub begin : G.Context → G.World → Outcome (Option G.Db) × G.World
  pub rollback : G.Context → G.World → Outcome (Unit {0}) × G.World
  pub commit : G.Context → G.World → Outcome (Unit {0}) × G.World
  pub dialect : Outcome (DbType × String)

-- `TxHandler`: it is given the same `RW` twice, as the one interface and as the other.
abbrev pub Handler : Gorm → Type 0
Handler G = Reader G → Writer G → G.World → Outcome (Unit {0}) × G.World

module _ (G : Gorm) (R : Resources G.World) (D : Drivers G) where
  -- An `RW` with this connection, as a `Reader`
  abbrev pub reader_of : Option G.Db → Reader G
  reader_of rw = record {
    lookup_by = λ ctx opt. go_dbw.Lookup.lookup_by G R ctx rw opt;
    lookup_by_public_id = λ ctx opt. go_dbw.Lookup.lookup_by_public_id G R ctx rw opt;
    lookup_where =
        λ ctx condition args opt. go_dbw.Search.lookup_where G R ctx rw condition args opt;
    search_where =
        λ ctx condition args opt. go_dbw.Search.search_where G R ctx rw condition args opt;
    query = λ ctx sql values opt. go_dbw.Query.query G ctx rw sql values opt;
    scan_rows = λ rows. go_dbw.Query.scan_rows G rw rows;
    dialect = go_dbw.Db.dialect G D rw;
  }

  -- The same as a `Writer`
  abbrev pub writer_of : Option G.Db → Writer G
  writer_of rw = record {
    do_tx = λ fuel ctx retry_on retries back_off handler w.
        go_dbw.DoTx.do_tx G fuel ctx
          (record {
            rw = rw;
            retry_errors_matching_fn = retry_on;
            retries = retries;
            back_off = back_off;
            handler = handler;
          })
          w;
    update = λ ctx masks nulls opt. go_dbw.Update.update G R ctx rw masks nulls opt;
    create = λ ctx opt. go_dbw.Create.create G R ctx rw opt;
    create_items = λ ctx opt. go_dbw.Create.Items.create_items G R ctx rw opt;
    delete = λ ctx opt. go_dbw.Delete.delete G R ctx rw opt;
    delete_items = λ ctx opt. go_dbw.Delete.Items.delete_items G R ctx rw opt;
    exec = λ ctx sql values opt. go_dbw.Query.exec G ctx rw sql values opt;
    query = λ ctx sql values opt. go_dbw.Query.query G ctx rw sql values opt;
    scan_rows = λ rows. go_dbw.Query.scan_rows G rw rows;
    begin = λ ctx w. go_dbw.Transactions.begin G ctx rw w;
    rollback = λ ctx w. go_dbw.Transactions.rollback G ctx rw w;
    commit = λ ctx w. go_dbw.Transactions.commit G ctx rw w;
    dialect = go_dbw.Db.dialect G D rw;
  }

  -- What `DoTx` does with a handler: it calls it with a new `RW` for the transaction.
  abbrev pub on_new_rw : Handler G → TxHandler G
  on_new_rw handler tx w = handler (reader_of (some tx)) (writer_of (some tx)) w

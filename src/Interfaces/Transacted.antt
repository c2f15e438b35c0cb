-- ===== src/Interfaces/Transacted.antt =====
-- A transaction whose handler only reads.
use go_dbw.Prelude.{◌≡◌, refl, sym, ap, ◌∙◌, ℕ, ◌+◌, ◌<◌, Option, some, Bool}
use go_dbw.Errors.{Error}
use go_dbw.Gorm.{Gorm, Resources}
use go_dbw.Action.{State}
use go_dbw.Once.{Counting}
use go_dbw.Db.{Drivers}
use go_dbw.DoTx.{Backoff, TxResult, Call, word, do_tx}
use go_dbw.DoTx.Returns.{do_tx-returns}
use go_dbw.DoTx.Kept.{TxKeeps, do_tx-kept}
use go_dbw.Interfaces.{Handler, reader_of, writer_of, on_new_rw}
use go_dbw.Interfaces.Reading.{Reads, reader_of_never_writes}

-- The start and the end of a transaction, and a wait, make no write.
pub record TxSpares (G : Gorm) (writes : G.World → ℕ) : Type 0 where
  pub of_begin : (db : G.Db) (w : G.World) → writes (G.begin db w).1 ≡ writes w
  pub of_commit : (db : G.Db) (w : G.World) → writes (G.commit db w).1 ≡ writes w
  pub of_rollback : (db : G.Db) (w : G.World) → writes (G.rollback db w).1 ≡ writes w
  pub of_is_done : (ctx : G.Context) (d : ℕ) (w : G.World) → writes (G.is_done ctx d w).1 ≡ writes w

module _ (G : Gorm) (R : Resources G.World) (D : Drivers G) (writes : G.World → ℕ) where
  -- Each run of the handler is one of code that reads with its `Reader`.
  pub record OnlyReads (handler : Handler G) : Type 0 where
    pub from : G.Db → G.World → State G.World
    pub to : G.Db → G.World → State G.World
    pub at_start : (tx : G.Db) (w : G.World) → (from tx w).world ≡ w
    pub reads :
        (tx : G.Db) (w : G.World) → Reads G (reader_of G R D (some tx)) (from tx w) (to tx w)
    pub at_end :
        (tx : G.Db) (w : G.World)
        → (handler (reader_of G R D (some tx)) (writer_of G R D (some tx)) w).1 ≡ (to tx w).world

  module _ (counting : Counting G R writes) (spares : TxSpares G writes) where
    tx_keeps : (n : ℕ) → TxKeeps G (λ w. writes w ≡ n)
    tx_keeps n = record {
      of_begin = λ db w p. spares.of_begin db w ∙ p;
      of_commit = λ db w p. spares.of_commit db w ∙ p;
      of_rollback = λ db w p. spares.of_rollback db w ∙ p;
      of_is_done = λ ctx d w p. spares.of_is_done ctx d w ∙ p;
    }

    -- What a call that returns has left
    returned-kept :
        (fuel : ℕ) (ctx : G.Context) (c : Call G) (back_off : Backoff G.World) (handler : Handler G)
        (w : G.World) (r : TxResult G.World)
        → c.back_off ≡ some back_off
        → c.handler ≡ some (on_new_rw G R D handler)
        → OnlyReads handler
        → ((n : ℕ) (v : G.World) → (back_off n v).1 ≡ v)
        → do_tx G fuel ctx c w ≡ some r
        → writes r.world ≡ writes w
    returned-kept fuel ctx c back_off handler w r waiting handling only waits h =
        do_tx-kept G (λ v. writes v ≡ writes w) (tx_keeps (writes w)) fuel ctx c w r
          (λ run tx v eq p.
            let same : on_new_rw G R D handler ≡ run = cc in
            ap (λ f. writes (f tx v).1) (sym same)
            ∙ ap writes (only.at_end tx v)
            ∙ reader_of_never_writes G R D writes counting (some tx) (only.reads tx v)
            ∙ ap writes (only.at_start tx v)
            ∙ p)
          (λ wait n v eq.
            let same : back_off ≡ wait = cc in ap (λ f. (f n v).1) (sym same) ∙ waits n v)
          refl h

    -- If `Counting` and `TxSpares` hold and the backoff leaves the world, a `DoTx` of an `RW` whose handler `OnlyReads`
    -- returns, and the number of writes is as it was, however often it tries and whatever it returns. The fuel is
    -- above `retries + 1`, and `retries + 2` does not overflow.
    pub do_tx-reads :
        (rw : Option G.Db) (fuel : ℕ) (ctx : G.Context) (retry_on : Option (Error → Bool))
        (retries : ℕ) (back_off : Backoff G.World) (handler : Handler G) (w : G.World)
        → retries + 2 < word
        → retries + 1 < fuel
        → OnlyReads handler
        → ((n : ℕ) (v : G.World) → (back_off n v).1 ≡ v)
        → (r : TxResult G.World) × ((writer_of G R D rw).do_tx fuel ctx retry_on retries
              (some back_off)
              (some (on_new_rw G R D handler))
              w
            ≡ some r)
          × (writes r.world ≡ writes w)
    do_tx-reads rw fuel ctx retry_on retries back_off handler w fits enough only waits =
        let c : Call G = record {
          rw = rw;
          retry_errors_matching_fn = retry_on;
          retries = retries;
          back_off = some back_off;
          handler = some (on_new_rw G R D handler);
        } in
        let (r, returns) = do_tx-returns G ctx fuel c w fits enough in
        (r, returns, returned-kept fuel ctx c back_off handler w r refl refl only waits returns)

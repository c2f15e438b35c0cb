-- ===== src/Transactions.antt =====
-- transactions.go, and `IsTx` of rw.go. A world is passed on; there is no resource.
use go_dbw.Prelude.{Bool, false, not, Option, none, some, []}
use go_dbw.Errors.{Outcome, ok, err, panic, Error, errorf}
use go_dbw.Gorm.{Gorm}

abbrev under {ℓ} : {A : Type ℓ} → Option Error → A → (Error → A) → A
under none a f = a
under (some e) a f = f e

module _ (G : Gorm) where
  -- A new `RW` on the transaction; following a nil `underlying` panics.
  unfoldable pub begin : G.Context → Option G.Db → G.World → Outcome (Option G.Db) × G.World
  begin ctx none w = (panic, w)
  begin ctx (some db) w =
      let (tx, w) = G.begin (G.with_context ctx db) w in
      (under (G.error_of tx) (ok (some tx)) (λ e. err (errorf "dbw.Begin" [] e)), w)

  unfoldable pub rollback : G.Context → Option G.Db → G.World → Outcome (Unit {0}) × G.World
  rollback ctx none w = (panic, w)
  rollback ctx (some db) w =
      let (e, w) = G.rollback (G.with_context ctx db) w in
      (under e (ok tt) (λ e. err (errorf "dbw.Rollback" [] e)), w)

  unfoldable pub commit : G.Context → Option G.Db → G.World → Outcome (Unit {0}) × G.World
  commit ctx none w = (panic, w)
  commit ctx (some db) w =
      let (e, w) = G.commit (G.with_context ctx db) w in
      (under e (ok tt) (λ e. err (errorf "dbw.Commit" [] e)), w)

  unfoldable pub is_tx : Option G.Db → Bool
  is_tx none = false
  is_tx (some db) = not (G.can_begin db)

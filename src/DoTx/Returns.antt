-- ===== src/DoTx/Returns.antt =====
-- `DoTx` returns.
use go_dbw.Prelude.{◌≡◌, refl, ℕ, ◌+◌, ◌<◌, Bool, some, Option-cases, inl, inr, arith}
use go_dbw.Errors.{Error}
use go_dbw.Gorm.{Gorm}
use go_dbw.DoTx.{
  no_retries, Backoff, TxHandler, TxResult, Call, Attempt, finished, again, word, do_tx,
}
use go_dbw.DoTx.Rule.{Gives, do_tx_loop_rule}

module _ (G : Gorm) (ctx : G.Context) where
  any_round :
      (db : G.Db) (retry_on : Error → Bool) (back_off : Backoff G.World) (handler : TxHandler G)
      (retries a : ℕ) (t : Attempt G.World)
      → Gives G ctx db retry_on back_off handler retries (λ _ _ _. Unit {0}) (λ _. Unit {0}) a t
  any_round db retry_on back_off handler retries a (finished r) = tt
  any_round db retry_on back_off handler retries a (again info w) = tt

  pub do_tx-returns :
      (fuel : ℕ) (c : Call G) (w : G.World)
      → c.retries + 2 < word
      → c.retries + 1 < fuel
      → (r : TxResult G.World) × (do_tx G fuel ctx c w ≡ some r)
  unfolding do_tx
  do_tx-returns fuel c w fits enough = elim (Option-cases c.rw) [
    | inl a ↦ rw (do_tx, a) (_, refl)
    | inr (db, a) ↦ elim (Option-cases c.back_off) [
      | inl b ↦ rw (do_tx, a, b) (_, refl)
      | inr (back_off, b) ↦ elim (Option-cases c.handler) [
        | inl d ↦ rw (do_tx, a, b, d) (_, refl)
        | inr (handler, d) ↦ elim (Option-cases c.retry_errors_matching_fn) [
          | inl e ↦ rw (do_tx, a, b, d, e) (_, refl)
          | inr (retry_on, e) ↦
              let (r, eq, _) =
                do_tx_loop_rule G ctx db retry_on back_off handler c.retries fits
                  (λ _ _ _. Unit {0}) (λ _. Unit {0})
                  (λ a info w _ _. any_round db retry_on back_off handler c.retries a _)
                  (λ _ _ _ _ _. tt) fuel 1 no_retries w (ground arith) (omega arith) tt in
              rw (do_tx, a, b, d, e) (r, eq)
        ]
      ]
    ]
  ]

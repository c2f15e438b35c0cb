-- ===== src/DoTx/Rule.antt =====
-- Induction on the rounds of `DoTx`: an invariant that each round keeps, and what it gives of the
-- result.
use go_dbw.Prelude.{
  ◌≡◌, refl, ℕ, zero, suc, ◌+◌, ◌%◌, ◌≤◌, ◌<◌, Bool, true, false, Option, some, ltb, Bool-cases,
  inl, inr, arith,
}
use go_dbw.Errors.{Error}
use go_dbw.Gorm.{Gorm}
use go_dbw.DoTx.{
  RetryInfo, Backoff, TxHandler, TxResult, Attempt, finished, again, word, attempt, too_many,
  do_tx_loop,
}

module _ (G : Gorm) (ctx : G.Context) (db : G.Db) (retry_on : Error → Bool)
    (back_off : Backoff G.World) (handler : TxHandler G) (retries : ℕ) where
  -- A round gives a result with `Q`, or a state with `I` for the next.
  abbrev pub Gives :
      (ℕ → RetryInfo → G.World → Type 0)
      → (TxResult G.World → Type 0)
      → ℕ
      → Attempt G.World
      → Type 0
  Gives I Q a (finished r) = Q r
  Gives I Q a (again info w) = I (a + 1) info w

  module _ (fits : retries + 2 < word) (I : ℕ → RetryInfo → G.World → Type 0)
      (Q : TxResult G.World → Type 0)
      (round : (a : ℕ) (info : RetryInfo) (w : G.World)
        → a ≤ retries + 1
        → I a info w
        → Gives I Q a (attempt G ctx db retry_on back_off handler a info w))
      (exhausted : (a : ℕ) (info : RetryInfo) (w : G.World)
        → a ≡ retries + 2
        → I a info w
        → Q (too_many G ctx db retry_on back_off handler retries a info w)) where
    next_round :
        (a b : ℕ) (fuel : ℕ) (t : Attempt G.World)
        → ((info : RetryInfo) (w : G.World)
            → I (a + 1) info w
            → (r : TxResult G.World) × (do_tx_loop G ctx db retry_on back_off handler fuel retries b
                  info w
                ≡ some r)
              × Q r)
        → Gives I Q a t
        → (r : TxResult G.World) × (◌≡◌ {A = Option (TxResult G.World)}
            (elim t [
              | finished r ↦ some r
              | again info w ↦ do_tx_loop G ctx db retry_on back_off handler fuel retries b info w
            ])
            (some r))
          × Q r
    next_round a b fuel (finished r) go q = (r, refl, q)
    next_round a b fuel (again info w) go i = go info w i

    next_attempt : (a : ℕ) → a ≤ retries + 1 → (a + 1) % word ≡ a + 1
    next_attempt a le = omega arith

    limit_lem : (retries + 1) % word ≡ retries + 1
    limit_lem = omega arith

    pub do_tx_loop_rule :
        (fuel a : ℕ) (info : RetryInfo) (w : G.World)
        → a ≤ retries + 2
        → retries + 2 < a + fuel
        → I a info w
        → (r : TxResult G.World) × (do_tx_loop G ctx db retry_on back_off handler fuel retries a
              info w
            ≡ some r)
          × Q r
    unfolding do_tx_loop
    do_tx_loop_rule zero a info w le enough h = absurd (omega arith)
    do_tx_loop_rule (suc fuel) a info w le enough h = elim (Bool-cases (ltb (retries + 1) a)) [
      | inl over ↦
          let over' : ltb ((retries + 1) % word) a ≡ true = rw limit_lem over in
          rw over' (
            too_many G ctx db retry_on back_off handler retries a info w,
            refl,
            exhausted a info w (ground arith) h,
          )
      | inr more ↦
          let le' : a ≤ retries + 1 = ground arith in
          let more' : ltb ((retries + 1) % word) a ≡ false = rw limit_lem more in
          rw more' (
            next_round a ((a + 1) % word) fuel (attempt G ctx db retry_on back_off handler a info w)
              (λ info w i.
                rw (next_attempt a le')
                  (do_tx_loop_rule fuel (a + 1) info w (omega arith) (omega arith) i))
              (round a info w le' h))
    ]

-- ===== src/DoTx/Exhausted.antt =====
-- When `DoTx` gives up.
use go_dbw.Prelude.{
  ◌≡◌, refl, ap, ◌∙◌, ℕ, suc, ◌+◌, ◌-◌, ◌%◌, ◌≤◌, ◌<◌, Bool, true, false, none, some, [], ◌∷◌,
  arith,
}
use go_dbw.Errors.{err, Error, errorf, sentinel, max_retries, number_arg}
use go_dbw.Gorm.{Gorm}
use go_dbw.DoTx.{
  RetryInfo, no_retries, Backoff, TxHandler, TxResult, word, attempt, too_many, do_tx_loop,
  after_failure, roll_back, full_call, do_tx,
}
use go_dbw.DoTx.Bounded.{Counts}
use go_dbw.DoTx.Rule.{Gives, do_tx_loop_rule}

-- The error of a call that used up its retries.
abbrev pub given_up : ℕ → Error
given_up retries =
    errorf "dbw.DoTx: too many retries: %d of %d"
      (number_arg (retries + 1) ∷ number_arg (retries + 1) ∷ []) (sentinel max_retries)

-- Every run of the handler fails with an error that is worth another try, the rollback succeeds, and
-- the context is never done before the wait is over.
pub record KeepsFailing (G : Gorm) (retry_on : Error → Bool) (handler : TxHandler G) : Type 0 where
  pub failure : G.Db → G.World → Error
  pub fails : (db : G.Db) (w : G.World) → (handler db w).0 ≡ err (failure db w)
  pub worth : (db : G.Db) (w : G.World) → retry_on (failure db w) ≡ true
  pub rolls_back : (db : G.Db) (w : G.World) → (G.rollback db w).0 ≡ none
  pub waits : (ctx : G.Context) (d : ℕ) (w : G.World) → (G.is_done ctx d w).0 ≡ false

module _ (G : Gorm) (ctx : G.Context) (db : G.Db) (retry_on : Error → Bool)
    (back_off : Backoff G.World) (handler : TxHandler G) (retries : ℕ) where
  module _ (laws : KeepsFailing G retry_on handler) (runs : G.World → ℕ)
      (counts : Counts G back_off handler runs) (n : ℕ) where
    -- Before round `a` the handler has run `a - 1` times.
    abbrev Before : ℕ → RetryInfo → G.World → Type 0
    Before a info w = (info.retries + 1 ≡ a) × (runs w + 1 ≡ n + a)

    abbrev GaveUp : TxResult G.World → Type 0
    GaveUp r =
        (r.outcome ≡ err (given_up retries))
        × (r.info.retries ≡ retries + 1)
        × (runs r.world ≡ n + retries + 1)

    attempt-GaveUp :
        (a : ℕ) (info : RetryInfo) (w : G.World)
        → a ≤ retries + 1
        → Before a info w
        → Gives G ctx db retry_on back_off handler retries Before GaveUp a
            (attempt G ctx db retry_on back_off handler a info w)
    unfolding attempt
    attempt-GaveUp a info w le (h, ran) =
        let tx : G.Db = (G.begin (G.with_context ctx db) w).0 in
        let w1 : G.World = (G.begin (G.with_context ctx db) w).1 in
        let w2 : G.World = (handler tx w1).1 in
        let w3 : G.World = (G.rollback tx w2).1 in
        let d : ℕ = (back_off a w3).0 in
        let w4 : G.World = (back_off a w3).1 in
        let ran' : runs (G.is_done ctx d w4).1 ≡ runs w + 1 =
          counts.of_is_done ctx d w4
          ∙ counts.of_back_off a w3
          ∙ counts.of_rollback tx w2
          ∙ counts.of_handler tx w1
          ∙ ap (λ k. k + 1) (counts.of_begin (G.with_context ctx db) w) in
        rw
          (
            attempt,
            laws.fails tx w1,
            roll_back,
            laws.rolls_back tx w2,
            after_failure,
            laws.worth tx w1,
            laws.waits ctx d w4,
          )
          (ap (λ k. k + 1) h, omega arith)

    too_many-GaveUp :
        (fits : retries + 2 < word) (a : ℕ) (info : RetryInfo) (w : G.World)
        → a ≡ retries + 2
        → Before a info w
        → GaveUp (too_many G ctx db retry_on back_off handler retries a info w)
    too_many-GaveUp fits a info w eq (h, ran) =
        let limit : (retries + 1) % word ≡ retries + 1 = omega arith in
        let tried : a - 1 ≡ retries + 1 = omega arith in
        (rw (limit, tried) refl, omega arith, omega arith)

  -- If `retries + 2` does not overflow, the handler keeps failing, and `Counts` counts its runs, fuel above
  -- `retries + 1` is enough for `DoTx` to return. It gives up with `ErrMaxRetries`: the handler has run
  -- exactly `retries + 1` times, and as many retries are reported.
  pub do_tx-gives_up :
      KeepsFailing G retry_on handler
      → (runs : G.World → ℕ) → Counts G back_off handler runs
      → (fuel : ℕ) (w : G.World) → retries + 2 < word
      → retries + 1 < fuel
      → (r : TxResult G.World) × (do_tx G fuel ctx
            (full_call db retry_on back_off handler retries)
            w
          ≡ some r)
        × (r.outcome ≡ err (given_up retries))
        × (r.info.retries ≡ retries + 1)
        × (runs r.world ≡ runs w + retries + 1)
  unfolding do_tx do_tx_loop
  do_tx-gives_up laws runs counts fuel w fits enough =
      let (r, eq, (outcome, count, ran)) =
        do_tx_loop_rule G ctx db retry_on back_off handler retries fits
          (Before laws runs counts (runs w)) (GaveUp laws runs counts (runs w))
          (attempt-GaveUp laws runs counts (runs w))
          (too_many-GaveUp laws runs counts (runs w) fits) fuel 1 no_retries w (omega arith)
          (omega arith) (refl, refl) in
      (r, eq, outcome, count, ran)

  -- If `retries + 1` overflows, `DoTx` gives up at once: the world is untouched, so the handler has not run.
  pub do_tx-wraps :
      (fuel : ℕ) (w : G.World)
      → retries + 1 ≡ word
      → do_tx G (suc fuel) ctx (full_call db retry_on back_off handler retries) w
        ≡ some (record {
          info = no_retries;
          outcome = err (
              errorf "dbw.DoTx: too many retries: %d of %d"
                (number_arg 0 ∷ number_arg 0 ∷ [])
                (sentinel max_retries));
          world = w;
        })
  unfolding do_tx do_tx_loop
  do_tx-wraps fuel w full = let limit : (retries + 1) % word ≡ 0 = omega arith in rw limit refl

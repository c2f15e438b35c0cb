-- ===== src/DoTx/Bounded.antt =====
-- How often `DoTx` runs the handler.
use go_dbw.Prelude.{
  ◌≢◌, ◌⊎◌, ◌≡◌, refl, ap, ◌∙◌, ℕ, ◌+◌, ◌≤◌, ◌<◌, Bool, some, Bool-cases, Option-cases, inl, inr,
  arith,
}
use go_dbw.Errors.{fails_or, Outcome-cases, ok, Error}
use go_dbw.Gorm.{Gorm}
use go_dbw.DoTx.{
  RetryInfo, no_retries, Backoff, TxHandler, TxResult, word, attempt, too_many, after_failure,
  roll_back, finish_commit, full_call, do_tx,
}
use go_dbw.DoTx.Rule.{Gives, do_tx_loop_rule}

-- `runs` counts how often the handler has run: its run adds one, and nothing else that `DoTx` calls
-- changes the count.
pub record Counts (G : Gorm) (back_off : Backoff G.World) (handler : TxHandler G)
    (runs : G.World → ℕ) : Type 0 where
  pub of_begin : (db : G.Db) (w : G.World) → runs (G.begin db w).1 ≡ runs w
  pub of_commit : (db : G.Db) (w : G.World) → runs (G.commit db w).1 ≡ runs w
  pub of_rollback : (db : G.Db) (w : G.World) → runs (G.rollback db w).1 ≡ runs w
  pub of_is_done : (ctx : G.Context) (d : ℕ) (w : G.World) → runs (G.is_done ctx d w).1 ≡ runs w
  pub of_back_off : (n : ℕ) (w : G.World) → runs (back_off n w).1 ≡ runs w
  pub of_handler : (db : G.Db) (w : G.World) → runs (handler db w).1 ≡ runs w + 1

module _ (G : Gorm) (ctx : G.Context) (db : G.Db) (retry_on : Error → Bool)
    (back_off : Backoff G.World) (handler : TxHandler G) (retries : ℕ) (runs : G.World → ℕ)
    (counts : Counts G back_off handler runs) where
  module _ (n : ℕ) where
    -- Before round `a` the handler has run `a - 1` times, as the retry information says.
    abbrev Before : ℕ → RetryInfo → G.World → Type 0
    Before a info w = (runs w + 1 ≡ n + a) × (info.retries + 1 ≡ a)

    abbrev Ran : TxResult G.World → Type 0
    Ran r =
        (runs r.world ≤ n + retries + 1)
        × (r.outcome ≡ ok tt → runs r.world ≡ n + r.info.retries + 1)

    after_failure-Ran :
        (a : ℕ) (info : RetryInfo) (e : Error) (w : G.World)
        → a ≤ retries + 1
        → runs w ≡ n + a
        → info.retries + 1 ≡ a
        → Gives G ctx db retry_on back_off handler retries Before Ran a
            (after_failure G ctx db retry_on back_off handler a info e w)
    unfolding after_failure
    after_failure-Ran a info e w le h i = elim (Bool-cases (retry_on e)) [
      | inr stop ↦ rw stop (omega arith, λ eq. cc)
      | inl go ↦
          let d : ℕ = (back_off a w).0 in
          let w1 : G.World = (back_off a w).1 in
          let kept : runs (G.is_done ctx d w1).1 ≡ n + a =
            counts.of_is_done ctx d w1 ∙ counts.of_back_off a w ∙ h in
          elim (Bool-cases (G.is_done ctx d w1).0) [
            | inl done ↦ rw (go, done) (omega arith, λ eq. cc)
            | inr wait ↦ rw (go, wait) (omega arith, ap (λ k. k + 1) i)
          ]
    ]

    roll_back-Ran :
        (a : ℕ) (info : RetryInfo) (tx : G.Db) (e : Error) (w : G.World)
        → a ≤ retries + 1
        → runs w ≡ n + a
        → info.retries + 1 ≡ a
        → Gives G ctx db retry_on back_off handler retries Before Ran a
            (roll_back G ctx db retry_on back_off handler a info tx e w)
    unfolding roll_back
    roll_back-Ran a info tx e w le h i =
        let kept : runs (G.rollback tx w).1 ≡ n + a = counts.of_rollback tx w ∙ h in
        elim (Option-cases (G.rollback tx w).0) [
          | inr (r, eq) ↦ rw (roll_back, eq) (omega arith, λ eq. cc)
          | inl eq ↦ rw (roll_back, eq) (after_failure-Ran a info e (G.rollback tx w).1 le kept i)
        ]

    finish_commit-Ran :
        (a : ℕ) (info : RetryInfo) (tx : G.Db) (w : G.World)
        → a ≤ retries + 1
        → runs w ≡ n + a
        → info.retries + 1 ≡ a
        → Gives G ctx db retry_on back_off handler retries Before Ran a
            (finish_commit G ctx db retry_on back_off handler info tx w)
    unfolding finish_commit
    finish_commit-Ran a info tx w le h i =
        let kept : runs (G.commit tx w).1 ≡ n + a = counts.of_commit tx w ∙ h in
        let w1 : G.World = (G.commit tx w).1 in
        let kept' : runs (G.rollback tx w1).1 ≡ n + a = counts.of_rollback tx w1 ∙ kept in
        elim (Option-cases (G.commit tx w).0) [
          | inl eq ↦ rw (finish_commit, eq) (omega arith, λ _. omega arith)
          | inr (e, eq) ↦ elim (Option-cases (G.rollback tx w1).0) [
            | inr (r, eq') ↦ rw (finish_commit, eq, eq') (omega arith, λ eq. cc)
            | inl eq' ↦ rw (finish_commit, eq, eq') (omega arith, λ eq. cc)
          ]
        ]

    attempt-Ran :
        (a : ℕ) (info : RetryInfo) (w : G.World)
        → a ≤ retries + 1
        → Before a info w
        → Gives G ctx db retry_on back_off handler retries Before Ran a
            (attempt G ctx db retry_on back_off handler a info w)
    unfolding attempt
    attempt-Ran a info w le (h, i) =
        let tx : G.Db = (G.begin (G.with_context ctx db) w).0 in
        let w1 : G.World = (G.begin (G.with_context ctx db) w).1 in
        let w2 : G.World = (handler tx w1).1 in
        let ran : runs w2 ≡ n + a =
          counts.of_handler tx w1
          ∙ ap (λ k. k + 1) (counts.of_begin (G.with_context ctx db) w)
          ∙ h in
        elim (Outcome-cases (handler tx w1).0) [
          | inl (_, eq) ↦ rw (attempt, eq) (finish_commit-Ran a info tx w2 le ran i)
          | inr (inl (e, eq)) ↦ rw (attempt, eq) (roll_back-Ran a info tx e w2 le ran i)
          | inr (inr eq) ↦ rw (attempt, eq) (omega arith, λ eq. cc)
        ]

    too_many-Ran :
        (a : ℕ) (info : RetryInfo) (w : G.World)
        → a ≡ retries + 2
        → Before a info w
        → Ran (too_many G ctx db retry_on back_off handler retries a info w)
    too_many-Ran a info w le (h, i) = (omega arith, λ eq. cc)

  -- If `retries + 2` does not overflow and `Counts` holds, fuel above `retries + 1` is enough for `DoTx` to
  -- return. The handler has then run at most `retries + 1` times, and on success once more than the retries
  -- that are reported.
  pub do_tx-bounded :
      (fuel : ℕ) (w : G.World)
      → retries + 2 < word
      → retries + 1 < fuel
      → (r : TxResult G.World) × (do_tx G fuel ctx
            (full_call db retry_on back_off handler retries)
            w
          ≡ some r)
        × (runs r.world ≤ runs w + retries + 1)
        × ((r.outcome ≢ ok tt) ⊎ (runs r.world ≡ runs w + r.info.retries + 1))
  unfolding do_tx
  do_tx-bounded fuel w fits enough =
      let (r, eq, (le, on_ok)) =
        do_tx_loop_rule G ctx db retry_on back_off handler retries fits (Before (runs w))
          (Ran (runs w)) (attempt-Ran (runs w)) (too_many-Ran (runs w)) fuel 1 no_retries w
          (omega arith) (omega arith) (refl, refl) in
      (r, eq, le, fails_or r.outcome on_ok)

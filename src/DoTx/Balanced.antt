-- ===== src/DoTx/Balanced.antt =====
-- What `DoTx` leaves of the transactions that it begins.
use go_dbw.Prelude.{
  ◌⊎◌, ◌≡◌, refl, ap, ◌∙◌, ◌≢◌, ℕ, ◌+◌, ◌-◌, ◌≤◌, ◌<◌, Bool, none, some, Bool-cases, Option-cases,
  inl, inr, arith,
}
use go_dbw.Errors.{panics_or, Outcome-cases, panic, Error}
use go_dbw.Gorm.{Gorm}
use go_dbw.DoTx.{
  RetryInfo, no_retries, Backoff, TxHandler, TxResult, word, attempt, after_failure, roll_back,
  finish_commit, full_call, do_tx,
}
use go_dbw.DoTx.Rule.{Gives, do_tx_loop_rule}

-- `opened` counts the transactions that are open: `Begin` opens one, a commit without error closes
-- one, a rollback closes one, also the rollback after a commit that failed. The handler, the
-- backoff and the wait close all that they open.
pub record Transacts (G : Gorm) (back_off : Backoff G.World) (handler : TxHandler G)
    (opened : G.World → ℕ) : Type 0 where
  pub of_begin : (db : G.Db) (w : G.World) → opened (G.begin db w).1 ≡ opened w + 1
  pub of_commit :
      (db : G.Db) (w : G.World) → (G.commit db w).0 ≡ none → opened (G.commit db w).1 ≡ opened w - 1
  pub of_failed_commit :
      (db : G.Db) (w : G.World) (e : Error)
      → (G.commit db w).0 ≡ some e
      → opened (G.rollback db (G.commit db w).1).1 ≡ opened w - 1
  pub of_rollback : (db : G.Db) (w : G.World) → opened (G.rollback db w).1 ≡ opened w - 1
  pub of_is_done : (ctx : G.Context) (d : ℕ) (w : G.World) → opened (G.is_done ctx d w).1 ≡ opened w
  pub of_back_off : (n : ℕ) (w : G.World) → opened (back_off n w).1 ≡ opened w
  pub of_handler : (db : G.Db) (w : G.World) → opened (handler db w).1 ≡ opened w

module _ (G : Gorm) (ctx : G.Context) (db : G.Db) (retry_on : Error → Bool)
    (back_off : Backoff G.World) (handler : TxHandler G) (retries : ℕ) (opened : G.World → ℕ)
    (laws : Transacts G back_off handler opened) where
  module _ (n : ℕ) where
    abbrev Before : ℕ → RetryInfo → G.World → Type 0
    Before a info w = opened w ≡ n

    abbrev Closed : TxResult G.World → Type 0
    Closed r =
        (r.outcome ≡ panic → opened r.world ≡ n + 1) × (r.outcome ≢ panic → opened r.world ≡ n)

    after_failure-Closed :
        (a : ℕ) (info : RetryInfo) (e : Error) (w : G.World)
        → opened w ≡ n
        → Gives G ctx db retry_on back_off handler retries Before Closed a
            (after_failure G ctx db retry_on back_off handler a info e w)
    unfolding after_failure
    after_failure-Closed a info e w h = elim (Bool-cases (retry_on e)) [
      | inr stop ↦ rw stop (λ eq. cc, λ _. h)
      | inl go ↦
          let d : ℕ = (back_off a w).0 in
          let w1 : G.World = (back_off a w).1 in
          let kept : opened (G.is_done ctx d w1).1 ≡ n =
            laws.of_is_done ctx d w1 ∙ laws.of_back_off a w ∙ h in
          elim (Bool-cases (G.is_done ctx d w1).0) [
            | inl done ↦ rw (go, done) (λ eq. cc, λ _. kept)
            | inr wait ↦ rw (go, wait) kept
          ]
    ]

    roll_back-Closed :
        (a : ℕ) (info : RetryInfo) (tx : G.Db) (e : Error) (w : G.World)
        → opened w ≡ n + 1
        → Gives G ctx db retry_on back_off handler retries Before Closed a
            (roll_back G ctx db retry_on back_off handler a info tx e w)
    unfolding roll_back
    roll_back-Closed a info tx e w h =
        let kept : opened (G.rollback tx w).1 ≡ n = laws.of_rollback tx w ∙ omega arith in
        elim (Option-cases (G.rollback tx w).0) [
          | inr (r, eq) ↦ rw (roll_back, eq) (λ eq. cc, λ _. kept)
          | inl eq ↦ rw (roll_back, eq) (after_failure-Closed a info e (G.rollback tx w).1 kept)
        ]

    finish_commit-Closed :
        (a : ℕ) (info : RetryInfo) (tx : G.Db) (w : G.World)
        → opened w ≡ n + 1
        → Gives G ctx db retry_on back_off handler retries Before Closed a
            (finish_commit G ctx db retry_on back_off handler info tx w)
    unfolding finish_commit
    finish_commit-Closed a info tx w h =
        let less : opened w - 1 ≡ n = omega arith in
        let w1 : G.World = (G.commit tx w).1 in
        elim (Option-cases (G.commit tx w).0) [
          | inl eq ↦ rw (finish_commit, eq) (λ eq. cc, λ _. laws.of_commit tx w eq ∙ less)
          | inr (e, eq) ↦
              let kept : opened (G.rollback tx w1).1 ≡ n = laws.of_failed_commit tx w e eq ∙ less in
              elim (Option-cases (G.rollback tx w1).0) [
                | inr (r, eq') ↦ rw (finish_commit, eq, eq') (λ eq. cc, λ _. kept)
                | inl eq' ↦ rw (finish_commit, eq, eq') (λ eq. cc, λ _. kept)
              ]
        ]

    attempt-Closed :
        (a : ℕ) (info : RetryInfo) (w : G.World)
        → a ≤ retries + 1
        → Before a info w
        → Gives G ctx db retry_on back_off handler retries Before Closed a
            (attempt G ctx db retry_on back_off handler a info w)
    unfolding attempt
    attempt-Closed a info w le h =
        let tx : G.Db = (G.begin (G.with_context ctx db) w).0 in
        let w1 : G.World = (G.begin (G.with_context ctx db) w).1 in
        let w2 : G.World = (handler tx w1).1 in
        let open_tx : opened w2 ≡ n + 1 =
          laws.of_handler tx w1 ∙ laws.of_begin (G.with_context ctx db) w ∙ ap (λ k. k + 1) h in
        elim (Outcome-cases (handler tx w1).0) [
          | inl (_, eq) ↦ rw (attempt, eq) (finish_commit-Closed a info tx w2 open_tx)
          | inr (inl (e, eq)) ↦ rw (attempt, eq) (roll_back-Closed a info tx e w2 open_tx)
          | inr (inr eq) ↦ rw (attempt, eq) (λ _. open_tx, λ ne. absurd (ne refl))
        ]

  -- If `retries + 2` does not overflow and `Transacts` holds, fuel above `retries + 1` is enough for `DoTx` to
  -- return. As many transactions are then open as before, unless the handler panicked: then its own is open.
  pub do_tx-balanced :
      (fuel : ℕ) (w : G.World)
      → retries + 2 < word
      → retries + 1 < fuel
      → (r : TxResult G.World) × (do_tx G fuel ctx
            (full_call db retry_on back_off handler retries)
            w
          ≡ some r)
        × (((r.outcome ≡ panic) × (opened r.world ≡ opened w + 1))
            ⊎ ((r.outcome ≢ panic) × (opened r.world ≡ opened w)))
  unfolding do_tx
  do_tx-balanced fuel w fits enough =
      let (r, eq, (on_panic, on_return)) =
        do_tx_loop_rule G ctx db retry_on back_off handler retries fits (Before (opened w))
          (Closed (opened w)) (attempt-Closed (opened w)) (λ a info w' _ h. (λ eq. cc, λ _. h)) fuel
          1 no_retries w (omega arith) (omega arith) refl in
      (r, eq, panics_or r.outcome on_panic on_return)

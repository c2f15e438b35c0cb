-- ===== src/DoTx/Atomic.antt =====
-- `DoTx` as one atomic step on the data that the database has committed.
use go_dbw.Prelude.{
  ◌≡◌, refl, ap, ◌∙◌, ◌≢◌, ◌⊎◌, ℕ, ◌+◌, ◌≤◌, ◌<◌, Bool, none, some, Bool-cases, Option-cases, inl,
  inr, arith,
}
use go_dbw.Errors.{Outcome-cases, ok, Error}
use go_dbw.Gorm.{Gorm}
use go_dbw.DoTx.{
  RetryInfo, no_retries, Backoff, TxHandler, TxResult, word, attempt, after_failure, roll_back,
  finish_commit, full_call, do_tx,
}
use go_dbw.DoTx.Rule.{Gives, do_tx_loop_rule}

-- `store` is the committed data, and `view` the data that a transaction sees. A transaction starts
-- from the store; a handler that succeeds has the effect `run` on its view; a commit without error
-- makes the view the store, and nothing else changes the store.
pub record Isolates (G : Gorm) (back_off : Backoff G.World) (handler : TxHandler G) {S : Type 0}
    (store : G.World → S) (view : G.Db → G.World → S) (run : S → S) : Type 0 where
  pub of_begin : (db : G.Db) (w : G.World) → store (G.begin db w).1 ≡ store w
  pub of_view : (db : G.Db) (w : G.World) → view (G.begin db w).0 (G.begin db w).1 ≡ store w
  pub of_handler : (db : G.Db) (w : G.World) → store (handler db w).1 ≡ store w
  pub of_success :
      (db : G.Db) (w : G.World)
      → (handler db w).0 ≡ ok tt
      → view db (handler db w).1 ≡ run (view db w)
  pub of_commit :
      (db : G.Db) (w : G.World) → (G.commit db w).0 ≡ none → store (G.commit db w).1 ≡ view db w
  pub of_failed_commit :
      (db : G.Db) (w : G.World) (e : Error)
      → (G.commit db w).0 ≡ some e
      → store (G.commit db w).1 ≡ store w
  pub of_rollback : (db : G.Db) (w : G.World) → store (G.rollback db w).1 ≡ store w
  pub of_is_done : (ctx : G.Context) (d : ℕ) (w : G.World) → store (G.is_done ctx d w).1 ≡ store w
  pub of_back_off : (n : ℕ) (w : G.World) → store (back_off n w).1 ≡ store w

module _ (G : Gorm) (ctx : G.Context) (db : G.Db) (retry_on : Error → Bool)
    (back_off : Backoff G.World) (handler : TxHandler G) (retries : ℕ) {S : Type 0}
    (store : G.World → S) (view : G.Db → G.World → S) (run : S → S)
    (laws : Isolates G back_off handler store view run) where
  module _ (n : S) where
    abbrev Same : ℕ → RetryInfo → G.World → Type 0
    Same a info w = store w ≡ n

    -- The effect happened once and the call succeeded, or it did not happen and the call failed.
    abbrev IsAtomic : TxResult G.World → Type 0
    IsAtomic r =
        ((r.outcome ≡ ok tt) × (store r.world ≡ run n))
        ⊎ ((r.outcome ≢ ok tt) × (store r.world ≡ n))

    after_failure-IsAtomic :
        (a : ℕ) (info : RetryInfo) (e : Error) (w : G.World)
        → store w ≡ n
        → Gives G ctx db retry_on back_off handler retries Same IsAtomic a
            (after_failure G ctx db retry_on back_off handler a info e w)
    unfolding after_failure
    after_failure-IsAtomic a info e w h = elim (Bool-cases (retry_on e)) [
      | inr stop ↦ rw stop (inr (λ eq. cc, h))
      | inl go ↦
          let d : ℕ = (back_off a w).0 in
          let w1 : G.World = (back_off a w).1 in
          let kept : store (G.is_done ctx d w1).1 ≡ n =
            laws.of_is_done ctx d w1 ∙ laws.of_back_off a w ∙ h in
          elim (Bool-cases (G.is_done ctx d w1).0) [
            | inl done ↦ rw (go, done) (inr (λ eq. cc, kept))
            | inr wait ↦ rw (go, wait) kept
          ]
    ]

    roll_back-IsAtomic :
        (a : ℕ) (info : RetryInfo) (tx : G.Db) (e : Error) (w : G.World)
        → store w ≡ n
        → Gives G ctx db retry_on back_off handler retries Same IsAtomic a
            (roll_back G ctx db retry_on back_off handler a info tx e w)
    unfolding roll_back
    roll_back-IsAtomic a info tx e w h =
        let kept : store (G.rollback tx w).1 ≡ n = laws.of_rollback tx w ∙ h in
        elim (Option-cases (G.rollback tx w).0) [
          | inr (r, eq) ↦ rw (roll_back, eq) (inr (λ eq. cc, kept))
          | inl eq ↦ rw (roll_back, eq) (after_failure-IsAtomic a info e (G.rollback tx w).1 kept)
        ]

    finish_commit-IsAtomic :
        (a : ℕ) (info : RetryInfo) (tx : G.Db) (w : G.World)
        → store w ≡ n
        → view tx w ≡ run n
        → Gives G ctx db retry_on back_off handler retries Same IsAtomic a
            (finish_commit G ctx db retry_on back_off handler info tx w)
    unfolding finish_commit
    finish_commit-IsAtomic a info tx w h seen =
        let w1 : G.World = (G.commit tx w).1 in
        elim (Option-cases (G.commit tx w).0) [
          | inl eq ↦ rw (finish_commit, eq) (inl (refl, laws.of_commit tx w eq ∙ seen))
          | inr (e, eq) ↦
              let kept : store (G.rollback tx w1).1 ≡ n =
                laws.of_rollback tx w1 ∙ laws.of_failed_commit tx w e eq ∙ h in
              elim (Option-cases (G.rollback tx w1).0) [
                | inr (r, eq') ↦ rw (finish_commit, eq, eq') (inr (λ eq. cc, kept))
                | inl eq' ↦ rw (finish_commit, eq, eq') (inr (λ eq. cc, kept))
              ]
        ]

    attempt-IsAtomic :
        (a : ℕ) (info : RetryInfo) (w : G.World)
        → a ≤ retries + 1
        → Same a info w
        → Gives G ctx db retry_on back_off handler retries Same IsAtomic a
            (attempt G ctx db retry_on back_off handler a info w)
    unfolding attempt
    attempt-IsAtomic a info w le h =
        let own : G.Db = G.with_context ctx db in
        let tx : G.Db = (G.begin own w).0 in
        let w1 : G.World = (G.begin own w).1 in
        let w2 : G.World = (handler tx w1).1 in
        let same : store w2 ≡ n = laws.of_handler tx w1 ∙ laws.of_begin own w ∙ h in
        elim (Outcome-cases (handler tx w1).0) [
          | inl (_, eq) ↦
              rw (attempt, eq)
                (finish_commit-IsAtomic a info tx w2 same
                  (laws.of_success tx w1 eq ∙ ap run (laws.of_view own w ∙ h)))
          | inr (inl (e, eq)) ↦ rw (attempt, eq) (roll_back-IsAtomic a info tx e w2 same)
          | inr (inr eq) ↦ rw (attempt, eq) (inr (λ ne. cc, same))
        ]

  -- If `retries + 2` does not overflow and the database `Isolates` its transactions, fuel above
  -- `retries + 1` is enough for `DoTx` to return, and it is atomic, however often it tries: either it
  -- succeeds and the committed data have changed by the handler's effect, once, or it does not
  -- succeed and they are as before.
  pub do_tx-atomic :
      (fuel : ℕ) (w : G.World)
      → retries + 2 < word
      → retries + 1 < fuel
      → (r : TxResult G.World) × (do_tx G fuel ctx
            (full_call db retry_on back_off handler retries)
            w
          ≡ some r)
        × (((r.outcome ≡ ok tt) × (store r.world ≡ run (store w)))
            ⊎ ((r.outcome ≢ ok tt) × (store r.world ≡ store w)))
  unfolding do_tx
  do_tx-atomic fuel w fits enough =
      let (r, eq, atomic) =
        do_tx_loop_rule G ctx db retry_on back_off handler retries fits (Same (store w))
          (IsAtomic (store w)) (attempt-IsAtomic (store w)) (λ a info w' _ h. inr (λ eq. cc, h))
          fuel 1 no_retries w (omega arith) (omega arith) refl in
      (r, eq, atomic)

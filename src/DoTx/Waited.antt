-- ===== src/DoTx/Waited.antt =====
-- What `DoTx` reports of its waits, with the constant backoff of backoff.go.
use go_dbw.Prelude.{
  ◌≡◌, refl, sym, ap, ◌∙◌, ℕ, ◌+◌, ◌*◌, ◌%◌, ◌≤◌, ◌<◌, Bool, some, Bool-cases, Option-cases, inl,
  inr, arith,
}
use go_dbw.Errors.{Outcome-cases, ok, Error}
use go_dbw.Gorm.{Gorm}
use go_dbw.Backoffs.{ConstBackoff, duration, const_backoff}
use go_dbw.DoTx.{
  RetryInfo, no_retries, TxHandler, TxResult, word, attempt, after_failure, roll_back,
  finish_commit, full_call, do_tx,
}
use go_dbw.DoTx.Rule.{Gives, do_tx_loop_rule}

suc_mul : (r d : ℕ) → (r + 1) * d ≡ r * d + d
suc_mul r d = omega arith

wrapped_sum : (x y : ℕ) → (x % word + y % word) % word ≡ (x + y) % word
wrapped_sum x y = omega arith

none_waited : (d : ℕ) → 0 ≡ (0 * d) % word
none_waited d = omega arith

module _ (b : ConstBackoff) where
  -- The reported wait is the nominal one, for each reported retry.
  abbrev Waited : RetryInfo → Type 0
  Waited info = info.backoff ≡ (info.retries * (1000000 * b.duration_ms)) % word

  Waited-next :
      (info : RetryInfo) (a : ℕ)
      → Waited info
      → (info.backoff + duration b a) % word
        ≡ ((info.retries + 1) * (1000000 * b.duration_ms)) % word
  unfolding duration
  Waited-next info a h =
      ap (λ k. (k + (1000000 * b.duration_ms) % word) % word) h
      ∙ wrapped_sum (info.retries * (1000000 * b.duration_ms)) (1000000 * b.duration_ms)
      ∙ ap (λ k. k % word) (sym (suc_mul info.retries (1000000 * b.duration_ms)))

  module _ (G : Gorm) (ctx : G.Context) (db : G.Db) (retry_on : Error → Bool)
      (handler : TxHandler G) (retries : ℕ) where
    abbrev Before : ℕ → RetryInfo → G.World → Type 0
    Before a info w = (info.retries + 1 ≡ a) × Waited info

    abbrev Reports : TxResult G.World → Type 0
    Reports r = (r.info.retries ≤ retries + 1) × Waited r.info

    after_failure-Reports :
        (a : ℕ) (info : RetryInfo) (e : Error) (w : G.World)
        → a ≤ retries + 1
        → Before a info w
        → Gives G ctx db retry_on
            (const_backoff b)
            handler
            retries
            Before
            Reports
            a
            (after_failure G ctx db retry_on (const_backoff b) handler a info e w)
    unfolding after_failure
    after_failure-Reports a info e w le (i, h) = elim (Bool-cases (retry_on e)) [
      | inr stop ↦ rw stop (omega arith, h)
      | inl go ↦ elim (Bool-cases (G.is_done ctx (duration b a) w).0) [
        | inl done ↦ rw (go, done) (omega arith, Waited-next info a h)
        | inr wait ↦ rw (go, wait) (ap (λ k. k + 1) i, Waited-next info a h)
      ]
    ]

    attempt-Reports :
        (a : ℕ) (info : RetryInfo) (w : G.World)
        → a ≤ retries + 1
        → Before a info w
        → Gives G ctx db retry_on
            (const_backoff b)
            handler
            retries
            Before
            Reports
            a
            (attempt G ctx db retry_on (const_backoff b) handler a info w)
    unfolding attempt roll_back finish_commit
    attempt-Reports a info w le (i, h) =
        let tx : G.Db = (G.begin (G.with_context ctx db) w).0 in
        let w1 : G.World = (G.begin (G.with_context ctx db) w).1 in
        let w2 : G.World = (handler tx w1).1 in
        let w3 : G.World = (G.commit tx w2).1 in
        let reported : Reports (record { info = info; outcome = ok tt; world = w }) =
          (omega arith, h) in
        elim (Outcome-cases (handler tx w1).0) [
          | inl (_, eq) ↦ elim (Option-cases (G.commit tx w2).0) [
            | inl eq' ↦ rw (attempt, eq, finish_commit, eq') reported
            | inr (e, eq') ↦ elim (Option-cases (G.rollback tx w3).0) [
              | inr (r, eq'') ↦ rw (attempt, eq, finish_commit, eq', eq'') reported
              | inl eq'' ↦ rw (attempt, eq, finish_commit, eq', eq'') reported
            ]
          ]
          | inr (inl (e, eq)) ↦ elim (Option-cases (G.rollback tx w2).0) [
            | inr (r, eq') ↦ rw (attempt, eq, roll_back, eq') reported
            | inl eq' ↦
                rw (attempt, eq, roll_back, eq')
                  (after_failure-Reports a info e (G.rollback tx w2).1 le (i, h))
          ]
          | inr (inr eq) ↦ rw (attempt, eq) reported
        ]

    -- If `retries + 2` does not overflow, `DoTx` with a `ConstBackoff` returns on fuel above `retries + 1`.
    -- On every outcome it reports at most `retries + 1` retries, and a backoff of as many times the
    -- configured milliseconds, in nanoseconds and modulo 2^64.
    pub do_tx-waited :
        (fuel : ℕ) (w : G.World)
        → retries + 2 < word
        → retries + 1 < fuel
        → (r : TxResult G.World) × (do_tx G fuel ctx
              (full_call db retry_on (const_backoff b) handler retries)
              w
            ≡ some r)
          × (r.info.retries ≤ retries + 1)
          × (r.info.backoff ≡ (r.info.retries * (1000000 * b.duration_ms)) % word)
    unfolding do_tx
    do_tx-waited fuel w fits enough =
        let (r, eq, (le, waited)) =
          do_tx_loop_rule G ctx db retry_on (const_backoff b) handler retries fits Before Reports
            attempt-Reports (λ a info w' eq (i, h). (omega arith, h)) fuel 1 no_retries w
            (omega arith) (omega arith) (refl, none_waited (1000000 * b.duration_ms)) in
        (r, eq, le, waited)

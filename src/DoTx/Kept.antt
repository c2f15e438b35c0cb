-- ===== src/DoTx/Kept.antt =====
-- What the transactions of `DoTx` keep of the database.
use mathlib.Core.Path.{subst}
use go_dbw.Prelude.{
  ◌≡◌, ℕ, zero, suc, ◌+◌, ◌%◌, Bool, Option, some, Bool-cases, Option-cases, inl, inr, ltb,
}
use go_dbw.Errors.{Error, Outcome-cases}
use go_dbw.Gorm.{Gorm}
use go_dbw.DoTx.{
  RetryInfo, no_retries, TxHandler, Backoff, TxResult, Call, Attempt, finished, again, word,
  after_failure, roll_back, finish_commit, attempt, do_tx_loop, do_tx,
}

-- The world of a result that is returned at once.
at_once : {W : Type 0} (x r : TxResult W) → some x ≡ some r → x.world ≡ r.world
at_once x r h = cc

-- The start and the end of a transaction keep `P`, and so does a wait.
pub record TxKeeps (G : Gorm) (P : G.World → Type 0) : Type 0 where
  pub of_begin : (db : G.Db) (w : G.World) → P w → P (G.begin db w).1
  pub of_commit : (db : G.Db) (w : G.World) → P w → P (G.commit db w).1
  pub of_rollback : (db : G.Db) (w : G.World) → P w → P (G.rollback db w).1
  pub of_is_done : (ctx : G.Context) (d : ℕ) (w : G.World) → P w → P (G.is_done ctx d w).1

module _ (G : Gorm) (P : G.World → Type 0) (keeps : TxKeeps G P) where
  -- A round leaves `P`, whether it returns or goes on.
  abbrev Leaves : Attempt G.World → Type 0
  Leaves (finished r) = P r.world
  Leaves (again info w) = P w

  module _ (ctx : G.Context) (db : G.Db) (retry_on : Error → Bool) (back_off : Backoff G.World)
      (handler : TxHandler G) (waits : (n : ℕ) (v : G.World) → (back_off n v).1 ≡ v)
      (handles : (tx : G.Db) (v : G.World) → P v → P (handler tx v).1) where
    after_failure-Leaves :
        (a : ℕ) (info : RetryInfo) (e : Error) (w : G.World)
        → P w
        → Leaves (after_failure G ctx db retry_on back_off handler a info e w)
    unfolding after_failure
    after_failure-Leaves a info e w p = elim (Bool-cases (retry_on e)) [
      | inr stop ↦ rw stop p
      | inl go ↦
          let d : ℕ = (back_off a w).0 in
          let w1 : G.World = (back_off a w).1 in
          let waited : P w1 = rw (waits a w) p in
          let kept : P (G.is_done ctx d w1).1 = keeps.of_is_done ctx d w1 waited in
          elim (Bool-cases (G.is_done ctx d w1).0) [
            | inl done ↦ rw (go, done) kept
            | inr wait ↦ rw (go, wait) kept
          ]
    ]

    attempt-Leaves :
        (a : ℕ) (info : RetryInfo) (w : G.World)
        → P w
        → Leaves (attempt G ctx db retry_on back_off handler a info w)
    unfolding attempt roll_back finish_commit
    attempt-Leaves a info w p =
        let tx : G.Db = (G.begin (G.with_context ctx db) w).0 in
        let w1 : G.World = (G.begin (G.with_context ctx db) w).1 in
        let w2 : G.World = (handler tx w1).1 in
        let w3 : G.World = (G.commit tx w2).1 in
        let p2 : P w2 = handles tx w1 (keeps.of_begin _ w p) in
        let p3 : P w3 = keeps.of_commit tx w2 p2 in
        elim (Outcome-cases (handler tx w1).0) [
          | inl (_, eq) ↦ elim (Option-cases (G.commit tx w2).0) [
            | inl eq' ↦ rw (attempt, eq, finish_commit, eq') p3
            | inr (e, eq') ↦ elim (Option-cases (G.rollback tx w3).0) [
              | inr (r, eq'') ↦
                  rw (attempt, eq, finish_commit, eq', eq'') (keeps.of_rollback tx w3 p3)
              | inl eq'' ↦ rw (attempt, eq, finish_commit, eq', eq'') (keeps.of_rollback tx w3 p3)
            ]
          ]
          | inr (inl (e, eq)) ↦ elim (Option-cases (G.rollback tx w2).0) [
            | inr (r, eq') ↦ rw (attempt, eq, roll_back, eq') (keeps.of_rollback tx w2 p2)
            | inl eq' ↦
                rw (attempt, eq, roll_back, eq')
                  (after_failure-Leaves a info e (G.rollback tx w2).1 (keeps.of_rollback tx w2 p2))
          ]
          | inr (inr eq) ↦ rw (attempt, eq) p2
        ]

    next_round-kept :
        (fuel retries b : ℕ) (t : Attempt G.World) (r : TxResult G.World)
        → ((info : RetryInfo) (w : G.World)
            → P w
            → do_tx_loop G ctx db retry_on back_off handler fuel retries b info w ≡ some r
            → P r.world)
        → Leaves t
        → ◌≡◌ {A = Option (TxResult G.World)}
            (elim t [
              | finished r ↦ some r
              | again info w ↦ do_tx_loop G ctx db retry_on back_off handler fuel retries b info w
            ])
            (some r)
        → P r.world
    next_round-kept fuel retries b (finished r') r go p h =
        let same : r' ≡ r = cc in subst (λ x. P x.world) same p
    next_round-kept fuel retries b (again info w) r go p h = go info w p h

    do_tx_loop-kept :
        (fuel retries a : ℕ) (info : RetryInfo) (w : G.World) (r : TxResult G.World)
        → P w
        → do_tx_loop G ctx db retry_on back_off handler fuel retries a info w ≡ some r
        → P r.world
    unfolding do_tx_loop
    do_tx_loop-kept zero retries a info w r p h = cc
    do_tx_loop-kept (suc fuel) retries a info w r p h =
        elim (Bool-cases (ltb ((retries + 1) % word) a)) [
          | inl over ↦ let same : w ≡ r.world = at_once _ r (rw over at h) in subst P same p
          | inr more ↦
              next_round-kept fuel retries ((a + 1) % word)
                (attempt G ctx db retry_on back_off handler a info w) r
                (λ info w p h. do_tx_loop-kept fuel retries ((a + 1) % word) info w r p h)
                (attempt-Leaves a info w p) (rw more at h)
        ]

  pub do_tx-kept :
      (fuel : ℕ) (ctx : G.Context) (c : Call G) (w : G.World) (r : TxResult G.World)
      → ((handler : TxHandler G) (tx : G.Db) (v : G.World)
          → c.handler ≡ some handler
          → P v
          → P (handler tx v).1)
      → ((back_off : Backoff G.World) (n : ℕ) (v : G.World)
          → c.back_off ≡ some back_off
          → (back_off n v).1 ≡ v)
      → P w
      → do_tx G fuel ctx c w ≡ some r
      → P r.world
  unfolding do_tx
  do_tx-kept fuel ctx c w r handles waits p h = elim (Option-cases c.rw) [
    | inl a ↦ subst P (at_once _ r (rw (do_tx, a) at h)) p
    | inr (db, a) ↦ elim (Option-cases c.back_off) [
      | inl b ↦ subst P (at_once _ r (rw (do_tx, a, b) at h)) p
      | inr (back_off, b) ↦ elim (Option-cases c.handler) [
        | inl d ↦ subst P (at_once _ r (rw (do_tx, a, b, d) at h)) p
        | inr (handler, d) ↦ elim (Option-cases c.retry_errors_matching_fn) [
          | inl e ↦ subst P (at_once _ r (rw (do_tx, a, b, d, e) at h)) p
          | inr (retry_on, e) ↦
              do_tx_loop-kept ctx db retry_on back_off handler (λ n v. waits back_off n v b)
                (λ tx v q. handles handler tx v d q) fuel c.retries 1 no_retries w r p
                (rw (do_tx, a, b, d, e) at h)
        ]
      ]
    ]
  ]

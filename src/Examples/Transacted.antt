-- ===== src/Examples/Transacted.antt =====
-- Tests of `DoTx`, on a handler that counts its runs.
use go_dbw.Prelude.{
  ◌^◌, ℕ, ◌⊎◌, ◌≡◌, refl, ◌≢◌, ◌+◌, ◌*◌, ◌%◌, ◌≤◌, ltb, if◌then◌else◌, Bool, true, none, some, [],
  ◌∷◌, arith,
}
use go_dbw.Errors.{ok, err, panic, Error, foreign, errorf, sentinel, max_retries, number_arg}
use go_dbw.DoTx.{Backoff, TxHandler, TxResult, no_retries, word, attempt, do_tx, full_call}
use go_dbw.DoTx.Bounded.{Counts, do_tx-bounded}
use go_dbw.DoTx.Balanced.{Transacts, do_tx-balanced}
use go_dbw.Gorm.{Gorm}
use go_dbw.Backoffs.{Floats, exp_backoff, ConstBackoff, duration, const_backoff}
use go_dbw.DoTx.Waited.{do_tx-waited}
use go_dbw.DoTx.Atomic.{Isolates, do_tx-atomic}
use go_dbw.DoTx.Exhausted.{KeepsFailing, given_up, do_tx-gives_up, do_tx-wraps}
use go_dbw.Examples.{Counters, at_start, toy}

-- Every attempt waits a bit longer.
abbrev pub growing : Backoff Counters
growing n w = (n, w)

-- A handler that fails until its third run.
abbrev third_time : TxHandler toy
third_time db w =
    (if ltb w.runs 2 then err (foreign "busy") else ok tt, record w { runs = w.runs + 1 })

abbrev pub always : Error → Bool
always e = true

abbrev always_busy : TxHandler toy
always_busy db w = (err (foreign "busy"), record w { runs = w.runs + 1 })

busy-Counts : Counts toy growing always_busy (λ w. w.runs)
busy-Counts = record {
  of_begin = λ db w. refl;
  of_commit = λ db w. refl;
  of_rollback = λ db w. refl;
  of_is_done = λ ctx d w. refl;
  of_back_off = λ n w. refl;
  of_handler = λ db w. refl;
}

busy-Transacts : Transacts toy growing always_busy (λ w. w.opened)
busy-Transacts = record {
  of_begin = λ db w. refl;
  of_commit = λ db w e. refl;
  of_failed_commit = λ db w e h. cc;
  of_rollback = λ db w. refl;
  of_is_done = λ ctx d w. refl;
  of_back_off = λ n w. refl;
  of_handler = λ db w. refl;
}

busy-KeepsFailing : KeepsFailing toy always always_busy
busy-KeepsFailing = record {
  failure = λ db w. foreign "busy";
  fails = λ db w. refl;
  worth = λ db w. refl;
  rolls_back = λ db w. refl;
  waits = λ ctx d w. refl;
}

-- Two failures and a success: the handler ran three times, and the two waits were 1 and 2.
third_time_run :
    do_tx toy 9 tt (full_call tt always growing third_time 5) at_start
    ≡ some (record {
      info = record { retries = 2; backoff = 3 };
      outcome = ok tt;
      world = record { writes = 0; runs = 3; opened = 0 };
    })
unfolding do_tx attempt
third_time_run = refl

do_tx-bounded_example :
    (r : TxResult Counters) × (do_tx toy 5 tt (full_call tt always growing always_busy 2) at_start
      ≡ some r)
    × (r.world.runs ≤ 3)
    × ((r.outcome ≢ ok tt) ⊎ (r.world.runs ≡ 0 + r.info.retries + 1))
do_tx-bounded_example =
    do_tx-bounded toy tt tt always growing always_busy 2 (λ w. w.runs) busy-Counts 5 at_start
      (omega arith) (omega arith)

do_tx-balanced_example :
    (r : TxResult Counters) × (do_tx toy 5 tt (full_call tt always growing always_busy 2) at_start
      ≡ some r)
    × (((r.outcome ≡ panic) × (r.world.opened ≡ 0 + 1))
        ⊎ ((r.outcome ≢ panic) × (r.world.opened ≡ 0)))
do_tx-balanced_example =
    do_tx-balanced toy tt tt always growing always_busy 2 (λ w. w.opened) busy-Transacts 5 at_start
      (omega arith) (omega arith)

do_tx-gives_up_example :
    (r : TxResult Counters) × (do_tx toy 5 tt (full_call tt always growing always_busy 2) at_start
      ≡ some r)
    × (r.outcome ≡ err (given_up 2))
    × (r.info.retries ≡ 3)
    × (r.world.runs ≡ 3)
do_tx-gives_up_example =
    do_tx-gives_up toy tt tt always growing always_busy 2 busy-KeepsFailing (λ w. w.runs)
      busy-Counts 5 at_start (omega arith) (omega arith)

do_tx-wraps_example :
    do_tx toy 1 tt (full_call tt always growing always_busy 18446744073709551615) at_start
    ≡ some (record {
      info = no_retries;
      outcome = err (
          errorf "dbw.DoTx: too many retries: %d of %d"
            (number_arg 0 ∷ number_arg 0 ∷ [])
            (sentinel max_retries));
      world = at_start;
    })
do_tx-wraps_example =
    do_tx-wraps toy tt tt always growing always_busy 18446744073709551615 0 at_start (omega arith)

-- A database where a transaction works on a copy, and a handler that fails twice.
abbrev copying : Gorm
copying = record toy {
  begin = λ _ w. (tt, record w { runs = w.writes });
  commit = λ _ w. (none, record w { writes = w.runs });
  rollback = λ _ w. (none, w);
}

abbrev add_one : TxHandler copying
add_one db w = (
  if ltb w.opened 2 then err (foreign "busy") else ok tt,
  record w { runs = w.runs + 1; opened = w.opened + 1 },
)

copying-Isolates : Isolates copying growing add_one (λ w. w.writes) (λ _ w. w.runs) (λ n. n + 1)
copying-Isolates = record {
  of_begin = λ db w. refl;
  of_view = λ db w. refl;
  of_handler = λ db w. refl;
  of_success = λ db w e. refl;
  of_commit = λ db w e. refl;
  of_failed_commit = λ db w e h. cc;
  of_rollback = λ db w. refl;
  of_is_done = λ ctx d w. refl;
  of_back_off = λ n w. refl;
}

do_tx-atomic_example :
    (r : TxResult Counters) × (do_tx copying 7 tt (full_call tt always growing add_one 4) at_start
      ≡ some r)
    × (((r.outcome ≡ ok tt) × (r.world.writes ≡ 0 + 1))
        ⊎ ((r.outcome ≢ ok tt) × (r.world.writes ≡ 0)))
do_tx-atomic_example =
    do_tx-atomic copying tt tt always growing add_one 4 (λ w. w.writes) (λ _ w. w.runs) (λ n. n + 1)
      copying-Isolates 7 at_start (omega arith) (omega arith)

abbrev ten_ms : ConstBackoff
ten_ms = record { duration_ms = 10 }

-- Two failures wait 20 ms in all.
third_time_waits :
    do_tx toy 5 tt (full_call tt always (const_backoff ten_ms) third_time 3) at_start
    ≡ some (record {
      info = record { retries = 2; backoff = 20000000 };
      outcome = ok tt;
      world = record { writes = 0; runs = 3; opened = 0 };
    })
unfolding do_tx attempt duration
third_time_waits = refl

do_tx-waited_example :
    (r : TxResult Counters) × (do_tx toy 5 tt
        (full_call tt always (const_backoff ten_ms) third_time 3)
        at_start
      ≡ some r)
    × (r.info.retries ≤ 4)
    × (r.info.backoff ≡ (r.info.retries * 10000000) % word)
do_tx-waited_example =
    do_tx-waited ten_ms toy tt tt always third_time 3 5 at_start (omega arith) (omega arith)

-- Floats that are whole numbers, drawn from the world
abbrev whole : Floats ℕ
whole = record {
  Float = ℕ;
  zero_lt = λ x. ltb 0 x;
  exp2 = λ n. 2 ^ n;
  mul = λ x y. x * y;
  add = λ x y. x + y;
  five = 5;
  half = 1;
  random = λ w. (w, w + 1);
  to_duration = λ x. x;
}

-- A positive factor is used as it is; with zero, one is drawn.
exp_backoff_run :
    (exp_backoff whole 3 2 7 ≡ (80000000, 7)) × (exp_backoff whole 0 2 7 ≡ (160000000, 8))
unfolding exp_backoff
exp_backoff_run = (refl, refl)

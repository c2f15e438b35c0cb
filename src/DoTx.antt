-- ===== src/DoTx.antt =====
-- do_tx.go: a handler in a transaction, with retries.
mod Rule
pub mod Kept
pub mod Returns
pub mod Bounded
pub mod Balanced
pub mod Exhausted
pub mod Atomic
pub mod Waited
use go_dbw.Prelude.{
  ◌≡◌, ℕ, zero, suc, ◌+◌, ◌-◌, ◌%◌, ◌^◌, String, Bool, true, false, Option, none, some, List, [],
  ◌∷◌, ltb, if◌then◌else◌,
}
use go_dbw.Errors.{Outcome, ok, err, panic, Error, errorf, sentinel, max_retries, number_arg}
use go_dbw.Gorm.{Gorm}
use go_dbw.Guards.{bad_parameter}

-- The range of `uint`, and of the bit patterns of `time.Duration`
abbrev pub word : ℕ
word = 2 ^ 64

-- `RetryInfo` of writer.go; the duration is the pattern of an int64.
pub record RetryInfo : Type 0 where
  pub retries : ℕ
  pub backoff : ℕ

abbrev pub no_retries : RetryInfo
no_retries = record { retries = 0; backoff = 0 }

-- `Backoff`, `TxHandler` and the function that says which errors are worth another try; the first two
-- may change the world.
abbrev pub Backoff : Type 0 → Type 0
Backoff W = ℕ → W → ℕ × W

abbrev pub TxHandler : Gorm → Type 0
TxHandler G = G.Db → G.World → Outcome (Unit {0}) × G.World

pub record TxResult (W : Type 0) : Type 0 where
  pub info : RetryInfo
  pub outcome : Outcome (Unit {0})
  pub world : W

-- One round of the loop returns from `DoTx`, or goes on to the next.
pub data Attempt (W : Type 0) : Type 0 where
  finished : TxResult W → Attempt W
  again : RetryInfo → W → Attempt W

abbrev pub failed :
    {W : Type 0} → RetryInfo → String → List go_dbw.Errors.Arg → Error → W → Attempt W
failed info format args e w =
    finished (record { info = info; outcome = err (errorf format args e); world = w })

module _ (G : Gorm) (ctx : G.Context) (db : G.Db) (retry_on : Error → Bool)
    (back_off : Backoff G.World) (handler : TxHandler G) where
  -- After a failed handler and its rollback: wait and go on, or give up.
  unfoldable pub after_failure : ℕ → RetryInfo → Error → G.World → Attempt G.World
  after_failure attempts info e w =
      if retry_on e
      then (let (d, w) = back_off attempts w in
          let info : RetryInfo = record {
            retries = info.retries + 1;
            backoff = (info.backoff + d) % word;
          } in
          let (done, w) = G.is_done ctx d w in
          if done then failed info "dbw.DoTx: cancelled" [] e w else again info w)
      else failed info "dbw.DoTx" [] e w

  unfoldable pub roll_back : ℕ → RetryInfo → G.Db → Error → G.World → Attempt G.World
  unfolding after_failure
  roll_back attempts info tx e w =
      let (x, w) = G.rollback tx w in
      elim x [ some r ↦ failed info "dbw.DoTx" [] r w | none ↦ after_failure attempts info e w ]

  -- A commit that fails is followed by a rollback, whose own error is returned if there is one.
  unfoldable pub finish_commit : RetryInfo → G.Db → G.World → Attempt G.World
  finish_commit info tx w =
      let (x, w) = G.commit tx w in
      elim x [
        | none ↦ finished (record { info = info; outcome = ok tt; world = w })
        | some e ↦
            let (y, w) = G.rollback tx w in
            elim y [ some r ↦ failed info "dbw.DoTx" [] r w | none ↦ failed info "dbw.DoTx" [] e w ]
      ]

  -- A panic of the handler leaves the transaction as it is.
  unfoldable pub attempt : ℕ → RetryInfo → G.World → Attempt G.World
  unfolding roll_back finish_commit
  attempt attempts info w =
      let (tx, w) = G.begin (G.with_context ctx db) w in
      let (r, w) = handler tx w in
      elim r [
        | ok _ ↦ finish_commit info tx w
        | err e ↦ roll_back attempts info tx e w
        | panic ↦ finished (record { info = info; outcome = panic; world = w })
      ]

  abbrev too_many : ℕ → ℕ → RetryInfo → G.World → TxResult G.World
  too_many retries attempts info w = record {
    info = info;
    outcome = err (
        errorf "dbw.DoTx: too many retries: %d of %d"
          (number_arg (attempts - 1) ∷ number_arg ((retries + 1) % word) ∷ [])
          (sentinel max_retries));
    world = w;
  }

  -- The loop, on fuel; both `retries+1` and `attempts++` wrap around.
  unfoldable pub do_tx_loop : ℕ → ℕ → ℕ → RetryInfo → G.World → Option (TxResult G.World)
  do_tx_loop zero retries attempts info w = none
  do_tx_loop (suc fuel) retries attempts info w =
      let round : Option (TxResult G.World) = elim (attempt attempts info w) [
        | finished r ↦ some r
        | again info w ↦ do_tx_loop fuel retries ((attempts + 1) % word) info w
      ] in
      if ltb ((retries + 1) % word) attempts then some (too_many retries attempts info w) else round

-- What `DoTx` is given: the `RW`'s database and the arguments that may be nil.
pub record Call (G : Gorm) : Type 0 where
  pub rw : Option G.Db
  pub retry_errors_matching_fn : Option (Error → Bool)
  pub retries : ℕ
  pub back_off : Option (Backoff G.World)
  pub handler : Option (TxHandler G)

-- The arguments of a call with nothing missing.
abbrev pub full_call :
    {G : Gorm} → G.Db → (Error → Bool) → Backoff G.World → TxHandler G → ℕ → Call G
full_call db retry_on back_off handler retries = record {
  rw = some db;
  retry_errors_matching_fn = some retry_on;
  retries = retries;
  back_off = some back_off;
  handler = some handler;
}

module _ (G : Gorm) where
  abbrev pub refused : String → G.World → TxResult G.World
  refused message w = record { info = no_retries; outcome = err (bad_parameter message); world = w }

  -- The checks on the arguments, in the source's order, and the loop.
  unfoldable pub do_tx : ℕ → G.Context → Call G → G.World → Option (TxResult G.World)
  unfolding do_tx_loop
  do_tx fuel ctx c w = elim c.rw [
    | none ↦ some (refused "dbw.DoTx: missing underlying db" w)
    | some db ↦ elim c.back_off [
      | none ↦ some (refused "dbw.DoTx: missing backoff" w)
      | some back_off ↦ elim c.handler [
        | none ↦ some (refused "dbw.DoTx: missing handler" w)
        | some handler ↦ elim c.retry_errors_matching_fn [
          | none ↦ some (refused "dbw.DoTx: missing retry errors matching function" w)
          | some retry_on ↦
              do_tx_loop G ctx db retry_on back_off handler fuel c.retries 1 no_retries w
        ]
      ]
    ]
  ]

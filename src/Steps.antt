-- ===== src/Steps.antt =====
-- The first step of a chain, at a state that it leaves as it is: `Q` holds of what the chain gives if it holds of
-- what the rest gives, and of a failure in that state.
use go_dbw.Prelude.{◌≡◌, refl, Bool, true, false, Option, none, some}
use go_dbw.Errors.{Outcome, ok, err, panic, Error}
use go_dbw.Action.{State, Action, ◌>>=◌, ◌>>◌, lift, fail_when, fail, pure}
use go_dbw.Lookup.{underlying}

module _ {W B : Type 0} (Q : Outcome B × State W → Type 0) (s : State W)
    (fails : (e : Error) → Q (err e, s)) (panics : Q (panic, s)) where
  pub fail_when-step :
      (c : Bool) (e : Error) (k : Action W B) → Q (k s) → Q ((fail_when c e >> k) s)
  unfolding ◌>>=◌ ◌>>◌ fail_when
  fail_when-step true e k q = fails e
  fail_when-step false e k q = q

  pub check-step :
      (r : Outcome (Unit {0})) (k : Action W B) → (r ≡ ok tt → Q (k s)) → Q ((lift r >> k) s)
  unfolding ◌>>=◌ ◌>>◌ lift
  check-step (ok tt) k q = q refl
  check-step (err e) k q = fails e
  check-step panic k q = panics

  module _ {A : Type 0} (f : A → Action W B) where
    pub lift-step : (r : Outcome A) → ((a : A) → r ≡ ok a → Q (f a s)) → Q ((lift r >>= f) s)
    unfolding ◌>>=◌ lift
    lift-step (ok a) q = q a refl
    lift-step (err e) q = fails e
    lift-step panic q = panics

    pub underlying-step :
        (e : Error) (o : Option A) → ((a : A) → Q (f a s)) → Q ((underlying e o >>= f) s)
    unfolding ◌>>=◌ underlying fail pure
    underlying-step e none q = fails e
    underlying-step e (some a) q = q a

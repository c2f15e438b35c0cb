-- ===== src/Inversion.antt =====
-- What an action that succeeds has passed: the first step of a chain, by the kind of that step.
use go_dbw.Prelude.{◌≡◌, refl, ℤ, String, Bool, true, false, Option, none, some, inl, inr}
use go_dbw.Errors.{Outcome-cases, Outcome, ok, err, panic, Error}
use go_dbw.Action.{
  State, Action, ◌>>=◌, ◌>>◌, lift, wrap, get, fail_on, fail_when, return_rows, fail, pure,
}
use go_dbw.Lookup.{underlying}

pub wrap-eq-ok : {A : Type 0} (op : String) (r : Outcome A) (a : A) → wrap op r ≡ ok a → r ≡ ok a
wrap-eq-ok op (ok b) a h = h
wrap-eq-ok op (err e) a h = cc
wrap-eq-ok op panic a h = cc

module _ {W B : Type 0} (s : State W) {b : B} where
  pub fail_when_passed :
      (c : Bool) (e : Error) (k : Action W B)
      → ((fail_when c e >> k) s).0 ≡ ok b
      → (c ≡ false) × ((k s).0 ≡ ok b)
  unfolding ◌>>=◌ ◌>>◌ fail_when
  fail_when_passed true e k h = cc
  fail_when_passed false e k h = (refl, h)

  pub fail_on_passed :
      (o : Option Error) (f : Error → Error) (k : Action W B)
      → ((fail_on o f >> k) s).0 ≡ ok b
      → (o ≡ none) × ((k s).0 ≡ ok b)
  unfolding ◌>>=◌ ◌>>◌ fail_on
  fail_on_passed none f k h = (refl, h)
  fail_on_passed (some e) f k h = cc

  pub lift_passed :
      (r : Outcome (Unit {0})) (k : Action W B)
      → ((lift r >> k) s).0 ≡ ok b
      → (r ≡ ok tt) × ((k s).0 ≡ ok b)
  unfolding ◌>>=◌ ◌>>◌ lift
  lift_passed (ok tt) k h = (refl, h)
  lift_passed (err e) k h = cc
  lift_passed panic k h = cc

  pub return_rows_passed :
      (n : ℤ) (k : Action W B)
      → ((return_rows n >> k) s).0 ≡ ok b
      → (k (record s { returned = n })).0 ≡ ok b
  unfolding ◌>>=◌ ◌>>◌ return_rows
  return_rows_passed n k h = h

  pub get_passed : (f : State W → Action W B) → ((get >>= f) s).0 ≡ ok b → (f s s).0 ≡ ok b
  unfolding ◌>>=◌ get
  get_passed f h = h

  module _ {A : Type 0} (f : A → Action W B) where
    pub lift_gave :
        (r : Outcome A) → ((lift r >>= f) s).0 ≡ ok b → (a : A) × (r ≡ ok a) × ((f a s).0 ≡ ok b)
    unfolding ◌>>=◌ lift
    lift_gave (ok a) h = (a, refl, h)
    lift_gave (err e) h = cc
    lift_gave panic h = cc

    pub underlying_gave :
        (e : Error) (o : Option A)
        → ((underlying e o >>= f) s).0 ≡ ok b
        → (a : A) × (o ≡ some a) × ((f a s).0 ≡ ok b)
    unfolding ◌>>=◌ underlying fail pure
    underlying_gave e (some a) h = (a, refl, h)
    underlying_gave e none h = cc

err-ne-ok : {B : Type 0} (e : Error) (b : B) → ◌≡◌ {A = Outcome B} (err e) (ok b) → ⊥
err-ne-ok e b h = cc

panic-ne-ok : {B : Type 0} (b : B) → ◌≡◌ {A = Outcome B} panic (ok b) → ⊥
panic-ne-ok b h = cc

-- The second step of a chain that succeeds has run.
pub then_gave :
    {W B : Type 0} (m : Action W (Unit {0})) (k : Action W B) (s : State W) (b : B)
    → ((m >> k) s).0 ≡ ok b
    → (t : State W) × (t ≡ (m s).1) × ((k t).0 ≡ ok b) × (((m >> k) s).1 ≡ (k t).1)
unfolding ◌>>=◌ ◌>>◌
then_gave m k s b h = elim (Outcome-cases (m s).0) [
  | inl (a, eq) ↦ ((m s).1, refl, rw (◌>>=◌, eq) at h, rw eq refl)
  | inr (inl (e, eq)) ↦ absurd (err-ne-ok _ _ (rw eq at h))
  | inr (inr eq) ↦ absurd (panic-ne-ok _ (rw eq at h))
]

-- ===== src/Progress.antt =====
-- How a chain goes on when its first step succeeds.
use go_dbw.Prelude.{◌≡◌, refl, Option, some}
use go_dbw.Errors.{Outcome, ok, Error}
use go_dbw.Reflect.{Value}
use go_dbw.Gorm.{Written}
use go_dbw.Action.{State, Action, ◌>>=◌, ◌>>◌, pure, fail, lift, get, finish}
use go_dbw.Lookup.{underlying}

module _ {W B : Type 0} (s : State W) where
  pub underlying-runs :
      {A : Type 0} (e : Error) (o : Option A) (a : A) (f : A → Action W B)
      → o ≡ some a
      → (underlying e o >>= f) s ≡ f a s
  unfolding ◌>>=◌ underlying fail pure
  underlying-runs e o a f h = rw h refl

  pub lift-runs :
      {A : Type 0} (r : Outcome A) (a : A) (f : A → Action W B)
      → r ≡ ok a
      → (lift r >>= f) s ≡ f a s
  unfolding ◌>>=◌ lift
  lift-runs r a f h = rw h refl

  pub check-runs : (r : Outcome (Unit {0})) (k : Action W B) → r ≡ ok tt → (lift r >> k) s ≡ k s
  unfolding ◌>>=◌ ◌>>◌ lift
  check-runs r k h = rw h refl

  pub get-runs : (f : State W → Action W B) → (get >>= f) s ≡ f s s
  unfolding ◌>>=◌ get
  get-runs f = refl

  pub finish-runs :
      (f : Value → W → Written W) (k : Written W → Action W B)
      → (finish f >>= k) s
        ≡ k (f s.resource s.world) (record s {
          resource = (f s.resource s.world).resource;
          world = (f s.resource s.world).world;
        })
  unfolding ◌>>=◌ finish
  finish-runs f k = refl

  -- A step that leaves some state.
  pub then-runs :
      (m : Action W (Unit {0})) (k : Action W B) (t : State W) → m s ≡ (ok tt, t) → (m >> k) s ≡ k t
  unfolding ◌>>=◌ ◌>>◌
  then-runs m k t h = rw h refl

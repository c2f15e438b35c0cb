-- ===== src/Action.antt =====
-- Operations as actions: they work on a state and give an outcome, and what was done before an error
-- or a panic stays done.
use go_dbw.Prelude.{ℤ, pos, String, Bool, true, false, Option, none, some, List, []}
use go_dbw.Errors.{Outcome, ok, err, panic, Error, errorf}
use go_dbw.Reflect.{Value}
use go_dbw.Options.{Callback}
use go_dbw.Gorm.{Written}

-- The world, the resource that the operation was given (it is a pointer, so that callbacks and gorm
-- write to it), what the pointer of `WithReturnRowsAffected` shows, and the package's two registries.
pub record State (W : Type 0) : Type 0 where
  pub world : W
  pub resource : Value
  pub rows_affected : Option ℤ
  pub returned : ℤ
  pub non_creatable : Option (List String)
  pub non_updatable : Option (List String)

abbrev pub Action : Type 0 → Type 0 → Type 0
Action W A = State W → Outcome A × State W

module _ {W A B : Type 0} where
  abbrev pub continue : Outcome A → (A → Action W B) → Action W B
  continue (ok a) f s = f a s
  continue (err e) f s = (err e, s)
  continue panic f s = (panic, s)

  infixl 5 ◌>>=◌
  unfoldable pub ◌>>=◌ : Action W A → (A → Action W B) → Action W B
  ◌>>=◌ m f s = continue (m s).0 f (m s).1

module _ {W B : Type 0} where
  infixl 5 ◌>>◌
  unfoldable pub ◌>>◌ : Action W (Unit {0}) → Action W B → Action W B
  m >> k = m >>= λ _. k

-- `fmt.Errorf("<op>: %w", err)` around a call that failed
abbrev pub wrap {ℓ} : {A : Type ℓ} → String → Outcome A → Outcome A
wrap op (ok a) = ok a
wrap op (err e) = err (errorf op [] e)
wrap op panic = panic

module _ {W A : Type 0} where
  unfoldable pub pure : A → Action W A
  pure a s = (ok a, s)

  unfoldable pub fail : Error → Action W A
  fail e s = (err e, s)

  unfoldable pub lift : Outcome A → Action W A
  lift r s = (r, s)

  unfoldable pub within : String → Action W A → Action W A
  within op m s = (wrap op (m s).0, (m s).1)

module _ {W : Type 0} where
  unfoldable pub get : Action W (State W)
  get s = (ok s, s)

  unfoldable pub fail_when : Bool → Error → Action W (Unit {0})
  fail_when true e s = (err e, s)
  fail_when false e s = (ok tt, s)

  unfoldable pub when : Bool → Action W (Unit {0}) → Action W (Unit {0})
  when true m = m
  when false m = pure tt

  -- Run a callback on the resource and the world.
  unfoldable pub call : Callback W → Action W (Unit {0})
  call fn s = let (r, v, w) = fn s.resource s.world in (r, record s { resource = v; world = w })

  -- A finisher of gorm: the world and the resource change, and the caller gets all that it left.
  unfoldable pub finish : (Value → W → Written W) → Action W (Written W)
  finish f s =
      let t = f s.resource s.world in (ok t, record s { resource = t.resource; world = t.world })

  -- `*opts.WithRowsAffected = n`
  unfoldable pub store_rows : ℤ → Action W (Unit {0})
  store_rows n s = (ok tt, record s { rows_affected = some n })

  -- From here on an error is returned with this count.
  unfoldable pub return_rows : ℤ → Action W (Unit {0})
  return_rows n s = (ok tt, record s { returned = n })

  -- An error that gorm reports, given its text by the caller.
  unfoldable pub fail_on : Option Error → (Error → Error) → Action W (Unit {0})
  fail_on none f s = (ok tt, s)
  fail_on (some e) f s = (err (f e), s)

-- `noRowsAffected` of rw.go
abbrev pub no_rows_affected : ℤ
no_rows_affected = pos 0

-- ===== src/Keeping.antt =====
-- Actions that keep an invariant `P` of the database.
pub mod Lookups
pub mod Writers
pub mod States
pub mod Updates
pub mod Creates
use go_dbw.Prelude.{
  ◌≡◌, refl, ℤ, String, Bool, true, false, Option, none, some, List, Option-cases, inl, inr,
  is_positive,
}
use go_dbw.Errors.{Outcome, ok, err, panic, Error, Outcome-cases}
use go_dbw.Reflect.{Value}
use go_dbw.Options.{Options, Callback}
use go_dbw.Gorm.{Resources, Vetter, OpType, Written}
use go_dbw.Action.{
  State, Action, ◌>>=◌, ◌>>◌, pure, lift, within, get, when, call, finish, fail_on, fail_when,
  return_rows, store_rows, fail,
}
use go_dbw.Lookup.{underlying, ignore_error, set_resource}
use go_dbw.Writing.{vet_for_write, before_write, after_write}

module _ {W : Type 0} (P : W → Type 0) where
  pub record Keeps {A : Type 0} (m : Action W A) : Type 0 where
    pub kept : (s : State W) → P s.world → P (m s).1.world

  -- The callbacks of the options keep it.
  pub record CallbacksKeep (opts : Options W) : Type 0 where
    pub before :
        (fn : Callback W)
        → opts.with_before_write ≡ some fn
        → (v : Value) (w : W) → P w
        → P (fn v w).2
    pub after :
        (fn : ℤ → Callback W)
        → opts.with_after_write ≡ some fn
        → (n : ℤ) (v : Value) (w : W) → P w
        → P (fn n v w).2

module _ {W : Type 0} {P : W → Type 0} where
  module _ {A B : Type 0} {m : Action W A} {f : A → Action W B} where
    pub >>=-Keeps : Keeps P m → ((a : A) → Keeps P (f a)) → Keeps P (m >>= f)
    unfolding ◌>>=◌
    >>=-Keeps h k = record {
      kept = λ s p. elim (Outcome-cases (m s).0) [
        | inl (a, eq) ↦ rw eq ((k a).kept (m s).1 (h.kept s p))
        | inr (inl (e, eq)) ↦ rw eq (h.kept s p)
        | inr (inr eq) ↦ rw eq (h.kept s p)
      ];
    }

  module _ {B : Type 0} {m : Action W (Unit {0})} {k : Action W B} where
    pub >>-Keeps : Keeps P m → Keeps P k → Keeps P (m >> k)
    unfolding ◌>>◌
    >>-Keeps h j = >>=-Keeps h λ _. j

  module _ {A : Type 0} where
    pub pure-Keeps : (a : A) → Keeps P (pure a)
    unfolding pure
    pure-Keeps a = record { kept = λ s p. p }

    pub lift-Keeps : (r : Outcome A) → Keeps P (lift r)
    unfolding lift
    lift-Keeps r = record { kept = λ s p. p }

    pub underlying-Keeps : (e : Error) (o : Option A) → Keeps P (underlying e o)
    unfolding underlying fail pure
    underlying-Keeps e none = record { kept = λ s p. p }
    underlying-Keeps e (some a) = record { kept = λ s p. p }

    pub within-Keeps : (op : String) {m : Action W A} → Keeps P m → Keeps P (within op m)
    unfolding within
    within-Keeps op h = record { kept = λ s p. h.kept s p }

  pub get-Keeps : Keeps P get
  unfolding get
  get-Keeps = record { kept = λ s p. p }

  pub return_rows-Keeps : (n : ℤ) → Keeps P (return_rows n)
  unfolding return_rows
  return_rows-Keeps n = record { kept = λ s p. p }

  pub fail_when-Keeps : (b : Bool) (e : Error) → Keeps P (fail_when b e)
  unfolding fail_when
  fail_when-Keeps true e = record { kept = λ s p. p }
  fail_when-Keeps false e = record { kept = λ s p. p }

  pub set_resource-Keeps : (v : Value) → Keeps P (set_resource v)
  unfolding set_resource
  set_resource-Keeps v = record { kept = λ s p. p }

  pub store_rows-Keeps : (n : ℤ) → Keeps P (store_rows n)
  unfolding store_rows
  store_rows-Keeps n = record { kept = λ s p. p }

  pub fail_on-Keeps : (o : Option Error) (f : Error → Error) → Keeps P (fail_on o f)
  unfolding fail_on
  fail_on-Keeps none f = record { kept = λ s p. p }
  fail_on-Keeps (some e) f = record { kept = λ s p. p }

  pub when-Keeps : (b : Bool) {m : Action W (Unit {0})} → Keeps P m → Keeps P (when b m)
  unfolding when
  when-Keeps true h = h
  when-Keeps false h = pure-Keeps tt

  pub ignore_error-Keeps : {m : Action W (Unit {0})} → Keeps P m → Keeps P (ignore_error m)
  unfolding ignore_error
  ignore_error-Keeps h = record { kept = λ s p. h.kept s p }

  pub call-Keeps :
      (fn : Callback W) → ((v : Value) (w : W) → P w → P (fn v w).2) → Keeps P (call fn)
  unfolding call
  call-Keeps fn h = record { kept = λ s p. h s.resource s.world p }

  pub finish-Keeps :
      (f : Value → W → Written W)
      → ((v : Value) (w : W) → P w → P (f v w).world)
      → Keeps P (finish f)
  unfolding finish
  finish-Keeps f h = record { kept = λ s p. h s.resource s.world p }

  pub before_write-Keeps :
      {opts : Options W}
      → CallbacksKeep P opts
      → (message : String) → Keeps P (before_write message opts)
  unfolding before_write
  before_write-Keeps {opts} calls message = elim (Option-cases opts.with_before_write) [
    | inl eq ↦ rw eq (pure-Keeps tt)
    | inr (fn, eq) ↦ rw eq (within-Keeps message (call-Keeps fn (calls.before fn eq)))
  ]

  pub after_write-Keeps :
      {opts : Options W}
      → CallbacksKeep P opts
      → (message : String) (n : ℤ) → Keeps P (after_write message opts n)
  unfolding after_write
  after_write-Keeps {opts} calls message n = elim (Option-cases opts.with_after_write) [
    | inl eq ↦ rw eq (pure-Keeps tt)
    | inr (fn, eq) ↦ rw eq (
        when-Keeps (is_positive n) (within-Keeps message (call-Keeps (fn n) (calls.after fn eq n))))
  ]

  pub vet_for_write-Keeps :
      (R : Resources W)
      → ((u : Value) (vet : Vetter W)
          → R.vet_for_write u ≡ some vet
          → (op : OpType) (masks nulls : List String) (v : Value) (w : W) → P w
          → P (vet op masks nulls v w).2)
      → (op : String) (op_type : OpType) (masks nulls : List String)
      → Keeps P (vet_for_write R op op_type masks nulls)
  unfolding vet_for_write within call
  vet_for_write-Keeps R h op op_type masks nulls = record {
    kept = λ s p. elim (Option-cases (R.vet_for_write s.resource)) [
      | inl eq ↦ rw (vet_for_write, eq) p
      | inr (vet, eq) ↦
          rw (vet_for_write, eq) (h s.resource vet eq op_type masks nulls s.resource s.world p)
    ];
  }

-- The first step of a chain, at a state that it leaves as it is.
module _ {W B : Type 0} (P : W → Type 0) (s : State W) where
  pub fail_when-then :
      (c : Bool) (e : Error) (k : Action W B)
      → P s.world
      → P (k s).1.world
      → P ((fail_when c e >> k) s).1.world
  unfolding ◌>>=◌ ◌>>◌ fail_when
  fail_when-then true e k p q = p
  fail_when-then false e k p q = q

  pub lift-then :
      (r : Outcome (Unit {0})) (k : Action W B)
      → P s.world
      → P (k s).1.world
      → P ((lift r >> k) s).1.world
  unfolding ◌>>=◌ ◌>>◌ lift
  lift-then (ok _) k p q = q
  lift-then (err e) k p q = p
  lift-then panic k p q = p

  module _ {A : Type 0} (f : A → Action W B) where
    pub lift->>= :
        (r : Outcome A)
        → P s.world
        → ((a : A) → r ≡ ok a → P (f a s).1.world)
        → P ((lift r >>= f) s).1.world
    unfolding ◌>>=◌ lift
    lift->>= (ok a) p q = q a refl
    lift->>= (err e) p q = p
    lift->>= panic p q = p

    pub underlying->>= :
        (e : Error) (o : Option A)
        → P s.world
        → ((a : A) → P (f a s).1.world)
        → P ((underlying e o >>= f) s).1.world
    unfolding ◌>>=◌ underlying fail pure
    underlying->>= e none p q = p
    underlying->>= e (some a) p q = q a

  pub get->>= : (f : State W → Action W B) → P (f s s).1.world → P ((get >>= f) s).1.world
  unfolding ◌>>=◌ get
  get->>= f q = q

  pub return_rows-then :
      (n : ℤ) (k : Action W B)
      → P (k (record s { returned = n })).1.world
      → P ((return_rows n >> k) s).1.world
  unfolding ◌>>=◌ ◌>>◌ return_rows
  return_rows-then n k q = q

-- ===== src/Once.antt =====
-- How many writes an action makes. `writes` counts the writes that the database has seen.
pub mod Reads
pub mod Writes
pub mod Sends
pub mod Batches
pub mod Vetoed
use go_dbw.Prelude.{
  ◌≡◌, refl, sym, ◌∙◌, ap, ℕ, ◌+◌, ◌≤◌, ℤ, String, Bool, true, false, Option, none, some, List,
  Option-cases, Bool-cases, inl, inr, arith, is_positive,
}
use go_dbw.Errors.{Outcome, Outcome-cases, ok, err, panic, Error}
use go_dbw.Prelude.Dict.{Dict}
use go_dbw.Common.{Update}
use go_dbw.Reflect.{Value}
use go_dbw.Options.{Options, Callback}
use go_dbw.Gorm.{Gorm, Resources, Vetter, OpType, Written}
use go_dbw.Action.{
  State, Action, continue, ◌>>=◌, ◌>>◌, pure, fail, lift, wrap, within, get, when, call, finish,
  fail_on, fail_when, return_rows, store_rows,
}
use go_dbw.Lookup.{underlying, set_resource, ignore_error}
use go_dbw.Writing.{vet_for_write, before_write, after_write}

-- The writes of gorm count one, its reads and what the types do to be vetted count none. Nothing is said of
-- `CreateInBatches`.
pub record Counting (G : Gorm) (R : Resources G.World) (writes : G.World → ℕ) : Type 0 where
  pub of_create :
      (db : G.Db) (v : Value) (w : G.World) → writes (G.create db v w).world ≡ writes w + 1
  pub of_updates :
      (db : G.Db) (us : Dict Update) (v : Value) (w : G.World)
      → writes (G.updates db us v w).world ≡ writes w + 1
  pub of_delete :
      (db : G.Db) (v : Value) (w : G.World) → writes (G.delete db v w).world ≡ writes w + 1
  pub of_first : (db : G.Db) (v : Value) (w : G.World) → writes (G.first db v w).world ≡ writes w
  pub of_find : (db : G.Db) (v : Value) (w : G.World) → writes (G.find db v w).world ≡ writes w
  pub of_vet :
      (u : Value) (vet : Vetter G.World)
      → R.vet_for_write u ≡ some vet
      → (op : OpType) (masks nulls : List String) (v : Value) (w : G.World)
      → writes (vet op masks nulls v w).2 ≡ writes w

module _ {W : Type 0} (writes : W → ℕ) where
  -- The callbacks of the options do not write.
  pub record Quiet (opts : Options W) : Type 0 where
    pub before :
        (fn : Callback W)
        → opts.with_before_write ≡ some fn
        → (v : Value) (w : W) → writes (fn v w).2 ≡ writes w
    pub after :
        (fn : ℤ → Callback W)
        → opts.with_after_write ≡ some fn
        → (n : ℤ) (v : Value) (w : W) → writes (fn n v w).2 ≡ writes w

  -- At most `b` writes, and `b` if it succeeds.
  pub record Costs {A : Type 0} (b : ℕ) (m : Action W A) : Type 0 where
    pub at_most : (s : State W) → writes (m s).1.world ≤ writes s.world + b
    pub exactly : (s : State W) (a : A) → (m s).0 ≡ ok a → writes (m s).1.world ≡ writes s.world + b

  -- No write.
  pub record Free {A : Type 0} (m : Action W A) : Type 0 where
    pub kept : (s : State W) → writes (m s).1.world ≡ writes s.world

module _ {W : Type 0} {writes : W → ℕ} where
  module _ {A B : Type 0} {m : Action W A} {f : A → Action W B} where
    pub >>=-Free : Free writes m → ((a : A) → Free writes (f a)) → Free writes (m >>= f)
    unfolding ◌>>=◌
    >>=-Free h k = record {
      kept = λ s. elim (Outcome-cases (m s).0) [
        | inl (a, eq) ↦ rw eq ((k a).kept (m s).1 ∙ h.kept s)
        | inr (inl (e, eq)) ↦ rw eq (h.kept s)
        | inr (inr eq) ↦ rw eq (h.kept s)
      ];
    }

    module _ {b : ℕ} where
      pub >>=-Costs : Free writes m → ((a : A) → Costs writes b (f a)) → Costs writes b (m >>= f)
      unfolding ◌>>=◌
      >>=-Costs h k = record {
        at_most = λ s.
            let same = h.kept s in
            elim (Outcome-cases (m s).0) [
              | inl (a, eq) ↦ let le = (k a).at_most (m s).1 in rw eq (omega arith)
              | inr (inl (e, eq)) ↦ rw eq (omega arith)
              | inr (inr eq) ↦ rw eq (omega arith)
            ];
        exactly = λ s c. elim (Outcome-cases (m s).0) [
          | inl (a, eq) ↦ rw eq (λ h'. (k a).exactly (m s).1 c h' ∙ ap (λ n. n + b) (h.kept s))
          | inr (inl (e, eq)) ↦ rw eq (λ h'. cc)
          | inr (inr eq) ↦ rw eq (λ h'. cc)
        ];
      }

      pub >>=-Costs_first :
          Costs writes b m → ((a : A) → Free writes (f a)) → Costs writes b (m >>= f)
      unfolding ◌>>=◌
      >>=-Costs_first h k = record {
        at_most = λ s. elim (Outcome-cases (m s).0) [
          | inl (a, eq) ↦ rw (eq, (k a).kept (m s).1) (h.at_most s)
          | inr (inl (e, eq)) ↦ rw eq (h.at_most s)
          | inr (inr eq) ↦ rw eq (h.at_most s)
        ];
        exactly = λ s c. elim (Outcome-cases (m s).0) [
          | inl (a, eq) ↦ rw (eq, (k a).kept (m s).1) (λ h'. h.exactly s a eq)
          | inr (inl (e, eq)) ↦ rw eq (λ h'. cc)
          | inr (inr eq) ↦ rw eq (λ h'. cc)
        ];
      }

  module _ {B : Type 0} {m : Action W (Unit {0})} {k : Action W B} where
    pub >>-Free : Free writes m → Free writes k → Free writes (m >> k)
    unfolding ◌>>◌
    >>-Free h j = >>=-Free h λ _. j

    module _ {b : ℕ} where
      pub >>-Costs : Free writes m → Costs writes b k → Costs writes b (m >> k)
      unfolding ◌>>◌
      >>-Costs h j = >>=-Costs h λ _. j

  module _ {A : Type 0} where
    pub pure-Free : (a : A) → Free writes (pure a)
    unfolding pure
    pure-Free a = record { kept = λ s. refl }

    pub lift-Free : (r : Outcome A) → Free writes (lift r)
    unfolding lift
    lift-Free r = record { kept = λ s. refl }

    pub underlying-Free : (e : Error) (o : Option A) → Free writes (underlying e o)
    unfolding underlying fail pure
    underlying-Free e none = record { kept = λ s. refl }
    underlying-Free e (some a) = record { kept = λ s. refl }

    pub within-Free : (op : String) {m : Action W A} → Free writes m → Free writes (within op m)
    unfolding within
    within-Free op h = record { kept = λ s. h.kept s }

  pub get-Free : Free writes get
  unfolding get
  get-Free = record { kept = λ s. refl }

  pub set_resource-Free : (v : Value) → Free writes (set_resource v)
  unfolding set_resource
  set_resource-Free v = record { kept = λ s. refl }

  pub return_rows-Free : (n : ℤ) → Free writes (return_rows n)
  unfolding return_rows
  return_rows-Free n = record { kept = λ s. refl }

  pub store_rows-Free : (n : ℤ) → Free writes (store_rows n)
  unfolding store_rows
  store_rows-Free n = record { kept = λ s. refl }

  pub fail_when-Free : (b : Bool) (e : Error) → Free writes (fail_when b e)
  unfolding fail_when
  fail_when-Free true e = record { kept = λ s. refl }
  fail_when-Free false e = record { kept = λ s. refl }

  pub fail_on-Free : (o : Option Error) (f : Error → Error) → Free writes (fail_on o f)
  unfolding fail_on
  fail_on-Free none f = record { kept = λ s. refl }
  fail_on-Free (some e) f = record { kept = λ s. refl }

  pub when-Free : (b : Bool) {m : Action W (Unit {0})} → Free writes m → Free writes (when b m)
  unfolding when pure
  when-Free true h = h
  when-Free false h = pure-Free tt

  pub ignore_error-Free : {m : Action W (Unit {0})} → Free writes m → Free writes (ignore_error m)
  unfolding ignore_error
  ignore_error-Free h = record { kept = λ s. h.kept s }

  pub call-Free :
      (fn : Callback W)
      → ((v : Value) (w : W) → writes (fn v w).2 ≡ writes w)
      → Free writes (call fn)
  unfolding call
  call-Free fn h = record { kept = λ s. h s.resource s.world }

  pub finish-Free :
      (f : Value → W → Written W)
      → ((v : Value) (w : W) → writes (f v w).world ≡ writes w)
      → Free writes (finish f)
  unfolding finish
  finish-Free f h = record { kept = λ s. h s.resource s.world }

  -- A finisher that writes once.
  pub finish-Costs :
      (f : Value → W → Written W)
      → ((v : Value) (w : W) → writes (f v w).world ≡ writes w + 1)
      → Costs writes 1 (finish f)
  unfolding finish
  finish-Costs f h = record {
    at_most = λ s. let eq = h s.resource s.world in omega arith;
    exactly = λ s a e. h s.resource s.world;
  }

  pub before_write-Free :
      {opts : Options W}
      → Quiet writes opts
      → (message : String) → Free writes (before_write message opts)
  unfolding before_write
  before_write-Free {opts} quiet message = elim (Option-cases opts.with_before_write) [
    | inl eq ↦ rw eq (pure-Free tt)
    | inr (fn, eq) ↦ rw eq (within-Free message (call-Free fn (quiet.before fn eq)))
  ]

  pub after_write-Free :
      {opts : Options W}
      → Quiet writes opts
      → (message : String) (n : ℤ) → Free writes (after_write message opts n)
  unfolding after_write
  after_write-Free {opts} quiet message n = elim (Option-cases opts.with_after_write) [
    | inl eq ↦ rw eq (pure-Free tt)
    | inr (fn, eq) ↦
        rw eq
          (when-Free (is_positive n) (within-Free message (call-Free (fn n) (quiet.after fn eq n))))
  ]

  pub vet_for_write-Free :
      (R : Resources W)
      → ((u : Value) (vet : Vetter W)
          → R.vet_for_write u ≡ some vet
          → (op : OpType) (masks nulls : List String) (v : Value) (w : W)
          → writes (vet op masks nulls v w).2 ≡ writes w)
      → (op : String) (op_type : OpType) (masks nulls : List String)
      → Free writes (vet_for_write R op op_type masks nulls)
  unfolding vet_for_write within call
  vet_for_write-Free R h op op_type masks nulls = record {
    kept = λ s. elim (Option-cases (R.vet_for_write s.resource)) [
      | inl eq ↦ rw (vet_for_write, eq) refl
      | inr (vet, eq) ↦
          rw (vet_for_write, eq) (h s.resource vet eq op_type masks nulls s.resource s.world)
    ];
  }

-- ===== src/Keeping/States.antt =====
-- Actions that keep a property of the whole state, the resource included.
use go_dbw.Prelude.{
  ◌≡◌, Bool, true, false, String, Option, none, some, List, Option-cases, inl, inr,
}
use go_dbw.Errors.{Outcome, Error, Outcome-cases}
use go_dbw.Reflect.{Value}
use go_dbw.Options.{Options, Callback}
use go_dbw.Gorm.{Resources, Vetter, OpType}
use go_dbw.Action.{
  State, Action, ◌>>=◌, ◌>>◌, pure, fail, fail_when, fail_on, lift, within, get, when, call,
}
use go_dbw.Lookup.{underlying}
use go_dbw.Writing.{vet_for_write, before_write}

module _ {W : Type 0} (I : State W → Type 0) where
  pub record Stays {A : Type 0} (m : Action W A) : Type 0 where
    pub kept : (s : State W) → I s → I (m s).1

module _ {W : Type 0} {I : State W → Type 0} where
  module _ {A B : Type 0} {m : Action W A} {f : A → Action W B} where
    pub >>=-Stays : Stays I m → ((a : A) → Stays I (f a)) → Stays I (m >>= f)
    unfolding ◌>>=◌
    >>=-Stays h k = record {
      kept = λ s p. elim (Outcome-cases (m s).0) [
        | inl (a, eq) ↦ rw eq ((k a).kept (m s).1 (h.kept s p))
        | inr (inl (e, eq)) ↦ rw eq (h.kept s p)
        | inr (inr eq) ↦ rw eq (h.kept s p)
      ];
    }

  module _ {B : Type 0} {m : Action W (Unit {0})} {k : Action W B} where
    pub >>-Stays : Stays I m → Stays I k → Stays I (m >> k)
    unfolding ◌>>◌
    >>-Stays h j = >>=-Stays h λ _. j

  pub lift-Stays : {A : Type 0} (r : Outcome A) → Stays I (lift r)
  unfolding lift
  lift-Stays r = record { kept = λ s p. p }

  pub pure-Stays : {A : Type 0} (a : A) → Stays I (pure a)
  unfolding pure
  pure-Stays a = record { kept = λ s p. p }

  pub underlying-Stays : {A : Type 0} (e : Error) (o : Option A) → Stays I (underlying e o)
  unfolding underlying fail pure
  underlying-Stays e none = record { kept = λ s p. p }
  underlying-Stays e (some a) = record { kept = λ s p. p }

  pub fail_when-Stays : (b : Bool) (e : Error) → Stays I (fail_when b e)
  unfolding fail_when
  fail_when-Stays true e = record { kept = λ s p. p }
  fail_when-Stays false e = record { kept = λ s p. p }

  pub fail_on-Stays : (o : Option Error) (f : Error → Error) → Stays I (fail_on o f)
  unfolding fail_on
  fail_on-Stays none f = record { kept = λ s p. p }
  fail_on-Stays (some e) f = record { kept = λ s p. p }

  pub get-Stays : Stays I get
  unfolding get
  get-Stays = record { kept = λ s p. p }

  pub when-Stays : (b : Bool) {m : Action W (Unit {0})} → Stays I m → Stays I (when b m)
  unfolding when pure
  when-Stays true h = h
  when-Stays false h = record { kept = λ s p. p }

  -- A callback that keeps it in every state.
  pub vet_for_write-Stays :
      (R : Resources W)
      → ((u : Value) (vet : Vetter W)
          → R.vet_for_write u ≡ some vet
          → (op : OpType) (masks nulls : List String) (s : State W) → I s
          → I (record s {
            resource = (vet op masks nulls s.resource s.world).1;
            world = (vet op masks nulls s.resource s.world).2;
          }))
      → (op : String) (op_type : OpType) (masks nulls : List String)
      → Stays I (vet_for_write R op op_type masks nulls)
  unfolding vet_for_write within call
  vet_for_write-Stays R h op op_type masks nulls = record {
    kept = λ s p. elim (Option-cases (R.vet_for_write s.resource)) [
      | inl eq ↦ rw (vet_for_write, eq) p
      | inr (vet, eq) ↦ rw (vet_for_write, eq) (h s.resource vet eq op_type masks nulls s p)
    ];
  }

  pub before_write-Stays :
      (opts : Options W)
      → ((fn : Callback W)
          → opts.with_before_write ≡ some fn
          → (s : State W) → I s
          → I (record s {
            resource = (fn s.resource s.world).1;
            world = (fn s.resource s.world).2;
          }))
      → (message : String) → Stays I (before_write message opts)
  unfolding before_write within call pure
  before_write-Stays opts h message = elim (Option-cases opts.with_before_write) [
    | inl eq ↦ rw eq (record { kept = λ s p. p })
    | inr (fn, eq) ↦ rw eq (record { kept = λ s p. h fn eq s p })
  ]

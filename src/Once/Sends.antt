-- ===== src/Once/Sends.antt =====
-- What an action that starts with so many items writes.
use go_dbw.Prelude.{◌≡◌, ◌∙◌, ℕ, ◌+◌, ◌≤◌, none, inl, inr, arith}
use go_dbw.Errors.{ok, Error, Outcome-cases}
use go_dbw.Reflect.{Value, len}
use go_dbw.Gorm.{Written}
use go_dbw.Action.{State, Action, ◌>>=◌, ◌>>◌, finish, fail_on}
use go_dbw.Inversion.{fail_on_passed}
use go_dbw.Keeping.States.{Stays}
use go_dbw.Once.{Free, >>-Free, fail_on-Free}

module _ {W : Type 0} (writes : W → ℕ) (n m : ℕ) where
  -- The slice has `n` items, and the database has seen `m` writes.
  abbrev pub Sized : State W → Type 0
  Sized s = (len s.resource ≡ n) × (writes s.world ≡ m)

  -- From there at most `b` writes are made, and `b` for a success.
  pub record Sends {A : Type 0} (b : ℕ) (act : Action W A) : Type 0 where
    pub at_most : (s : State W) → Sized s → writes (act s).1.world ≤ m + b
    pub exactly :
        (s : State W) → Sized s → (a : A) → (act s).0 ≡ ok a → writes (act s).1.world ≡ m + b

module _ {W : Type 0} {writes : W → ℕ} {n m b : ℕ} where
  module _ {A B : Type 0} {act : Action W A} {f : A → Action W B} where
    pub >>=-Sends :
        Stays (Sized writes n m) act
        → ((a : A) → Sends writes n m b (f a))
        → Sends writes n m b (act >>= f)
    unfolding ◌>>=◌
    >>=-Sends h k = record {
      at_most = λ s p.
          let (_, same) = h.kept s p in
          elim (Outcome-cases (act s).0) [
            | inl (a, eq) ↦ rw eq ((k a).at_most (act s).1 (h.kept s p))
            | inr (inl (e, eq)) ↦ rw eq (omega arith)
            | inr (inr eq) ↦ rw eq (omega arith)
          ];
      exactly = λ s p c. elim (Outcome-cases (act s).0) [
        | inl (a, eq) ↦ rw eq ((k a).exactly (act s).1 (h.kept s p) c)
        | inr (inl (e, eq)) ↦ rw eq (λ h'. cc)
        | inr (inr eq) ↦ rw eq (λ h'. cc)
      ];
    }

  pub >>-Sends :
      {B : Type 0} {act : Action W (Unit {0})} {k : Action W B}
      → Stays (Sized writes n m) act
      → Sends writes n m b k
      → Sends writes n m b (act >> k)
  unfolding ◌>>◌
  >>-Sends h k = >>=-Sends h λ _. k

  -- A finisher and its error, before steps that do not write.
  pub sent-Sends :
      (f : Value → W → Written W) (g : Error → Error) (k : Written W → Action W (Unit {0}))
      → ((v : Value) (w : W)
          → len v ≡ n
          → writes w ≡ m
          → (writes (f v w).world ≤ m + b) × ((f v w).error ≡ none → writes (f v w).world ≡ m + b))
      → ((t : Written W) → Free writes (k t))
      → Sends writes n m b (finish f >>= λ t. fail_on t.error g >> k t)
  unfolding ◌>>=◌ finish
  sent-Sends f g k law free = record {
    at_most = λ s (l, p).
        let (le, _) = law s.resource s.world l p in
        let t = f s.resource s.world in
        rw
          ((>>-Free (fail_on-Free t.error g) (free t)).kept
            (record s { resource = t.resource; world = t.world }))
          le;
    exactly = λ s (l, p) a done.
        let (_, eq) = law s.resource s.world l p in
        let t = f s.resource s.world in
        let s1 : State W = record s { resource = t.resource; world = t.world } in
        let (no_error, _) = fail_on_passed s1 t.error g (k t) done in
        (>>-Free (fail_on-Free t.error g) (free t)).kept s1 ∙ eq no_error;
  }

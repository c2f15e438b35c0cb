-- ===== src/Once/Vetoed.antt =====
-- Writes that a resource or a caller vetoes: `VetForWrite`, and the callback before the write.
use go_dbw.Prelude.{
  ◌≡◌, ◌≢◌, refl, ap, ◌∙◌, ℕ, ℤ, String, Bool, false, not, Option, some, List, [], ◌∷◌, inl, inr,
}
use go_dbw.Errors.{ok, err, Error, Outcome-cases}
use go_dbw.Reflect.{Value, Fields, ptr, struct}
use go_dbw.Common.Intersection.{Slice}
use go_dbw.Options.{Options, Setter, Callback, get_opts}
use go_dbw.Gorm.{Gorm, Resources, Vetter, OpType}
use go_dbw.Action.{State, Action, ◌>>=◌, ◌>>◌, get, return_rows, within, when, call}
use go_dbw.Clear.{set_fields_to_nil, clear_value, clear}
use go_dbw.Inversion.{wrap-eq-ok}
use go_dbw.Lookup.{set_resource}
use go_dbw.Registry.{non_creatable_fields}
use go_dbw.Writing.{vet_for_write, before_write}
use go_dbw.Create.{prepare_create, create}
use go_dbw.Update.{prepare_update, update}
use go_dbw.Delete.{prepare_delete, delete}
use go_dbw.Keeping.States.{Stays, lift-Stays, get-Stays, underlying-Stays, fail_when-Stays}
use go_dbw.Once.{Free, return_rows-Free}

-- Clearing a struct behind a pointer leaves it a struct of its type.
cleared_struct :
    (t : String) (fs : Fields) (names : List String)
    → (fs' : Fields) × (set_fields_to_nil (ptr (struct t fs)) names ≡ ptr (struct t fs'))
unfolding set_fields_to_nil clear_value clear
cleared_struct t fs [] = (_, refl)
cleared_struct t fs (n ∷ ns) = (_, refl)

module _ {W : Type 0} (writes : W → ℕ) where
  -- From a state with `I` the action never succeeds, and it leaves `m` writes.
  record Never {A : Type 0} (I : State W → Type 0) (m : ℕ) (act : Action W A) : Type 0 where
    fails : (s : State W) → I s → (a : A) → (act s).0 ≢ ok a
    kept : (s : State W) → I s → writes (act s).1.world ≡ m

  -- A callback that always returns an error, and does not write.
  pub record Refuses (fn : Callback W) : Type 0 where
    pub error : Value → W → Error
    pub fails : (v : Value) (w : W) → (fn v w).0 ≡ err (error v w)
    pub kept : (v : Value) (w : W) → writes (fn v w).2 ≡ writes w

  -- Pointers to the structs of one type are vetted, and are refused, without a write.
  pub record Vetoes (R : Resources W) (t : String) : Type 0 where
    pub vetter : Vetter W
    pub vets : (fs : Fields) → R.vet_for_write (ptr (struct t fs)) ≡ some vetter
    pub refuses :
        (op : OpType) (masks nulls : List String) (fs : Fields) (w : W)
        → (vetter op masks nulls (ptr (struct t fs)) w).0 ≢ ok tt
    pub kept :
        (op : OpType) (masks nulls : List String) (fs : Fields) (w : W)
        → writes (vetter op masks nulls (ptr (struct t fs)) w).2 ≡ writes w

  -- The resource is a pointer to a struct of the type, and there are `m` writes.
  abbrev Typed : String → ℕ → State W → Type 0
  Typed t m s = ((fs : Fields) × (s.resource ≡ ptr (struct t fs))) × (writes s.world ≡ m)

  abbrev Seen : ℕ → State W → Type 0
  Seen m s = writes s.world ≡ m

module _ {W : Type 0} {writes : W → ℕ} where
  module _ {I : State W → Type 0} {m : ℕ} {B : Type 0} where
    module _ {A : Type 0} {act : Action W A} where
      >>=-Never : (f : A → Action W B) → Never writes I m act → Never writes I m (act >>= f)
      unfolding ◌>>=◌
      >>=-Never f h = record {
        fails = λ s p b. elim (Outcome-cases (act s).0) [
          | inl (a, eq) ↦ absurd (h.fails s p a eq)
          | inr (inl (e, eq)) ↦ rw eq (λ bad. cc)
          | inr (inr eq) ↦ rw eq (λ bad. cc)
        ];
        kept = λ s p. elim (Outcome-cases (act s).0) [
          | inl (a, eq) ↦ absurd (h.fails s p a eq)
          | inr (inl (e, eq)) ↦ rw eq (h.kept s p)
          | inr (inr eq) ↦ rw eq (h.kept s p)
        ];
      }

    get->>=-Never :
        {f : State W → Action W B}
        → ((u : State W) → I u → Never writes I m (f u))
        → Never writes I m (get >>= f)
    unfolding ◌>>=◌ get
    get->>=-Never k = record { fails = λ s p. (k s p).fails s p; kept = λ s p. (k s p).kept s p }

    module _ (seen : (s : State W) → I s → writes s.world ≡ m) {A : Type 0} {act : Action W A} where
      Stays->>= :
          {f : A → Action W B}
          → Stays I act
          → ((a : A) → Never writes I m (f a))
          → Never writes I m (act >>= f)
      unfolding ◌>>=◌
      Stays->>= {f} h k = record {
        fails = λ s p b. elim (Outcome-cases (act s).0) [
          | inl (a, eq) ↦ rw eq ((k a).fails (act s).1 (h.kept s p) b)
          | inr (inl (e, eq)) ↦ rw eq (λ bad. cc)
          | inr (inr eq) ↦ rw eq (λ bad. cc)
        ];
        kept = λ s p. elim (Outcome-cases (act s).0) [
          | inl (a, eq) ↦ rw eq ((k a).kept (act s).1 (h.kept s p))
          | inr (inl (e, eq)) ↦ rw eq (seen (act s).1 (h.kept s p))
          | inr (inr eq) ↦ rw eq (seen (act s).1 (h.kept s p))
        ];
      }

  module _ {I : State W → Type 0} {m : ℕ} {B : Type 0} {act : Action W (Unit {0})} where
    >>-Never : (k : Action W B) → Never writes I m act → Never writes I m (act >> k)
    unfolding ◌>>◌
    >>-Never k h = >>=-Never (λ _. k) h

    Stays->> :
        (seen : (s : State W) → I s → writes s.world ≡ m) {k : Action W B}
        → Stays I act
        → Never writes I m k
        → Never writes I m (act >> k)
    unfolding ◌>>◌
    Stays->> seen h j = Stays->>= seen h λ _. j

  Free-Stays : {A : Type 0} {act : Action W A} {m : ℕ} → Free writes act → Stays (Seen writes m) act
  Free-Stays h = record { kept = λ s p. h.kept s ∙ p }

  before_write-Never :
      (opts : Options W) (fn : Callback W) (m : ℕ)
      → opts.with_before_write ≡ some fn
      → Refuses writes fn
      → (message : String) → Never writes (Seen writes m) m (before_write message opts)
  unfolding before_write within call
  before_write-Never opts fn m eq r message = rw eq (record {
    fails = λ s p a. rw (r.fails s.resource s.world) (λ bad. cc);
    kept = λ s p. r.kept s.resource s.world ∙ p;
  })

module _ {W : Type 0} (writes : W → ℕ) where
  module _ (t : String) (m : ℕ) where
    return_rows-Typed : (n : ℤ) → Stays (Typed writes t m) (return_rows n)
    unfolding return_rows
    return_rows-Typed n = record { kept = λ s p. p }

    set_cleared-Typed :
        (u : State W) (names : List String)
        → Typed writes t m u
        → Stays (Typed writes t m) (set_resource (set_fields_to_nil u.resource names))
    unfolding set_resource
    set_cleared-Typed u names ((fs, is_t), _) = record {
      kept = λ s (_, p).
          let (fs', cleared) = cleared_struct t fs names in
          ((fs', ap (λ v. set_fields_to_nil v names) is_t ∙ cleared), p);
    }

    vetted-Never :
        (R : Resources W) (skip : Bool)
        → Vetoes writes R t
        → skip ≡ false
        → (op : String) (op_type : OpType) (masks nulls : List String)
        → Never writes
            (Typed writes t m)
            m
            (when (not skip) (vet_for_write R op op_type masks nulls))
    unfolding vet_for_write within call when
    vetted-Never R skip v vetted op op_type masks nulls = rw vetted (record {
      fails = λ s ((fs, is_t), p) a.
          rw (vet_for_write, is_t, v.vets fs, within, call, is_t)
            (λ done. v.refuses op_type masks nulls fs s.world (wrap-eq-ok op _ a done));
      kept = λ s ((fs, is_t), p).
          rw (vet_for_write, is_t, v.vets fs, within, call, is_t)
            (v.kept op_type masks nulls fs s.world ∙ p);
    })

module _ (G : Gorm) (R : Resources G.World) (writes : G.World → ℕ) (ctx : G.Context)
    (conn : Option G.Db) (opt : List (Option (Setter G.World))) where
  module _ (t : String) (m : ℕ) (v : Vetoes writes R t)
      (vetted : (get_opts opt).with_skip_vet_for_write ≡ false) where
    seen : (s : State G.World) → Typed writes t m s → writes s.world ≡ m
    seen s p = p.1

    create-Never : Never writes (Typed writes t m) m (create G R ctx conn opt)
    unfolding create prepare_create
    create-Never = Stays->>= seen (underlying-Stays _ conn) λ db. Stays->>= seen get-Stays λ s.
        Stays->> seen (fail_when-Stays _ _) (
          Stays->> seen (lift-Stays _) (
            >>=-Never _ (
              get->>=-Never λ u typed.
                Stays->> seen (set_cleared-Typed writes t m u (non_creatable_fields u) typed)
                  (>>-Never _ (vetted-Never writes t m R _ v vetted _ _ _ _)))))

    update-Never :
        (masks nulls : Slice)
        → Never writes (Typed writes t m) m (update G R ctx conn masks nulls opt)
    unfolding update prepare_update
    update-Never masks nulls = Stays->> seen (return_rows-Typed writes t m _) (
        Stays->>= seen (underlying-Stays _ conn) λ db. Stays->>= seen get-Stays λ s.
          Stays->> seen (fail_when-Stays _ _) (
            Stays->> seen (lift-Stays _) (
              Stays->> seen (fail_when-Stays _ _) (
                Stays->>= seen (lift-Stays _) λ c.
                  Stays->> seen (lift-Stays _)
                    (>>=-Never _ (>>-Never _ (vetted-Never writes t m R _ v vetted _ _ _ _)))))))

  -- `Create` and `Update` of a pointer to a struct of a type that `VetForWrite` always refuses, without a write of
  -- its own, never succeed and write nothing, if the options do not skip the vetting.
  pub vetoed_never_written :
      (t : String) (fs : Fields) (masks nulls : Slice) (s : State G.World)
      → s.resource ≡ ptr (struct t fs)
      → Vetoes writes R t
      → (get_opts opt).with_skip_vet_for_write ≡ false
      → ((create G R ctx conn opt s).0 ≢ ok tt)
        × (writes (create G R ctx conn opt s).1.world ≡ writes s.world)
        × ((update G R ctx conn masks nulls opt s).0 ≢ ok tt)
        × (writes (update G R ctx conn masks nulls opt s).1.world ≡ writes s.world)
  vetoed_never_written t fs masks nulls s is_t v vetted =
      let m : ℕ = writes s.world in
      let typed : Typed writes t m s = ((fs, is_t), refl) in
      let c = create-Never t m v vetted in
      let u = update-Never t m v vetted masks nulls in
      (c.fails s typed tt, c.kept s typed, u.fails s typed tt, u.kept s typed)

  delete-Never :
      (fn : Callback G.World) (m : ℕ)
      → (get_opts opt).with_before_write ≡ some fn
      → Refuses writes fn
      → Never writes (Seen writes m) m (delete G R ctx conn opt)
  unfolding delete prepare_delete
  delete-Never fn m at_fn r =
      let at : (s : State G.World) → Seen writes m s → writes s.world ≡ m = λ s p. p in
      Stays->> at (Free-Stays (return_rows-Free _)) (
        Stays->>= at (underlying-Stays _ conn) λ db. Stays->>= at get-Stays λ s.
          Stays->> at (fail_when-Stays _ _) (
            Stays->> at (lift-Stays _) (
              >>=-Never _ (
                Stays->>= at get-Stays λ s. Stays->>= at (lift-Stays _) λ schema.
                  Stays->> at (lift-Stays _)
                    (>>-Never _ (before_write-Never (get_opts opt) fn m at_fn r _))))))

  -- A callback before the write that always fails, without a write of its own, keeps `Delete` from succeeding and from writing.
  pub refused_never_deleted :
      (fn : Callback G.World) (s : State G.World)
      → (get_opts opt).with_before_write ≡ some fn
      → Refuses writes fn
      → ((delete G R ctx conn opt s).0 ≢ ok tt)
        × (writes (delete G R ctx conn opt s).1.world ≡ writes s.world)
  refused_never_deleted fn s at_fn r =
      let d = delete-Never fn (writes s.world) at_fn r in (d.fails s refl tt, d.kept s refl)

-- ===== src/Keeping/Creates.antt =====
-- `Create` and an invariant that creates of cleared resources keep.
use go_dbw.Prelude.{
  ◌≡◌, sym, String, false, Bool-cases, Option, some, List, [], not, is_empty, inl, inr,
}
use go_dbw.Errors.{Outcome-cases}
use go_dbw.Reflect.{Value, Fields, ptr, struct}
use go_dbw.Clear.{set_fields_to_nil}
use go_dbw.Clear.Laws.{IsCleared, set_fields_to_nil-IsCleared}
use go_dbw.Options.{Options, Setter, Callback, get_opts}
use go_dbw.Gorm.{Gorm, Resources, Vetter, OpType, create_op}
use go_dbw.Keeping.States.{
  Stays, >>=-Stays, >>-Stays, lift-Stays, get-Stays, pure-Stays, when-Stays, vet_for_write-Stays,
  before_write-Stays,
}
use go_dbw.Action.{State, ◌>>=◌, ◌>>◌, get, pure, when, finish}
use go_dbw.Registry.{non_creatable_fields}
use go_dbw.Lookup.{set_resource}
use go_dbw.Writing.{vet_for_write}
use go_dbw.Create.{prepare_create, finish_create, create}
use go_dbw.Keeping.Lookups.{lookup_after_write-Keeps}
use go_dbw.Keeping.{
  CallbacksKeep, >>-Keeps, within-Keeps, fail_on-Keeps, when-Keeps, store_rows-Keeps,
  after_write-Keeps, fail_when-then, lift-then, underlying->>=, get->>=,
}

-- `P` is kept by reads, and by creates of a resource that is cleared of the names.
pub record PermitsCreates (G : Gorm) (names : List String) (P : G.World → Type 0) : Type 0 where
  pub of_create :
      (db : G.Db) (v : Value) (w : G.World) → IsCleared names v → P w → P (G.create db v w).world
  pub of_first : (db : G.Db) (v : Value) (w : G.World) → P w → P (G.first db v w).world

-- What comes between the clearing and the write leaves the names cleared: the vetting, if it is not skipped, which
-- keeps `P` too, and the callback before the write.
pub record SparesCleared {W : Type 0} (R : Resources W) (names : List String) (P : W → Type 0)
    (opts : Options W) : Type 0 where
  pub of_vet :
      opts.with_skip_vet_for_write ≡ false
      → (u : Value) (vet : Vetter W) → R.vet_for_write u ≡ some vet
      → (op : OpType) (masks nulls : List String) (v : Value) (w : W) → IsCleared names v
      → P w
      → IsCleared names (vet op masks nulls v w).1 × P (vet op masks nulls v w).2
  pub of_before :
      (fn : Callback W)
      → opts.with_before_write ≡ some fn
      → (v : Value) (w : W) → IsCleared names v
      → IsCleared names (fn v w).1

module _ (G : Gorm) (R : Resources G.World) (ctx : G.Context) (conn : Option G.Db) where
  module _ (names : List String) (P : G.World → Type 0) (permits : PermitsCreates G names P) where
    -- The names are cleared in the resource, and the database keeps `P`.
    abbrev Ready : State G.World → Type 0
    Ready s = IsCleared names s.resource × P s.world

    module _ (opts : Options G.World) (calls : CallbacksKeep P opts)
        (spares : SparesCleared R names P opts) where
      vetted-Stays :
          Stays Ready
            (when (not opts.with_skip_vet_for_write) (vet_for_write R "dbw.Create" create_op [] []))
      unfolding when pure
      vetted-Stays = elim (Bool-cases opts.with_skip_vet_for_write) [
        | inl skip ↦ rw skip (record { kept = λ s p. p })
        | inr vets ↦ when-Stays _ (
            vet_for_write-Stays R
              (λ u vet eq op masks nulls s (c, p).
                spares.of_vet vets u vet eq op masks nulls s.resource s.world c p)
              _ _ _ _)
      ]

      prepare_create-Ready :
          (db : G.Db) (s : State G.World)
          → IsCleared names (set_fields_to_nil s.resource (non_creatable_fields s))
          → P s.world
          → Ready (prepare_create G R ctx db opts s).1
      unfolding prepare_create ◌>>=◌ ◌>>◌ get set_resource
      prepare_create-Ready db s cleared p =
          let start : State G.World = record s {
            resource = set_fields_to_nil s.resource (non_creatable_fields s);
          } in
          (>>-Stays vetted-Stays (
              >>=-Stays get-Stays λ s. >>=-Stays (lift-Stays _) λ st.
                >>-Stays
                  (before_write-Stays opts
                    (λ fn eq s (c, p). (
                      spares.of_before fn eq s.resource s.world c,
                      calls.before fn eq s.resource s.world p,
                    ))
                    _)
                  (pure-Stays _))).kept
            start (cleared, p)

    finish_create-kept :
        (statement : G.Db) (opt : List (Option (Setter G.World))) (s : State G.World)
        → CallbacksKeep P (get_opts opt)
        → IsCleared names s.resource
        → P s.world
        → P (finish_create G R ctx conn statement opt s).1.world
    unfolding finish_create ◌>>=◌ finish
    finish_create-kept statement opt s calls cleared p =
        let t = G.create statement s.resource s.world in
        (>>-Keeps {P = P} (fail_on-Keeps t.error _) (
            >>-Keeps (when-Keeps _ (store_rows-Keeps _)) (
              >>-Keeps (after_write-Keeps calls _ _) (
                within-Keeps _ (lookup_after_write-Keeps G R ctx conn P permits.of_first _))))).kept
          (record s { resource = t.resource; world = t.world })
          (permits.of_create statement s.resource s.world cleared p)

    sent-kept :
        (db : G.Db) (opt : List (Option (Setter G.World))) (s : State G.World)
        → CallbacksKeep P (get_opts opt)
        → SparesCleared R names P (get_opts opt)
        → IsCleared names (set_fields_to_nil s.resource (non_creatable_fields s))
        → P s.world
        → P
            ((prepare_create G R ctx db (get_opts opt) >>= λ statement.
                finish_create G R ctx conn statement opt)
              s).1.world
    unfolding ◌>>=◌
    sent-kept db opt s calls spares cleared p =
        let (c, q) = prepare_create-Ready (get_opts opt) calls spares db s cleared p in
        elim (Outcome-cases (prepare_create G R ctx db (get_opts opt) s).0) [
          | inl (statement, eq) ↦ rw eq (finish_create-kept statement opt _ calls c q)
          | inr (inl (e, eq)) ↦ rw eq q
          | inr (inr eq) ↦ rw eq q
        ]

    -- If creates of resources that are cleared of the names, and reads, keep an invariant of the database
    -- (`PermitsCreates`), then `Create` of a pointer to a struct keeps it, whether it fails or not and whether or
    -- not it vets. The names are those of the set of non-creatable fields and not empty; the vetting, where it
    -- is not skipped, and the callbacks keep the invariant, and those before the write set none of the
    -- names again (`SparesCleared`).
    pub create-keeps :
        (opt : List (Option (Setter G.World))) (s : State G.World) (t : String) (fs : Fields)
        → s.resource ≡ ptr (struct t fs)
        → names ≡ non_creatable_fields s
        → is_empty names ≡ false
        → CallbacksKeep P (get_opts opt)
        → SparesCleared R names P (get_opts opt)
        → P s.world
        → P (create G R ctx conn opt s).1.world
    unfolding create
    create-keeps opt s t fs is_struct same some_name calls spares p =
        let cleared : IsCleared names (set_fields_to_nil s.resource (non_creatable_fields s)) =
          rw (sym same, is_struct) (set_fields_to_nil-IsCleared t fs names some_name) in
        underlying->>= P s _ _ _ p λ db. get->>= P s _ (
          fail_when-then P s _ _ _ p
            (lift-then P s _ _ p (sent-kept db opt s calls spares cleared p)))

-- ===== src/Once/Batches.antt =====
-- `CreateItems`, whose items gorm sends in batches.
use go_dbw.Prelude.{
  ◌≢◌, ◌⊎◌, ◌≡◌, refl, sym, ap, ◌∙◌, ℕ, suc, pos, ◌+◌, ◌-◌, ◌/◌, ◌≤◌, String, Bool, true, false,
  Option, none, some, List, [], Option-cases, inl, inr,
}
use go_dbw.Errors.{fails_or, ok, Outcome-cases}
use go_dbw.Reflect.{
  Value, Items, nil, item, GoType, slice, no_value, boolean, integer, text, nil_ptr, ptr, nil_slice,
  reference, struct, iface, type_of, first_item, to_interface, len, count_items,
}
use go_dbw.Clear.{set_fields_to_nil}
use go_dbw.Options.{Options, Setter, Callback, get_opts}
use go_dbw.Gorm.{Gorm, Resources, create_op}
use go_dbw.Action.{State}
use go_dbw.Create.Items.{
  check_item, vet_item, prepare_items, prepare_value, prepare_slice, create_items,
}
use go_dbw.Registry.{non_creatable_fields}
use go_dbw.Keeping.States.{
  Stays, lift-Stays, get-Stays, underlying-Stays, fail_when-Stays, before_write-Stays,
}
use go_dbw.Once.Sends.{Sized, Sends, >>=-Sends, >>-Sends, sent-Sends}
use go_dbw.Once.{Counting, Quiet, >>-Free, store_rows-Free, when-Free, after_write-Free}

-- How many batches of `size` items there are in `n` items; the last may be smaller.
abbrev pub batches : ℕ → ℕ → ℕ
batches n size = (n + (size - 1)) / size

-- gorm's `CreateInBatches`, for a size that is positive: every batch is a write, and the first that fails is the last.
pub record Batching (G : Gorm) (writes : G.World → ℕ) : Type 0 where
  pub at_most :
      (db : G.Db) (v : Value) (k : ℕ) (w : G.World)
      → writes (G.create_in_batches db v (pos (suc k)) w).world ≤ writes w + batches (len v) (suc k)
  pub exactly :
      (db : G.Db) (v : Value) (k : ℕ) (w : G.World)
      → (G.create_in_batches db v (pos (suc k)) w).error ≡ none
      → writes (G.create_in_batches db v (pos (suc k)) w).world ≡ writes w + batches (len v) (suc k)

-- The callback before the write leaves the slice as long as it is.
pub record KeepsLen {W : Type 0} (opts : Options W) : Type 0 where
  pub of_before :
      (fn : Callback W)
      → opts.with_before_write ≡ some fn
      → (v : Value) (w : W) → len (fn v w).1 ≡ len v

count-prepare_items :
    {W : Type 0} (R : Resources W) (skip : Bool) (names : List String) (found : GoType) (i : ℕ)
    (vs : Items) (w : W)
    → count_items (prepare_items R skip names found i vs w).items ≡ count_items vs
unfolding prepare_items
count-prepare_items R skip names found i nil w = refl
count-prepare_items R skip names found i (item v vs) w =
    let start : Value = set_fields_to_nil (to_interface v) names in
    let w1 : _ = (vet_item R skip start w).2 in
    elim (Outcome-cases (check_item found i (to_interface v))) [
      | inr (inl (e, eq)) ↦ rw (prepare_items, eq) refl
      | inr (inr eq) ↦ rw (prepare_items, eq) refl
      | inl (_, eq) ↦ elim (Outcome-cases (vet_item R skip start w).0) [
        | inr (inl (e, eq')) ↦ rw (prepare_items, eq, eq') refl
        | inr (inr eq') ↦ rw (prepare_items, eq, eq') refl
        | inl (_, eq') ↦
            rw (prepare_items, eq, eq')
              (ap suc (count-prepare_items R skip names found (i + 1) vs w1))
      ]
    ]

module _ (G : Gorm) (R : Resources G.World) (writes : G.World → ℕ) (counting : Counting G R writes)
    (ctx : G.Context) (conn : Option G.Db) where
  vet_item_kept :
      (skip : Bool) (v : Value) (w : G.World) → writes (vet_item R skip v w).2 ≡ writes w
  vet_item_kept true v w = refl
  vet_item_kept false v w = elim (Option-cases (R.vet_for_write v)) [
    | inl eq ↦ rw (vet_item, eq) refl
    | inr (vet, eq) ↦ rw (vet_item, eq) (counting.of_vet v vet eq create_op [] [] v w)
  ]

  prepare_items_kept :
      (skip : Bool) (names : List String) (found : GoType) (i : ℕ) (vs : Items) (w : G.World)
      → writes (prepare_items R skip names found i vs w).world ≡ writes w
  unfolding prepare_items
  prepare_items_kept skip names found i nil w = refl
  prepare_items_kept skip names found i (item v vs) w =
      let start : Value = set_fields_to_nil (to_interface v) names in
      let w1 : G.World = (vet_item R skip start w).2 in
      let kept = vet_item_kept skip start w in
      elim (Outcome-cases (check_item found i (to_interface v))) [
        | inr (inl (e, eq)) ↦ rw (prepare_items, eq) refl
        | inr (inr eq) ↦ rw (prepare_items, eq) refl
        | inl (_, eq) ↦ elim (Outcome-cases (vet_item R skip start w).0) [
          | inr (inl (e, eq')) ↦ rw (prepare_items, eq, eq') kept
          | inr (inr eq') ↦ rw (prepare_items, eq, eq') kept
          | inl (_, eq') ↦
              rw (prepare_items, eq, eq') (prepare_items_kept skip names found (i + 1) vs w1 ∙ kept)
        ]
      ]

  prepare_value_kept :
      (skip : Bool) (s : State G.World) (v : Value)
      → writes (prepare_value R skip s v).1.world ≡ writes s.world
  unfolding prepare_value
  prepare_value_kept skip s (slice t vs) =
      prepare_items_kept skip (non_creatable_fields s) (type_of (first_item s.resource)) 0 vs
        s.world
  prepare_value_kept skip s no_value = refl
  prepare_value_kept skip s (boolean _ _) = refl
  prepare_value_kept skip s (integer _ _) = refl
  prepare_value_kept skip s (text _ _) = refl
  prepare_value_kept skip s (nil_ptr _) = refl
  prepare_value_kept skip s (ptr _) = refl
  prepare_value_kept skip s (nil_slice _) = refl
  prepare_value_kept skip s (reference _ _ _) = refl
  prepare_value_kept skip s (struct _ _) = refl
  prepare_value_kept skip s (iface _ _) = refl

  prepared_len :
      (skip : Bool) (s : State G.World) (v : Value)
      → v ≡ s.resource
      → len (prepare_value R skip s v).1.resource ≡ len v
  unfolding prepare_value
  prepared_len skip s (slice t vs) h =
      count-prepare_items R skip (non_creatable_fields s) (type_of (first_item s.resource)) 0 vs
        s.world
  prepared_len skip s no_value h = ap len (sym h)
  prepared_len skip s (boolean _ _) h = ap len (sym h)
  prepared_len skip s (integer _ _) h = ap len (sym h)
  prepared_len skip s (text _ _) h = ap len (sym h)
  prepared_len skip s (nil_ptr _) h = ap len (sym h)
  prepared_len skip s (ptr _) h = ap len (sym h)
  prepared_len skip s (nil_slice _) h = ap len (sym h)
  prepared_len skip s (reference _ _ _) h = ap len (sym h)
  prepared_len skip s (struct _ _) h = ap len (sym h)
  prepared_len skip s (iface _ _) h = ap len (sym h)

  prepare_slice-Stays : (skip : Bool) (n m : ℕ) → Stays (Sized writes n m) (prepare_slice R skip)
  prepare_slice-Stays skip n m = record {
    kept = λ s (l, p).
        (prepared_len skip s s.resource refl ∙ l, prepare_value_kept skip s s.resource ∙ p);
  }

  create_items-Sends :
      (opt : List (Option (Setter G.World))) (n m k : ℕ)
      → Batching G writes
      → Quiet writes (get_opts opt)
      → KeepsLen (get_opts opt)
      → (get_opts opt).with_batch_size ≡ pos (suc k)
      → Sends writes n m (batches n (suc k)) (create_items G R ctx conn opt)
  unfolding create_items
  create_items-Sends opt n m k batching quiet keeps size = >>=-Sends (underlying-Stays _ conn) λ db.
      >>=-Sends get-Stays λ s. >>-Sends (fail_when-Stays _ _) (
        >>-Sends (fail_when-Stays _ _) (
          >>-Sends (fail_when-Stays _ _) (
            >>-Sends (lift-Stays _) (
              >>-Sends (fail_when-Stays _ _) (
                >>-Sends (prepare_slice-Stays _ n m) (
                  >>-Sends
                    (before_write-Stays (get_opts opt)
                      (λ fn eq s (l, p). (
                        keeps.of_before fn eq s.resource s.world ∙ l,
                        quiet.before fn eq s.resource s.world ∙ p,
                      ))
                      _)
                    (>>=-Sends get-Stays λ s. >>=-Sends (lift-Stays _) λ statement.
                      sent-Sends _ _ _
                        (λ v w l p. rw size (
                          let le = batching.at_most _ v k w in
                          (
                            rw (sym l, sym p) le,
                            λ e. rw (sym l, sym p) (batching.exactly _ v k w e),
                          )))
                        (λ t.
                          >>-Free (when-Free _ (store_rows-Free _))
                            (after_write-Free quiet _ _)))))))))

  -- If `Counting` holds, gorm's `Batching` makes a write of each batch, the batch size is positive, and the callbacks are
  -- `Quiet` and leave the slice as long as it is, `CreateItems` makes at most as many writes as there are batches in
  -- the items, and exactly as many if it returns no error.
  pub create_items_writes_batches :
      (opt : List (Option (Setter G.World))) (s : State G.World) (k : ℕ)
      → Batching G writes
      → Quiet writes (get_opts opt)
      → KeepsLen (get_opts opt)
      → (get_opts opt).with_batch_size ≡ pos (suc k)
      → (writes (create_items G R ctx conn opt s).1.world
          ≤ writes s.world + batches (len s.resource) (suc k))
        × (((create_items G R ctx conn opt s).0 ≢ ok tt)
            ⊎ (writes (create_items G R ctx conn opt s).1.world
                ≡ writes s.world + batches (len s.resource) (suc k)))
  create_items_writes_batches opt s k batching quiet keeps size =
      let sends =
        create_items-Sends opt (len s.resource) (writes s.world) k batching quiet keeps size in
      (sends.at_most s (refl, refl), fails_or _ (sends.exactly s (refl, refl) tt))

-- ===== src/Keeping/Writers.antt =====
-- The operations that write keep what gorm's writes keep, whatever their outcome.
use go_dbw.Prelude.{
  ◌≡◌, ℕ, ◌+◌, ℤ, String, Bool, true, false, Option, some, List, [], Option-cases, inl, inr,
}
use go_dbw.Errors.{Outcome-cases}
use go_dbw.Reflect.{Value, Items, nil, item, GoType, slice, type_of, first_item, to_interface}
use go_dbw.Clear.{set_fields_to_nil}
use go_dbw.Options.{Setter, get_opts}
use go_dbw.Gorm.{Gorm, Resources, Vetter, OpType, create_op}
use go_dbw.Action.{State}
use go_dbw.Registry.{non_creatable_fields}
use go_dbw.Create.{prepare_create, finish_create, create}
use go_dbw.Create.Items.{check_item, vet_item, prepare_items, prepare_value, create_items}
use go_dbw.Delete.{prepare_delete, delete}
use go_dbw.Delete.Items.{delete_items}
use go_dbw.Keeping.Lookups.{lookup_after_write-Keeps}
use go_dbw.Keeping.{
  Keeps, CallbacksKeep, >>=-Keeps, >>-Keeps, pure-Keeps, lift-Keeps, underlying-Keeps, within-Keeps,
  get-Keeps, return_rows-Keeps, fail_on-Keeps, fail_when-Keeps, when-Keeps, set_resource-Keeps,
  store_rows-Keeps, finish-Keeps, before_write-Keeps, after_write-Keeps, vet_for_write-Keeps,
}

module _ (G : Gorm) (R : Resources G.World) (ctx : G.Context) (conn : Option G.Db)
    (P : G.World → Type 0) where
  pub delete-Keeps :
      ((db : G.Db) (v : Value) (w : G.World) → P w → P (G.delete db v w).world)
      → (opt : List (Option (Setter G.World))) → CallbacksKeep P (get_opts opt)
      → Keeps P (delete G R ctx conn opt)
  unfolding delete prepare_delete
  delete-Keeps of_delete opt calls = >>-Keeps (return_rows-Keeps _) (
      >>=-Keeps (underlying-Keeps _ conn) λ db. >>=-Keeps get-Keeps λ s.
        >>-Keeps (fail_when-Keeps _ _) (
          >>-Keeps (lift-Keeps _) (
            >>=-Keeps
              (>>=-Keeps get-Keeps λ s. >>=-Keeps (lift-Keeps _) λ schema. >>-Keeps (lift-Keeps _) (
                >>-Keeps (before_write-Keeps calls _)
                  (>>=-Keeps get-Keeps λ s. >>=-Keeps (lift-Keeps _) λ statement. pure-Keeps _)))
              λ statement. >>=-Keeps (finish-Keeps _ (of_delete _)) λ t.
                >>-Keeps (fail_on-Keeps _ _)
                  (>>-Keeps (return_rows-Keeps _) (after_write-Keeps calls _ _)))))

  pub delete_items-Keeps :
      ((db : G.Db) (v : Value) (w : G.World) → P w → P (G.delete db v w).world)
      → (opt : List (Option (Setter G.World))) → CallbacksKeep P (get_opts opt)
      → Keeps P (delete_items G R ctx conn opt)
  unfolding delete_items
  delete_items-Keeps of_delete opt calls = >>-Keeps (return_rows-Keeps _) (
      >>=-Keeps (underlying-Keeps _ conn) λ db. >>=-Keeps get-Keeps λ s.
        >>-Keeps (fail_when-Keeps _ _) (
          >>-Keeps (fail_when-Keeps _ _) (
            >>-Keeps (fail_when-Keeps _ _) (
              >>-Keeps (lift-Keeps _) (
                >>-Keeps (fail_when-Keeps _ _) (
                  >>-Keeps (fail_when-Keeps _ _) (
                    >>=-Keeps (lift-Keeps _) λ schema. >>-Keeps (lift-Keeps _) (
                      >>-Keeps (before_write-Keeps calls _) (
                        >>=-Keeps get-Keeps λ s. >>=-Keeps (lift-Keeps _) λ statement.
                          >>=-Keeps (finish-Keeps _ (of_delete _)) λ t.
                            >>-Keeps (fail_on-Keeps _ _) (
                              >>-Keeps (return_rows-Keeps _) (after_write-Keeps calls _ _)))))))))))

  module _
      (of_vet : (u : Value) (vet : Vetter G.World)
        → R.vet_for_write u ≡ some vet
        → (op : OpType) (masks nulls : List String) (v : Value) (w : G.World) → P w
        → P (vet op masks nulls v w).2) where
    pub create-Keeps :
        ((db : G.Db) (v : Value) (w : G.World) → P w → P (G.create db v w).world)
        → ((db : G.Db) (v : Value) (w : G.World) → P w → P (G.first db v w).world)
        → (opt : List (Option (Setter G.World))) → CallbacksKeep P (get_opts opt)
        → Keeps P (create G R ctx conn opt)
    unfolding create prepare_create finish_create
    create-Keeps of_create of_first opt calls = >>=-Keeps (underlying-Keeps _ conn) λ db.
        >>=-Keeps get-Keeps λ s. >>-Keeps (fail_when-Keeps _ _) (
          >>-Keeps (lift-Keeps _) (
            >>=-Keeps
              (>>=-Keeps get-Keeps λ s. >>-Keeps (set_resource-Keeps _) (
                >>-Keeps (when-Keeps _ (vet_for_write-Keeps R of_vet _ _ _ _)) (
                  >>=-Keeps get-Keeps λ s.
                    >>=-Keeps (lift-Keeps _)
                      λ statement. >>-Keeps (before_write-Keeps calls _) (pure-Keeps _))))
              λ statement. >>=-Keeps (finish-Keeps _ (of_create _)) λ t.
                >>-Keeps (fail_on-Keeps _ _) (
                  >>-Keeps (when-Keeps _ (store_rows-Keeps _)) (
                    >>-Keeps (after_write-Keeps calls _ _)
                      (within-Keeps _ (lookup_after_write-Keeps G R ctx conn P of_first _))))))

    vet_item_kept : (skip : Bool) (v : Value) (w : G.World) → P w → P (vet_item R skip v w).2
    vet_item_kept true v w p = p
    vet_item_kept false v w p = elim (Option-cases (R.vet_for_write v)) [
      | inl eq ↦ rw (vet_item, eq) p
      | inr (vet, eq) ↦ rw (vet_item, eq) (of_vet v vet eq create_op [] [] v w p)
    ]

    prepare_items_kept :
        (skip : Bool) (names : List String) (found : GoType) (i : ℕ) (vs : Items) (w : G.World)
        → P w
        → P (prepare_items R skip names found i vs w).world
    unfolding prepare_items
    prepare_items_kept skip names found i nil w p = p
    prepare_items_kept skip names found i (item v vs) w p =
        let start : Value = set_fields_to_nil (to_interface v) names in
        let w1 : G.World = (vet_item R skip start w).2 in
        let kept = vet_item_kept skip start w p in
        elim (Outcome-cases (check_item found i (to_interface v))) [
          | inr (inl (e, eq)) ↦ rw (prepare_items, eq) p
          | inr (inr eq) ↦ rw (prepare_items, eq) p
          | inl (_, eq) ↦ elim (Outcome-cases (vet_item R skip start w).0) [
            | inr (inl (e, eq')) ↦ rw (prepare_items, eq, eq') kept
            | inr (inr eq') ↦ rw (prepare_items, eq, eq') kept
            | inl (_, eq') ↦
                rw (prepare_items, eq, eq') (prepare_items_kept skip names found (i + 1) vs w1 kept)
          ]
        ]

    prepare_value_kept :
        (skip : Bool) (s : State G.World) (v : Value)
        → P s.world
        → P (prepare_value R skip s v).1.world
    unfolding prepare_value
    prepare_value_kept skip s (slice t vs) p =
        prepare_items_kept skip (non_creatable_fields s) (type_of (first_item s.resource)) 0 vs
          s.world p
    prepare_value_kept skip s _ p = p

    pub create_items-Keeps :
        ((db : G.Db) (v : Value) (n : ℤ) (w : G.World)
          → P w
          → P (G.create_in_batches db v n w).world)
        → (opt : List (Option (Setter G.World))) → CallbacksKeep P (get_opts opt)
        → Keeps P (create_items G R ctx conn opt)
    unfolding create_items
    create_items-Keeps of_batches opt calls = >>=-Keeps (underlying-Keeps _ conn) λ db.
        >>=-Keeps get-Keeps λ s. >>-Keeps (fail_when-Keeps _ _) (
          >>-Keeps (fail_when-Keeps _ _) (
            >>-Keeps (fail_when-Keeps _ _) (
              >>-Keeps (lift-Keeps _) (
                >>-Keeps (fail_when-Keeps _ _) (
                  >>-Keeps
                    (record {
                      kept = λ s p.
                          prepare_value_kept (get_opts opt).with_skip_vet_for_write s s.resource p;
                    })
                    (>>-Keeps (before_write-Keeps calls _) (
                      >>=-Keeps get-Keeps λ s. >>=-Keeps (lift-Keeps _) λ statement.
                        >>=-Keeps (finish-Keeps _ (λ v. of_batches _ v _)) λ t.
                          >>-Keeps (fail_on-Keeps _ _) (
                            >>-Keeps (when-Keeps _ (store_rows-Keeps _))
                              (after_write-Keeps calls _ _)))))))))

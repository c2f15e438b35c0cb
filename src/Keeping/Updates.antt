-- ===== src/Keeping/Updates.antt =====
-- `Update` and an invariant that its permitted updates keep.
use go_dbw.Prelude.{◌≡◌, ap, ◌∙◌, String, false, Option, some, List}
use go_dbw.Prelude.Dict.{Dict, lookup}
use go_dbw.Errors.{ok}
use go_dbw.Reflect.{Value}
use go_dbw.Contains.{contains}
use go_dbw.Common.{Update}
use go_dbw.Common.Intersection.{Slice}
use go_dbw.Options.{Setter, get_opts}
use go_dbw.Gorm.{Gorm, Resources, Vetter, OpType}
use go_dbw.Action.{State, ◌>>=◌, no_rows_affected}
use go_dbw.Registry.{non_updatable_fields}
use go_dbw.Update.{prepare_update, finish_update, update}
use go_dbw.Update.Checks.{Columns, update_columns}
use go_dbw.Update.Filtered.{update_columns_safe}
use go_dbw.Keeping.Lookups.{lookup_after_write-Keeps}
use go_dbw.Keeping.{
  Keeps, CallbacksKeep, >>=-Keeps, >>-Keeps, lift-Keeps, within-Keeps, get-Keeps, return_rows-Keeps,
  fail_on-Keeps, when-Keeps, finish-Keeps, before_write-Keeps, after_write-Keeps,
  vet_for_write-Keeps, fail_when-then, lift-then, lift->>=, underlying->>=, get->>=,
  return_rows-then,
}

-- The columns are none of the names, up to case.
abbrev pub Avoids : List String → Dict Update → Type 0
Avoids names us = (q : String) (u : Update) → lookup q us ≡ some u → contains names q ≡ false

-- `P` is kept by reads, by what the types do to be vetted, and by updates that avoid the names.
pub record Permits (G : Gorm) (R : Resources G.World) (names : List String) (P : G.World → Type 0)
    : Type 0 where
  pub of_updates :
      (db : G.Db) (us : Dict Update) (v : Value) (w : G.World)
      → Avoids names us
      → P w
      → P (G.updates db us v w).world
  pub of_first : (db : G.Db) (v : Value) (w : G.World) → P w → P (G.first db v w).world
  pub of_vet :
      (u : Value) (vet : Vetter G.World)
      → R.vet_for_write u ≡ some vet
      → (op : OpType) (masks nulls : List String) (v : Value) (w : G.World) → P w
      → P (vet op masks nulls v w).2

module _ (G : Gorm) (R : Resources G.World) (ctx : G.Context) (conn : Option G.Db)
    (names : List String) (P : G.World → Type 0) (permits : Permits G R names P) where
  sent-Keeps :
      (db : G.Db) (c : Columns) (opt : List (Option (Setter G.World)))
      → Avoids names c.updates
      → CallbacksKeep P (get_opts opt)
      → Keeps P (
          prepare_update G R db (get_opts opt) c >>= λ statement.
          finish_update G R ctx conn statement c.updates opt)
  unfolding prepare_update finish_update
  sent-Keeps db c opt avoids calls =
      >>=-Keeps
        (>>-Keeps (when-Keeps _ (vet_for_write-Keeps R permits.of_vet _ _ _ _))
          (>>-Keeps (before_write-Keeps calls _) (>>=-Keeps get-Keeps λ s. lift-Keeps _)))
        λ statement. >>=-Keeps (finish-Keeps _ (λ v w. permits.of_updates _ _ v w avoids)) λ t.
          >>-Keeps (fail_on-Keeps _ _) (
            >>-Keeps (return_rows-Keeps _) (
              >>-Keeps (after_write-Keeps calls _ _) (
                >>-Keeps (return_rows-Keeps _) (
                  >>-Keeps
                    (within-Keeps _ (lookup_after_write-Keeps G R ctx conn P permits.of_first _))
                    (return_rows-Keeps _)))))

  Avoids-names :
      (s : State G.World) (masks nulls : Slice) (c : Columns)
      → names ≡ non_updatable_fields s
      → update_columns (non_updatable_fields s) s.resource masks nulls ≡ ok c
      → Avoids names c.updates
  Avoids-names s masks nulls c same is_columns q u stored =
      ap (λ ns. contains ns q) same
      ∙ (update_columns_safe (non_updatable_fields s) s.resource masks nulls c q u is_columns
          stored).1

  -- If updates of columns other than the names, reads, and what the types do to be vetted keep an invariant
  -- of the database (`Permits`), then `Update` keeps it, whatever paths it is given and whether it fails or
  -- not, if the names are those of the set of non-updatable fields and the callbacks of the options keep it
  -- too.
  pub update-keeps :
      (masks nulls : Slice) (opt : List (Option (Setter G.World))) (s : State G.World)
      → names ≡ non_updatable_fields s
      → CallbacksKeep P (get_opts opt)
      → P s.world
      → P (update G R ctx conn masks nulls opt s).1.world
  unfolding update non_updatable_fields
  update-keeps masks nulls opt s same calls p =
      let s1 : State G.World = record s { returned = no_rows_affected } in
      return_rows-then P s _ _ (
        underlying->>= P s1 _ _ _ p λ db. get->>= P s1 _ (
          fail_when-then P s1 _ _ _ p (
            lift-then P s1 _ _ p (
              fail_when-then P s1 _ _ _ p (
                lift->>= P s1 _ _ p λ c is_columns. lift-then P s1 _ _ p (
                  (sent-Keeps db c opt (Avoids-names s masks nulls c same is_columns) calls).kept s1
                    p))))))

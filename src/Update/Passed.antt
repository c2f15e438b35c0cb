-- ===== src/Update/Passed.antt =====
-- What an update that returns no error has passed.
use go_dbw.Prelude.{◌≡◌, false, Option, some, List}
use go_dbw.Errors.{ok}
use go_dbw.Reflect.{is_nil}
use go_dbw.Common.Intersection.{Slice}
use go_dbw.Options.{Setter}
use go_dbw.Gorm.{Gorm, Resources}
use go_dbw.Action.{State}
use go_dbw.Guards.{raise_error_on_hooks}
use go_dbw.Registry.{non_updatable_fields}
use go_dbw.Update.Checks.{Columns, update_columns, check_keys}
use go_dbw.Update.{update}
use go_dbw.Inversion.{
  wrap-eq-ok, fail_when_passed, lift_passed, return_rows_passed, get_passed, lift_gave,
  underlying_gave,
}

-- An `Update` that returns no error was given a connection and a resource that is not nil and has no hooks;
-- the columns that it sent are those of `update_columns`, and the resource's keys passed `check_keys` for the
-- filtered mask.
pub update_passed :
    (G : Gorm) (R : Resources G.World) (ctx : G.Context) (conn : Option G.Db) (masks nulls : Slice)
    (opt : List (Option (Setter G.World))) (s : State G.World)
    → (update G R ctx conn masks nulls opt s).0 ≡ ok tt
    → (is_nil s.resource ≡ false)
      × (raise_error_on_hooks R s.resource ≡ ok tt)
      × ((c : Columns) × (db : G.Db) × (update_columns
              (non_updatable_fields s)
              s.resource
              masks
              nulls
            ≡ ok c)
          × (conn ≡ some db)
          × (check_keys G db s.resource c.masks ≡ ok tt))
unfolding update non_updatable_fields
update_passed G R ctx conn masks nulls opt s h =
    let h1 = return_rows_passed s _ _ h in
    let (db, at_db, h2) = underlying_gave _ _ _ _ h1 in
    let h3 = get_passed _ _ h2 in
    let (not_nil, h4) = fail_when_passed _ _ _ _ h3 in
    let (no_hooks, h5) = lift_passed _ _ _ h4 in
    let (_, h6) = fail_when_passed _ _ _ _ h5 in
    let (c, is_columns, h7) = lift_gave _ _ _ h6 in
    let (keys_set, _) = lift_passed _ _ _ h7 in
    (not_nil, wrap-eq-ok _ _ _ no_hooks, (c, db, is_columns, at_db, keys_set))

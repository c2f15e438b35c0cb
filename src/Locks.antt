-- ===== src/Locks.antt =====
-- `WithVersion` as an optimistic lock: what a write with a version comes to that is not the row's.
pub mod Statement
use go_dbw.Prelude.{
  ◌≡◌, ◌≢◌, ◌==◌, true, ap, ◌∙◌, ℕ, ℤ, pos, Option, some, none, List, [], ◌∷◌, String,
}
use go_dbw.Prelude.Dict.{Dict}
use go_dbw.Errors.{Outcome, ok}
use go_dbw.Reflect.{Value}
use go_dbw.Common.{Update}
use go_dbw.Options.{Options, Setter, Callback, get_opts}
use go_dbw.Gorm.{Gorm, Resources, Vetter, OpType, Bind, bind_version, Written}
use go_dbw.Action.{State, Action, ◌>>◌}
use go_dbw.Inversion.{then_gave}
use go_dbw.Keeping.{CallbacksKeep}
use go_dbw.Keeping.States.{Stays, before_write-Stays}
use go_dbw.Writing.{before_write}

-- How the database sees a version. `asked_by` is the version that a statement's condition asks for, which `Debug` and
-- `Table` leave as it is. A write that asks for a version that the resource's row does not have changes no data, and
-- affects no row. `key` names a resource's row. Reads and vetting change neither the data nor the key.
pub record Locks (G : Gorm) (R : Resources G.World) {A K : Type 0} (data_of : G.World → A)
    (key : Value → K) (version_of : K → A → Option ℕ) (asked_by : G.Db → Option ℕ) (v : ℕ)
    : Type 0 where
  pub of_where :
      (db : G.Db) → asked_by (G.where_clause "version = ?" (bind_version v ∷ []) db) ≡ some v
  pub of_debug : (db : G.Db) → asked_by (G.debug db) ≡ asked_by db
  pub of_table : (name : String) (db : G.Db) → asked_by (G.table name db) ≡ asked_by db
  pub of_updates :
      (db : G.Db) (us : Dict Update) (u : Value) (w : G.World)
      → asked_by db ≡ some v
      → version_of (key u) (data_of w) ≢ some v
      → (data_of (G.updates db us u w).world ≡ data_of w)
        × ((G.updates db us u w).error ≡ none → (G.updates db us u w).rows_affected ≡ pos 0)
  pub of_delete :
      (db : G.Db) (u : Value) (w : G.World)
      → asked_by db ≡ some v
      → version_of (key u) (data_of w) ≢ some v
      → (data_of (G.delete db u w).world ≡ data_of w)
        × ((G.delete db u w).error ≡ none → (G.delete db u w).rows_affected ≡ pos 0)
  pub of_first : (db : G.Db) (u : Value) (w : G.World) → data_of (G.first db u w).world ≡ data_of w
  pub of_vet :
      (u : Value) (vet : Vetter G.World)
      → R.vet_for_write u ≡ some vet
      → (op : OpType) (masks nulls : List String) (u' : Value) (w : G.World)
      → (key (vet op masks nulls u' w).1 ≡ key u')
        × (data_of (vet op masks nulls u' w).2 ≡ data_of w)

-- The callbacks of the options change neither the data nor the resource's key.
pub record CallbacksSpare {W A K : Type 0} (data_of : W → A) (key : Value → K) (opts : Options W)
    : Type 0 where
  pub before :
      (fn : Callback W)
      → opts.with_before_write ≡ some fn
      → (u : Value) (w : W) → (key (fn u w).1 ≡ key u) × (data_of (fn u w).2 ≡ data_of w)
  pub after :
      (fn : ℤ → Callback W)
      → opts.with_after_write ≡ some fn
      → (n : ℤ) (u : Value) (w : W) → data_of (fn n u w).2 ≡ data_of w

module _ {W : Type 0} where
  -- What the last step of a chain returns.
  pub then_returned :
      (m k : Action W (Unit {0})) (n : ℤ) (s : State W)
      → ((t : State W) → (k t).0 ≡ ok tt → (k t).1.returned ≡ n)
      → ((m >> k) s).0 ≡ ok tt
      → ((m >> k) s).1.returned ≡ n
  then_returned m k n s rule h =
      let (t, _, done, same) = then_gave m k s tt h in ap (λ x. x.returned) same ∙ rule t done

-- Options with a version for their only condition
pub record IsVersioned {W : Type 0} (opts : Options W) (v : ℕ) : Type 0 where
  pub at_version : opts.with_version ≡ some v
  pub no_where : (opts.with_where_clause == "") ≡ true
  pub no_conflict : opts.with_on_conflict ≡ none

module _ {W A K : Type 0} (data_of : W → A) (key : Value → K) (a : A) where
  abbrev pub Same : W → Type 0
  Same w = data_of w ≡ a

  -- The data, and the key of the resource
  abbrev pub Stale : K → State W → Type 0
  Stale k s = (key s.resource ≡ k) × Same s.world

  -- The data are as before, and no row is returned for a success.
  abbrev pub Refused : Outcome (Unit {0}) × State W → Type 0
  Refused (r, s) = Same s.world × (r ≡ ok tt → s.returned ≡ pos 0)

  module _ (opts : Options W) (spare : CallbacksSpare data_of key opts) where
    pub spare-CallbacksKeep : CallbacksKeep Same opts
    spare-CallbacksKeep = record {
      before = λ fn eq u w p. (spare.before fn eq u w).1 ∙ p;
      after = λ fn eq n u w p. spare.after fn eq n u w ∙ p;
    }

    pub before_write-Stale :
        (k : K) (message : String) → Stays (Stale k) (before_write message opts)
    before_write-Stale k message =
        before_write-Stays opts
          (λ fn eq s (p, q). (
            (spare.before fn eq s.resource s.world).0 ∙ p,
            (spare.before fn eq s.resource s.world).1 ∙ q,
          ))
          message

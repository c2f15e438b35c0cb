-- ===== src/Writing.antt =====
-- What the write operations share: vetting, and the callbacks around the write.
use go_dbw.Prelude.{ℤ, String, none, some, List, is_positive}
use go_dbw.Errors.{ok}
use go_dbw.Options.{Options}
use go_dbw.Gorm.{Resources, OpType}
use go_dbw.Action.{Action, pure, within, when, call}

module _ {W : Type 0} where
  -- `i.(VetForWriter)` and its call
  unfoldable pub vet_for_write :
      Resources W → String → OpType → List String → List String → Action W (Unit {0})
  vet_for_write R op op_type masks nulls s = elim (R.vet_for_write s.resource) [
    | none ↦ (ok tt, s)
    | some vet ↦ within op (call (vet op_type masks nulls)) s
  ]

  -- `opts.WithBeforeWrite`
  unfoldable pub before_write : String → Options W → Action W (Unit {0})
  before_write message opts = elim opts.with_before_write [
    | none ↦ pure tt
    | some fn ↦ within message (call fn)
  ]

  -- `opts.WithAfterWrite`, which is called only if rows were affected
  unfoldable pub after_write : String → Options W → ℤ → Action W (Unit {0})
  after_write message opts rows = elim opts.with_after_write [
    | none ↦ pure tt
    | some fn ↦ when (is_positive rows) (within message (call (fn rows)))
  ]

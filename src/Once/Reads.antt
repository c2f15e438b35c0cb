-- ===== src/Once/Reads.antt =====
-- The operations that read: lookup.go, `LookupWhere` and `SearchWhere`.
use go_dbw.Prelude.{◌≡◌, refl, ℕ, String, Option, List, [], Option-cases, inl, inr}
use go_dbw.Errors.{errorf}
use go_dbw.Reflect.{Value}
use go_dbw.Options.{Setter}
use go_dbw.Gorm.{Gorm, Resources}
use go_dbw.Action.{fail_on, State}
use go_dbw.Lookup.{
  lookup_by, lookup_after_write, clear_default_null_resource_fields, clear_defaults,
}
use go_dbw.Search.{lookup_where, search_where}
use go_dbw.Once.{
  Counting, Free, >>=-Free, >>-Free, lift-Free, underlying-Free, within-Free, get-Free,
  fail_when-Free, fail_on-Free, when-Free, ignore_error-Free, finish-Free,
}

module _ (G : Gorm) (R : Resources G.World) (writes : G.World → ℕ) (counting : Counting G R writes)
    (ctx : G.Context) (conn : Option G.Db) where
  clear_default_null_resource_fields-Free :
      (db : G.Db) → Free writes (clear_default_null_resource_fields G R db)
  unfolding clear_default_null_resource_fields fail_on
  clear_default_null_resource_fields-Free db = record {
    kept = λ s. elim (Option-cases (G.parse (G.model s.resource db) s.resource).0) [
      | inr (e, eq) ↦ rw (clear_default_null_resource_fields, eq) refl
      | inl eq ↦ elim (Option-cases (G.parse (G.model s.resource db) s.resource).1) [
        | inl eq' ↦ rw (clear_default_null_resource_fields, eq, eq') refl
        | inr (schema, eq') ↦
            rw (clear_default_null_resource_fields, eq, eq')
              ((fail_on-Free {writes = writes} (clear_defaults schema.fields s.resource).1
                  (errorf "dbw.ClearResourceFields: unable to set value of non-zero field" [])).kept
                (record s { resource = (clear_defaults schema.fields s.resource).0 }))
      ]
    ];
  }

  pub lookup_by-Free :
      (opt : List (Option (Setter G.World))) → Free writes (lookup_by G R ctx conn opt)
  unfolding lookup_by
  lookup_by-Free opt = >>=-Free (underlying-Free _ conn) λ db. >>=-Free get-Free λ s.
      >>-Free (lift-Free _) (
        >>-Free (lift-Free _) (
          >>=-Free (lift-Free _) λ keys.
            >>-Free (ignore_error-Free (clear_default_null_resource_fields-Free db))
              (>>=-Free (finish-Free _ (counting.of_first _)) λ t. fail_on-Free _ _)))

  pub lookup_after_write-Free :
      (opt : List (Option (Setter G.World))) → Free writes (lookup_after_write G R ctx conn opt)
  unfolding lookup_after_write
  lookup_after_write-Free opt =
      >>=-Free get-Free
        λ s. >>-Free (lift-Free _) (when-Free _ (within-Free _ (lookup_by-Free opt)))

  lookup_where-Free :
      (condition : String) (args : List Value) (opt : List (Option (Setter G.World)))
      → Free writes (lookup_where G R ctx conn condition args opt)
  unfolding lookup_where
  lookup_where-Free condition args opt = >>=-Free (underlying-Free _ conn) λ db.
      >>=-Free get-Free λ s. >>-Free (lift-Free _) (
        >>-Free (lift-Free _)
          (>>=-Free (finish-Free _ (counting.of_first _)) λ t. fail_on-Free _ _))

  search_where-Free :
      (condition : String) (args : List Value) (opt : List (Option (Setter G.World)))
      → Free writes (search_where G R ctx conn condition args opt)
  unfolding search_where
  search_where-Free condition args opt = >>=-Free (underlying-Free _ conn) λ db.
      >>-Free (fail_when-Free _ _) (
        >>=-Free get-Free λ s. >>-Free (lift-Free _) (
          >>-Free (lift-Free _)
            (>>=-Free (finish-Free _ (counting.of_find _)) λ t. fail_on-Free _ _)))

  -- If `Counting` holds, `LookupBy`, `LookupWhere` and `SearchWhere` make no write.
  pub lookups_never_write :
      (condition : String) (args : List Value) (opt : List (Option (Setter G.World)))
      (s : State G.World)
      → (writes (lookup_by G R ctx conn opt s).1.world ≡ writes s.world)
        × (writes (lookup_where G R ctx conn condition args opt s).1.world ≡ writes s.world)
        × (writes (search_where G R ctx conn condition args opt s).1.world ≡ writes s.world)
  lookups_never_write condition args opt s = (
    (lookup_by-Free opt).kept s,
    (lookup_where-Free condition args opt).kept s,
    (search_where-Free condition args opt).kept s,
  )

-- ===== src/Keeping/Lookups.antt =====
-- Lookups keep what gorm's `First` keeps, and searches what its `Find` keeps.
use go_dbw.Prelude.{String, Option, List, [], Option-cases, inl, inr}
use go_dbw.Errors.{errorf}
use go_dbw.Reflect.{Value}
use go_dbw.Options.{Setter}
use go_dbw.Gorm.{Gorm, Resources}
use go_dbw.Action.{fail_on}
use go_dbw.Lookup.{
  lookup_by, lookup_after_write, clear_default_null_resource_fields, clear_defaults,
}
use go_dbw.Search.{lookup_where, search_where}
use go_dbw.Keeping.{
  fail_when-Keeps, Keeps, >>=-Keeps, >>-Keeps, lift-Keeps, underlying-Keeps, within-Keeps,
  get-Keeps, fail_on-Keeps, when-Keeps, ignore_error-Keeps, finish-Keeps,
}

module _ (G : Gorm) (R : Resources G.World) (ctx : G.Context) (conn : Option G.Db)
    (P : G.World → Type 0)
    (of_first : (db : G.Db) (v : Value) (w : G.World) → P w → P (G.first db v w).world) where
  clear_default_null_resource_fields-Keeps :
      (db : G.Db) → Keeps P (clear_default_null_resource_fields G R db)
  unfolding clear_default_null_resource_fields fail_on
  clear_default_null_resource_fields-Keeps db = record {
    kept = λ s p. elim (Option-cases (G.parse (G.model s.resource db) s.resource).0) [
      | inr (e, eq) ↦ rw (clear_default_null_resource_fields, eq) p
      | inl eq ↦ elim (Option-cases (G.parse (G.model s.resource db) s.resource).1) [
        | inl eq' ↦ rw (clear_default_null_resource_fields, eq, eq') p
        | inr (schema, eq') ↦
            rw (clear_default_null_resource_fields, eq, eq')
              ((fail_on-Keeps {P = P} (clear_defaults schema.fields s.resource).1
                  (errorf "dbw.ClearResourceFields: unable to set value of non-zero field" [])).kept
                (record s { resource = (clear_defaults schema.fields s.resource).0 }) p)
      ]
    ];
  }

  pub lookup_by-Keeps :
      (opt : List (Option (Setter G.World))) → Keeps P (lookup_by G R ctx conn opt)
  unfolding lookup_by
  lookup_by-Keeps opt = >>=-Keeps (underlying-Keeps _ conn) λ db. >>=-Keeps get-Keeps λ s.
      >>-Keeps (lift-Keeps _) (
        >>-Keeps (lift-Keeps _) (
          >>=-Keeps (lift-Keeps _) λ keys.
            >>-Keeps (ignore_error-Keeps (clear_default_null_resource_fields-Keeps db))
              (>>=-Keeps (finish-Keeps _ (of_first _)) λ t. fail_on-Keeps _ _)))

  pub lookup_after_write-Keeps :
      (opt : List (Option (Setter G.World))) → Keeps P (lookup_after_write G R ctx conn opt)
  unfolding lookup_after_write
  lookup_after_write-Keeps opt =
      >>=-Keeps get-Keeps
        λ s. >>-Keeps (lift-Keeps _) (when-Keeps _ (within-Keeps _ (lookup_by-Keeps opt)))

  pub lookup_where-Keeps :
      (condition : String) (args : List Value) (opt : List (Option (Setter G.World)))
      → Keeps P (lookup_where G R ctx conn condition args opt)
  unfolding lookup_where
  lookup_where-Keeps condition args opt = >>=-Keeps (underlying-Keeps _ conn) λ db.
      >>=-Keeps get-Keeps λ s.
        >>-Keeps (lift-Keeps _)
          (>>-Keeps (lift-Keeps _) (>>=-Keeps (finish-Keeps _ (of_first _)) λ t. fail_on-Keeps _ _))

  pub search_where-Keeps :
      ((db : G.Db) (v : Value) (w : G.World) → P w → P (G.find db v w).world)
      → (condition : String) (args : List Value) (opt : List (Option (Setter G.World)))
      → Keeps P (search_where G R ctx conn condition args opt)
  unfolding search_where
  search_where-Keeps of_find condition args opt = >>=-Keeps (underlying-Keeps _ conn) λ db.
      >>-Keeps (fail_when-Keeps _ _) (
        >>=-Keeps get-Keeps λ s.
          >>-Keeps (lift-Keeps _) (
            >>-Keeps (lift-Keeps _)
              (>>=-Keeps (finish-Keeps _ (of_find _)) λ t. fail_on-Keeps _ _)))

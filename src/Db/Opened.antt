-- ===== src/Db/Opened.antt =====
-- What a connection that was opened is like.
use go_dbw.Prelude.{
  [], ◌∷◌, ◌∙◌, ◌≡◌, refl, ◌==◌, ◌&&◌, Bool, true, false, Option, List, is_positive, to_lower, inl,
  inr, arith, if◌then◌else◌,
}
use go_dbw.Errors.{Outcome, ok, err, panic, Outcome-cases}
use go_dbw.Options.{Options, Setter, get_opts, error, info}
use go_dbw.Reflect.{no_value}
use go_dbw.Gorm.{Gorm}
use go_dbw.Db.{
  Drivers, lt_ℤ, open_dialector, set_up, limit_connections, enable_foreign_keys, use_logger, debug,
  then_do, log_level,
}

ok_inj : {A : Type 0} (a b : A) → ok b ≡ ok a → a ≡ b
ok_inj a b h = cc

module _ (G : Gorm) (D : Drivers G) where
  then_do-ok :
      {A : Type 0} (r : Outcome (Unit {0}) × G.World) (next : G.World → Outcome A × G.World) (a : A)
      → (then_do G D r next).0 ≡ ok a
      → (r.0 ≡ ok tt) × ((next r.1).0 ≡ ok a)
  then_do-ok (ok _, w) next a h = (refl, h)
  then_do-ok (err e, w) next a h = cc
  then_do-ok (panic, w) next a h = cc

  -- Both limits are set, and the maximum is below the minimum.
  abbrev pub limits_clash : Options G.World → Bool
  limits_clash opts =
      is_positive opts.with_max_open_connections
      && (is_positive opts.with_min_open_connections
          && lt_ℤ opts.with_max_open_connections opts.with_min_open_connections)

  limits_in_order :
      (dialect : D.Dialector) (opts : Options G.World) (db : G.Db) (w : G.World)
      → (limit_connections G D dialect opts db w).0 ≡ ok tt
      → limits_clash opts ≡ false
  unfolding limit_connections
  limits_in_order dialect opts db w h = ground arith

  log_mode-debug :
      (on : Bool) (db : G.Db) → debug G D on db ≡ D.log_mode (if on then info else error) db
  unfolding debug log_level
  log_mode-debug true db = refl
  log_mode-debug false db = refl

  set_up_opened :
      (dialect : D.Dialector) (opts : Options G.World) (db db0 : G.Db) (w : G.World)
      → (set_up G D dialect opts db0 w).0 ≡ ok db
      → ((db' : G.Db) × (db ≡ D.log_mode (if opts.with_debug then info else error) db'))
        × (limits_clash opts ≡ false)
  unfolding set_up
  set_up_opened dialect opts db db0 w h =
      let logged : G.Db = use_logger G D opts db0 in
      let keys : Outcome (Unit {0}) × G.World =
        enable_foreign_keys G D (to_lower (D.name_of dialect) == "sqlite")
          "unable to enable sqlite foreign keys" (no_value ∷ []) db0 w in
      let last : G.World → Outcome G.Db × G.World =
        λ v. (ok (debug G D opts.with_debug logged), v) in
      let rest =
        then_do-ok keys (λ v. then_do G D (limit_connections G D dialect opts logged v) last) db
          h in
      let done = then_do-ok (limit_connections G D dialect opts logged keys.1) last db rest.1 in
      (
        (
          logged,
          ok_inj db (debug G D opts.with_debug logged) done.1
              ∙ log_mode-debug opts.with_debug logged,
        ),
        limits_in_order dialect opts logged keys.1 done.0,
      )

  -- If `openDialector` returns a connection, its log level was set last, by whether the options turn debugging on:
  -- the level of `WithLogLevel` is overwritten. And the options' limits on open connections do not clash.
  pub open_dialector_opened :
      (dialect : D.Dialector) (opt : List (Option (Setter G.World))) (w : G.World) (db : G.Db)
      → (open_dialector G D dialect opt w).0 ≡ ok db
      → ((db' : G.Db) × (db ≡ D.log_mode (if (get_opts opt).with_debug then info else error) db'))
        × (limits_clash (get_opts opt) ≡ false)
  unfolding open_dialector
  open_dialector_opened dialect opt w db h = elim (Outcome-cases (D.gorm_open dialect w).0) [
    | inl (db0, eq) ↦
        set_up_opened dialect (get_opts opt) db db0 (D.gorm_open dialect w).1 (ground arith)
    | inr (inl (e, eq)) ↦ absurd (ground arith)
    | inr (inr eq) ↦ absurd (ground arith)
  ]

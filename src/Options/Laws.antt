-- ===== src/Options/Laws.antt =====
-- `GetOpts` as a fold, and the options that are given more than once.
use go_dbw.Prelude.{◌≡◌, refl, ◌∙◌, String, true, Option, some, List, [], ◌∷◌, ◌++◌, map}
use go_dbw.Reflect.{Value}
use go_dbw.Options.{
  Options, Setter, get_default_options, apply_option, apply_options, get_opts, with_where,
  with_lookup,
}

-- The last clause of several, and the arguments of all of them.
abbrev pub last_clause : String → List (String × List Value) → String
last_clause c [] = c
last_clause c (d ∷ ds) = last_clause d.0 ds

abbrev pub all_args : List Value → List (String × List Value) → List Value
all_args xs [] = xs
all_args xs (d ∷ ds) = all_args (xs ++ d.1) ds

module _ {W : Type 0} where
  apply_options-append :
      (opts : Options W) (os ps : List (Option (Setter W)))
      → apply_options opts (os ++ ps) ≡ apply_options (apply_options opts os) ps
  unfolding apply_options
  apply_options-append opts [] ps = refl
  apply_options-append opts (o ∷ os) ps = apply_options-append (apply_option opts o) os ps

  -- The lookup of an update: `append(opt, WithLookup(true))` turns the lookup on, whatever the caller's options say,
  -- and changes nothing else.
  get_opts-with_lookup :
      (os : List (Option (Setter W)))
      → get_opts (os ++ some (with_lookup true) ∷ []) ≡ record (get_opts os) { with_lookup = true }
  unfolding get_opts with_lookup
  get_opts-with_lookup os =
      apply_options-append get_default_options os (some (with_lookup true) ∷ [])

  abbrev pub wheres : List (String × List Value) → List (Option (Setter W))
  wheres cs = map (λ c. some (with_where c.0 c.1)) cs

  apply_wheres :
      (opts : Options W) (cs : List (String × List Value))
      → apply_options opts (wheres cs) ≡ record opts {
        with_where_clause = last_clause opts.with_where_clause cs;
        with_where_clause_args = all_args opts.with_where_clause_args cs;
      }
  unfolding apply_options with_where
  apply_wheres opts [] = refl
  apply_wheres opts (c ∷ cs) = apply_wheres (with_where c.0 c.1 opts) cs

  -- `WithWhere` given several times keeps the last clause and the arguments of all of them.
  get_opts-wheres :
      (os : List (Option (Setter W))) (cs : List (String × List Value))
      → get_opts (os ++ wheres cs) ≡ record (get_opts os) {
        with_where_clause = last_clause (get_opts os).with_where_clause cs;
        with_where_clause_args = all_args (get_opts os).with_where_clause_args cs;
      }
  unfolding get_opts
  get_opts-wheres os cs =
      apply_options-append get_default_options os (wheres cs) ∙ apply_wheres (get_opts os) cs

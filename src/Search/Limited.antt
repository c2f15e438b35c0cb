-- ===== src/Search/Limited.antt =====
-- How many resources a search finds.
use go_dbw.Prelude.{
  ◌≡◌, ◌≢◌, ◌⊎◌, ap, ◌∙◌, ℕ, zero, suc, ◌≤◌, ℤ, pos, String, ◌==◌, not, Option, some, List,
  Bool-cases, Option-cases, inl, inr, if◌then◌else◌,
}
use go_dbw.Errors.{Outcome, ok, err, panic, Error, fails_or}
use go_dbw.Reflect.{Value, indirect, len}
use go_dbw.Options.{Options, Setter, get_opts}
use go_dbw.Gorm.{Gorm, Resources, Bind, Written}
use go_dbw.Action.{State, ◌>>=◌, get, finish, fail_on}
use go_dbw.Lookup.{debug_then_table}
use go_dbw.Search.{default_limit, limited, search_statement, search_where}
use go_dbw.Steps.{fail_when-step, check-step, underlying-step}

-- gorm's `Limit`: the statement has the limit that was set last, other parts of it do not change it, and
-- `Find` finds no more than the limit.
pub record Limits (G : Gorm) (limit_of : G.Db → Option ℤ) : Type 0 where
  pub of_limit : (n : ℤ) (db : G.Db) → limit_of (G.limit n db) ≡ some n
  pub of_where :
      (c : String) (bs : List Bind) (db : G.Db) → limit_of (G.where_clause c bs db) ≡ limit_of db
  pub of_find :
      (n : ℕ) (db : G.Db) (v : Value) (w : G.World)
      → limit_of db ≡ some (pos n)
      → len (indirect (G.find db v w).resource) ≤ n

-- The limit that stands for the one of the options
abbrev pub effective : ℕ → ℕ
effective zero = 10000
effective (suc n) = suc n

-- The read's resource is the search's.
after_find :
    {W : Type 0} (f : Error → Error) (t : Written W) (s : State W) (n : ℕ)
    → len (indirect t.resource) ≤ n
    → (fail_on t.error f (record s { resource = t.resource; world = t.world })).0 ≡ ok tt
    → len (
        indirect
          (fail_on t.error f (record s { resource = t.resource; world = t.world })).1.resource)
      ≤ n
unfolding fail_on
after_find f t s n le h = elim (Option-cases t.error) [
  | inl eq ↦ rw (eq, fail_on) le
  | inr (e, eq) ↦ rw (eq, fail_on) le
]

module _ (G : Gorm) (R : Resources G.World) (limit_of : G.Db → Option ℤ)
    (limits : Limits G limit_of) where
  limit_of-limited :
      (n : ℕ) (db : G.Db) → limit_of (limited G R (pos n) db) ≡ some (pos (effective n))
  unfolding limited
  limit_of-limited zero db = limits.of_limit default_limit db
  limit_of-limited (suc n) db = limits.of_limit (pos (suc n)) db

  limit_of-search_statement :
      (opts : Options G.World) (condition : String) (args : List Value) (db : G.Db) (n : ℕ)
      → opts.with_limit ≡ pos n
      → limit_of (search_statement G R opts condition args db) ≡ some (pos (effective n))
  unfolding search_statement
  limit_of-search_statement opts condition args db n at_limit =
      let ordered : G.Db = if not (opts.with_order == "") then G.order opts.with_order db else db in
      let db' : G.Db = limited G R opts.with_limit (debug_then_table G opts ordered) in
      let at_db' : limit_of db' ≡ some (pos (effective n)) =
        ap (λ l. limit_of (limited G R l (debug_then_table G opts ordered))) at_limit
        ∙ limit_of-limited n (debug_then_table G opts ordered) in
      elim (Bool-cases (condition == "")) [
        | inl all ↦ rw all at_db'
        | inr some_condition ↦ rw some_condition (limits.of_where _ _ db' ∙ at_db')
      ]

  -- If the database `Limits`, a `SearchWhere` whose option is a limit that is not negative returns an error, or it
  -- has found at most that many resources, or at most 10000 for the limit 0, whatever the other options and
  -- the condition are.
  pub search_where-limited :
      (ctx : G.Context) (conn : Option G.Db) (condition : String) (args : List Value)
      (opt : List (Option (Setter G.World))) (s : State G.World) (n : ℕ)
      → (get_opts opt).with_limit ≡ pos n
      → ((search_where G R ctx conn condition args opt s).0 ≢ ok tt)
        ⊎ (len (indirect (search_where G R ctx conn condition args opt s).1.resource) ≤ effective n)
  unfolding search_where ◌>>=◌ get finish
  search_where-limited ctx conn condition args opt s n at_limit =
      let Q : Outcome (Unit {0}) × State G.World → Type 0 =
        λ r. r.0 ≡ ok tt → len (indirect r.1.resource) ≤ effective n in
      let fails : (e : Error) → Q (err e, s) = λ e h. cc in
      let panics : Q (panic, s) = λ h. cc in
      fails_or _ (
        underlying-step Q s fails panics _ _ conn λ db. fail_when-step Q s fails panics _ _ _ (
          check-step Q s fails panics _ _ λ _. check-step Q s fails panics _ _ λ _.
            let st : G.Db =
              search_statement G R (get_opts opt) condition args (G.with_context ctx db) in
            after_find _ (G.find st s.resource s.world) s (effective n) (
              limits.of_find (effective n) st s.resource s.world
                (limit_of-search_statement (get_opts opt) condition args _ n at_limit))))

-- ===== src/Delete/Locked.antt =====
-- `Delete` with a version that is not the row's.
use go_dbw.Prelude.{
  ◌≡◌, ◌≢◌, refl, sym, ap, ◌∙◌, ℕ, ℤ, pos, String, Option, some, List, [], ◌⊎◌, inl, inr,
  Option-cases, Bool-cases, is_positive,
}
use go_dbw.Errors.{Outcome, ok, err, panic, Error, errorf, Outcome-cases, fails_or}
use go_dbw.Reflect.{Value}
use go_dbw.Options.{Options, Setter, get_opts}
use go_dbw.Gorm.{Gorm, Resources}
use go_dbw.Action.{
  State, Action, ◌>>=◌, ◌>>◌, get, pure, within, when, call, finish, fail_on, return_rows,
  no_rows_affected,
}
use go_dbw.Inversion.{then_gave, get_passed, lift_gave, lift_passed, fail_on_passed}
use go_dbw.Writing.{after_write}
use go_dbw.Keeping.{>>-Keeps, return_rows-Keeps, fail_on-Keeps, after_write-Keeps}
use go_dbw.Keeping.States.{Stays, >>=-Stays, >>-Stays, lift-Stays, get-Stays, pure-Stays}
use go_dbw.Steps.{fail_when-step, check-step, underlying-step}
use go_dbw.Locks.{
  Locks, CallbacksSpare, IsVersioned, Same, Stale, Refused, spare-CallbacksKeep, before_write-Stale,
  then_returned,
}
use go_dbw.Locks.Statement.{conditions_ask, debug_then_table_asks}
use go_dbw.Lookup.{debug_then_table}
use go_dbw.Delete.{prepare_delete, delete}

-- The callback after the write leaves the count.
after_write_returned :
    {W : Type 0} (message : String) (opts : Options W) (n : ℤ) (s : State W)
    → (after_write message opts n s).1.returned ≡ s.returned
unfolding after_write within when call pure
after_write_returned message opts n s = elim (Option-cases opts.with_after_write) [
  | inl eq ↦ rw (after_write, eq) refl
  | inr (fn, eq) ↦ elim (Bool-cases (is_positive n)) [
    | inl some_rows ↦ rw (after_write, eq, some_rows) refl
    | inr no_rows ↦ rw (after_write, eq, no_rows) refl
  ]
]

count_returned :
    {W : Type 0} (message : String) (opts : Options W) (n : ℤ) (s : State W)
    → ((return_rows n >> after_write message opts n) s).1.returned ≡ n
unfolding ◌>>◌ ◌>>=◌ return_rows
count_returned message opts n s = after_write_returned message opts n (record s { returned = n })

module _ (G : Gorm) (R : Resources G.World) (ctx : G.Context) (conn : Option G.Db) {A K : Type 0}
    (data_of : G.World → A) (key : Value → K) (version_of : K → A → Option ℕ)
    (asked_by : G.Db → Option ℕ) (v : ℕ) (locks : Locks G R data_of key version_of asked_by v)
    (opt : List (Option (Setter G.World))) (spare : CallbacksSpare data_of key (get_opts opt))
    (alone : IsVersioned (get_opts opt) v) (a : A) where
  prepare_delete-Stays :
      (k : K) (db : G.Db) → Stays (Stale data_of key a k) (prepare_delete G R ctx db (get_opts opt))
  unfolding prepare_delete
  prepare_delete-Stays k db = >>=-Stays get-Stays λ s. >>=-Stays (lift-Stays _) λ schema.
      >>-Stays (lift-Stays _) (
        >>-Stays (before_write-Stale data_of key a (get_opts opt) spare k _)
          (>>=-Stays get-Stays λ s. >>=-Stays (lift-Stays _) λ st. pure-Stays _))

  -- The statement that is prepared asks for the version.
  prepared_asks :
      (db : G.Db) (s : State G.World) (st : G.Db)
      → (prepare_delete G R ctx db (get_opts opt) s).0 ≡ ok st
      → asked_by st ≡ some v
  unfolding prepare_delete pure
  prepared_asks db s st h =
      let (schema, _, h1) = lift_gave s _ _ (get_passed s _ h) in
      let (_, h2) = lift_passed s _ _ h1 in
      let (t, _, h3, _) = then_gave _ _ s st h2 in
      let (statement, conditions, h4) = lift_gave t _ _ (get_passed t _ h3) in
      let same : debug_then_table G (get_opts opt) statement ≡ st = cc in
      ap asked_by (sym same)
      ∙ debug_then_table_asks G R data_of key version_of asked_by v locks (get_opts opt) statement
      ∙ conditions_ask G R data_of key version_of asked_by v locks "dbw.Delete" db _ statement
          t.resource (get_opts opt) alone conditions

  -- What follows the preparation
  abbrev sent : G.Db → Action G.World (Unit {0})
  sent statement = do
    t ← finish (G.delete statement)
    fail_on t.error (errorf "dbw.Delete" [])
    return_rows t.rows_affected
    after_write "dbw.Delete: error after write" (get_opts opt) t.rows_affected

  sent_locked :
      (k : K) (st : G.Db) (s : State G.World)
      → asked_by st ≡ some v
      → version_of k a ≢ some v
      → Stale data_of key a k s
      → Refused data_of key a (sent st s)
  unfolding ◌>>=◌ finish return_rows
  sent_locked k st s asks stale (at_key, same) =
      let t = G.delete st s.resource s.world in
      let s1 : State G.World = record s { resource = t.resource; world = t.world } in
      let (kept, no_rows) = locks.of_delete st s.resource s.world asks (rw (at_key, same) stale) in
      let calls = spare-CallbacksKeep data_of key a (get_opts opt) spare in
      (
        (>>-Keeps {P = Same data_of key a} (fail_on-Keeps t.error _)
              (>>-Keeps (return_rows-Keeps _) (after_write-Keeps calls _ _))).kept
            s1 (kept ∙ same),
        λ done.
            let (no_error, _) = fail_on_passed s1 t.error _ _ done in
            let n : ℤ = t.rows_affected in
            then_returned _ _ n s1 (λ x _. count_returned _ (get_opts opt) n x) done
            ∙ no_rows no_error,
      )

  prepared_locked :
      (k : K) (db : G.Db) (s : State G.World)
      → version_of k a ≢ some v
      → Stale data_of key a k s
      → Refused data_of key a ((prepare_delete G R ctx db (get_opts opt) >>= sent) s)
  unfolding ◌>>=◌
  prepared_locked k db s stale at_start =
      let kept = (prepare_delete-Stays k db).kept s at_start in
      elim (Outcome-cases (prepare_delete G R ctx db (get_opts opt) s).0) [
        | inl (st, eq) ↦ rw eq (sent_locked k st _ (prepared_asks db s st eq) stale kept)
        | inr (inl (e, eq)) ↦ rw eq (kept.1, λ h. cc)
        | inr (inr eq) ↦ rw eq (kept.1, λ h. cc)
      ]

-- If the database `Locks` on the version and the callbacks `CallbacksSpare` data and keys, a `Delete` whose only
-- condition is a version that the resource's row does not have changes no data, and returns an error or no
-- rows.
pub delete-locked :
    (G : Gorm) (R : Resources G.World) (ctx : G.Context) (conn : Option G.Db) {A K : Type 0}
    (data_of : G.World → A) (key : Value → K) (version_of : K → A → Option ℕ)
    (asked_by : G.Db → Option ℕ) (v : ℕ)
    → Locks G R data_of key version_of asked_by v
    → (opt : List (Option (Setter G.World))) → CallbacksSpare data_of key (get_opts opt)
    → IsVersioned (get_opts opt) v
    → (s : State G.World) → version_of (key s.resource) (data_of s.world) ≢ some v
    → (data_of (delete G R ctx conn opt s).1.world ≡ data_of s.world)
      × (((delete G R ctx conn opt s).0 ≢ ok tt) ⊎ ((delete G R ctx conn opt s).1.returned ≡ pos 0))
unfolding delete ◌>>=◌ ◌>>◌ return_rows get
delete-locked G R ctx conn data_of key version_of asked_by v locks opt spare alone s stale =
    let s1 : State G.World = record s { returned = no_rows_affected } in
    let Q : Outcome (Unit {0}) × State G.World → Type 0 = Refused data_of key (data_of s.world) in
    let fails : (e : Error) → Q (err e, s1) = λ e. (refl, λ h. refl) in
    let panics : Q (panic, s1) = (refl, λ h. refl) in
    let (kept, no_rows) = underlying-step Q s1 fails panics _ _ conn λ db.
      fail_when-step Q s1 fails panics _ _ _ (
        check-step Q s1 fails panics _ _ λ _.
          prepared_locked G R ctx conn data_of key version_of asked_by v locks opt spare alone
            (data_of s.world) (key s.resource) db s1 stale (refl, refl)) in
    (kept, fails_or _ no_rows)

-- ===== src/Examples/Sessions.antt =====
-- A session on the database that watches its times of creation.
use mathlib.Core.Path.{subst}
use go_dbw.Prelude.{◌≡◌, refl, ℕ, String, none, some, List, [], ◌∷◌}
use go_dbw.Errors.{ok}
use go_dbw.Options.{Options, get_opts}
use go_dbw.Action.{State}
use go_dbw.Update.{update}
use go_dbw.Search.{search_where}
use go_dbw.DoTx.{Backoff, TxHandler, TxResult, Call, no_retries, full_call, attempt, do_tx}
use go_dbw.Keeping.{CallbacksKeep}
use go_dbw.Sessions.{Reach, updated, searched, transacted, here, next}
use go_dbw.Sessions.Kept.{Serves, Reach-keeps}
use go_dbw.Examples.{Counters, at_start, plain_types, holding, user}
use go_dbw.Examples.Kept.{watched, Untouched, Untouched-touched, no_options, both_paths}
use go_dbw.Examples.Transacted.{growing, always}

watched-Serves : Serves watched plain_types ("CreateTime" ∷ []) Untouched
watched-Serves = record {
  of_updates = λ db us v w avoids p. Untouched-touched us w avoids p;
  of_create = λ db v w p. p;
  of_batches = λ db v n w p. p;
  of_delete = λ db v w p. p;
  of_first = λ db v w p. p;
  of_find = λ db v w p. p;
  of_vet = λ u vet h op masks nulls v w p. cc;
  of_begin = λ db w p. p;
  of_commit = λ db w p. p;
  of_rollback = λ db w p. p;
  of_is_done = λ ctx d w p. p;
}

-- Options with no callbacks
abbrev IsPlain : Options Counters → Type 0
IsPlain opts = (opts.with_before_write ≡ none) × (opts.with_after_write ≡ none)

IsPlain-CallbacksKeep : (opts : Options Counters) → IsPlain opts → CallbacksKeep Untouched opts
IsPlain-CallbacksKeep opts (quiet, quiet') = record {
  before = λ fn h v w p. cc;
  after = λ fn h n v w p. cc;
}

no_options-IsPlain : IsPlain (get_opts no_options)
unfolding get_opts
no_options-IsPlain = (refl, refl)

abbrev ann_in : Counters → State Counters
ann_in w = record (holding (user "u1" "ann")) { world = w }

abbrev after_update : Counters → Counters
after_update w =
    (update watched plain_types tt (some tt) both_paths none no_options (ann_in w)).1.world

abbrev updating : TxHandler watched
updating tx w = (ok tt, after_update w)

names_set_in :
    (w : Counters)
    → ◌≡◌ {A = List String} ("CreateTime" ∷ []) (go_dbw.Registry.non_updatable_fields (ann_in w))
unfolding go_dbw.Registry.non_updatable_fields
names_set_in w = refl

abbrev the_call : Call watched
the_call = full_call tt always growing updating 2

-- Where the transaction is begun, and what it leaves
abbrev in_tx : Counters
in_tx = (watched.begin tt at_start).1

abbrev one_try : TxResult Counters
one_try = record {
  info = no_retries;
  outcome = ok tt;
  world = (watched.commit tt (after_update in_tx)).1;
}

tried_once : do_tx watched 4 tt the_call at_start ≡ some one_try
unfolding do_tx attempt
tried_once = refl

updating-Reach :
    (handler : TxHandler watched) (tx : Unit) (v : Counters)
    → the_call.handler ≡ some handler
    → Reach watched plain_types ("CreateTime" ∷ []) IsPlain v (handler tx v).1
updating-Reach handler tx v eq =
    let same : updating ≡ handler = cc in
    subst (λ h. Reach watched plain_types ("CreateTime" ∷ []) IsPlain v (h tx v).1) same
      (next (here v) (
        updated tt (some tt) both_paths none no_options (ann_in v) (names_set_in v)
          no_options-IsPlain))

growing_waits :
    (back_off : Backoff Counters) (n : ℕ) (v : Counters)
    → the_call.back_off ≡ some back_off
    → (back_off n v).1 ≡ v
growing_waits back_off n v eq =
    let same : growing ≡ back_off = cc in subst (λ b. (b n v).1 ≡ v) same refl

abbrev searched_last : Counters
searched_last =
    (search_where watched plain_types tt (some tt) "" [] no_options (ann_in one_try.world)).1.world

-- A transaction with an update, and a search
tx_then_search : Reach watched plain_types ("CreateTime" ∷ []) IsPlain at_start searched_last
tx_then_search =
    next
      (next (here at_start)
        (transacted 4 tt the_call at_start one_try updating-Reach growing_waits tried_once))
      (searched tt (some tt) "" [] no_options (ann_in one_try.world))

Reach-keeps_example : Untouched searched_last
Reach-keeps_example =
    Reach-keeps watched plain_types ("CreateTime" ∷ []) Untouched watched-Serves IsPlain
      IsPlain-CallbacksKeep tx_then_search refl

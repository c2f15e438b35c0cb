-- ===== src/Examples/Batched.antt =====
-- A database that makes a write of each batch.
use go_dbw.Prelude.{
  ◌≡◌, ◌≢◌, ◌⊎◌, refl, ℕ, ◌+◌, ◌≤◌, ℤ, pos, negsuc, Option, some, List, [], ◌∷◌, arith,
}
use go_dbw.Errors.{ok}
use go_dbw.Reflect.{Value, slice, item, nil, ptr_type, named, struct_kind, len}
use go_dbw.Options.{Setter, get_opts, with_batch_size}
use go_dbw.Gorm.{Gorm}
use go_dbw.Create.Items.{create_items}
use go_dbw.Once.{Counting, Quiet}
use go_dbw.Once.Batches.{Batching, KeepsLen, batches, create_items_writes_batches}
use go_dbw.Examples.{Counters, toy, plain_types, holding, user, read}

abbrev batch_count : ℤ → ℕ → ℕ
batch_count (pos size) n = batches n size
batch_count (negsuc _) n = 0

abbrev batched_db : Gorm
batched_db = record toy {
  create_in_batches =
      λ _ v size w. read v (record w { writes = w.writes + batch_count size (len v) });
}

batched_db-Counting : Counting batched_db plain_types (λ w. w.writes)
batched_db-Counting = record {
  of_create = λ db v w. refl;
  of_updates = λ db us v w. refl;
  of_delete = λ db v w. refl;
  of_first = λ db v w. refl;
  of_find = λ db v w. refl;
  of_vet = λ u vet h op masks nulls v w. cc;
}

batched_db-Batching : Batching batched_db (λ w. w.writes)
batched_db-Batching = record { at_most = λ db v k w. omega arith; exactly = λ db v k w e. refl }

abbrev by_twos : List (Option (Setter Counters))
by_twos = some (with_batch_size (pos 2)) ∷ []

by_twos-Quiet : Quiet (λ w. w.writes) (get_opts by_twos)
unfolding get_opts with_batch_size
by_twos-Quiet = record { before = λ fn h v w. cc; after = λ fn h n v w. cc }

by_twos-KeepsLen : KeepsLen (get_opts by_twos)
unfolding get_opts with_batch_size
by_twos-KeepsLen = record { of_before = λ fn h v w. cc }

by_twos_size : (get_opts by_twos).with_batch_size ≡ pos 2
unfolding get_opts with_batch_size
by_twos_size = refl

abbrev three_users : Value
three_users =
    slice (ptr_type (named struct_kind "User"))
      (item (user "u1" "ann") (item (user "u2" "bob") (item (user "u3" "cay") nil)))

create_items_writes_batches_example :
    let run = create_items batched_db plain_types tt (some tt) by_twos (holding three_users) in
    (run.1.world.writes ≤ 2) × ((run.0 ≢ ok tt) ⊎ (run.1.world.writes ≡ 2))
create_items_writes_batches_example =
    create_items_writes_batches batched_db plain_types (λ w. w.writes) batched_db-Counting tt
      (some tt) by_twos (holding three_users) 1 batched_db-Batching by_twos-Quiet by_twos-KeepsLen
      by_twos_size

-- ===== src/Examples.antt =====
-- A small database to run the operations on, and the resources of the examples.
pub mod Sent
pub mod Checks
pub mod Writes
pub mod Transacted
pub mod Kept
pub mod Sessions
pub mod Locked
pub mod Batched
pub mod Succeeding
pub mod Dbtested
pub mod Connected
pub mod Interfaced
pub mod Vetoed
use go_dbw.Prelude.{
  ◌≡◌, refl, ℕ, ◌+◌, ◌-◌, ℤ, pos, String, ◌==◌, Bool, true, false, not, Option, none, some, List,
  [], ◌∷◌, if◌then◌else◌,
}
use go_dbw.Prelude.Dict.{Dict}
use go_dbw.Errors.{Outcome, ok, err, Error, foreign}
use go_dbw.Reflect.{
  Value, Fields, FieldInfo, GoType, named, ptr_type, struct_kind, struct, ptr, text, integer, field,
  done, no_value, indirect, slice, Items, nil, item, iface,
}
use go_dbw.Reflect.Zero.{is_zero}
use go_dbw.Gorm.{Gorm, Resources, Schema, SchemaField, Written}
use go_dbw.Action.{State}

-- The database counts: writes, runs of a handler, and open transactions.
pub record Counters : Type 0 where
  pub writes : ℕ
  pub runs : ℕ
  pub opened : ℕ

abbrev pub at_start : Counters
at_start = record { writes = 0; runs = 0; opened = 0 }

abbrev pub exported_field : String → FieldInfo
exported_field name = record { name = name; exported = true; embedded = false }

abbrev pub hidden_field : String → FieldInfo
hidden_field name = record { name = name; exported = false; embedded = false }

abbrev pub user_fields : String → String → Fields
user_fields id name = field (exported_field "PublicId") (text "string" id) (
    field (exported_field "Name") (text "string" name)
      (field (exported_field "CreateTime") (text "string" "now") done))

abbrev pub user : String → String → Value
user id name = ptr (struct "User" (user_fields id name))

abbrev field_value : String → Fields → Value
field_value name done = no_value
field_value name (field f v fs) = if f.name == name then v else field_value name fs

abbrev field_of : String → Value → Value
field_of name (struct _ fs) = field_value name fs
field_of name _ = no_value

abbrev table_column : String → String → Bool → SchemaField
table_column name db_name primary = record {
  name = name;
  db_name = db_name;
  primary_key = primary;
  updatable = true;
  default_value = "";
  value_of = λ v. (field_of name (indirect v), is_zero (field_of name (indirect v)));
  set_default = λ v. (v, none);
}

abbrev pub users : Schema
users = record {
  table = "users";
  db_names = "public_id" ∷ "name" ∷ "create_time" ∷ "version" ∷ [];
  primary_fields = table_column "PublicId" "public_id" true ∷ [];
  fields =
      table_column "PublicId" "public_id" true
      ∷ table_column "Name" "name" false
      ∷ table_column "CreateTime" "create_time" false
      ∷ [];
}

abbrev pub read : Value → Counters → Written Counters
read v w = record { error = none; rows_affected = pos 1; resource = v; world = w }

abbrev written : Value → Counters → Written Counters
written v w = read v (record w { writes = w.writes + 1 })

-- Nothing of a statement is kept; every write counts one.
abbrev pub toy : Gorm
toy = record {
  Context = Unit;
  World = Counters;
  Db = Unit;
  Conditions = Unit;
  Rows = Unit;
  with_context = λ _ db. db;
  model = λ _ db. db;
  debug = λ db. db;
  table = λ _ db. db;
  order = λ _ db. db;
  limit = λ _ db. db;
  clauses = λ _ db. db;
  where_clause = λ _ _ db. db;
  raw = λ _ _ db. db;
  build_condition = λ _ _ _. tt;
  parse = λ _ _. (none, some users);
  error_of = λ _. none;
  can_begin = λ _. true;
  dialect_name = λ _. "toy";
  create = λ _ v w. written v w;
  create_in_batches = λ _ v _ w. written v w;
  updates = λ _ _ v w. written v w;
  delete = λ _ v w. written v w;
  first = λ _ v w. read v w;
  find = λ _ v w. read v w;
  exec = λ _ _ _ w. written no_value w;
  rows = λ _ w. (ok tt, w);
  scan_rows = λ _ _ v w. read v w;
  begin = λ _ w. (tt, record w { opened = w.opened + 1 });
  commit = λ _ w. (none, record w { opened = w.opened - 1 });
  rollback = λ _ w. (none, record w { opened = w.opened - 1 });
  is_done = λ _ _ w. (false, w);
}

-- Types without any of the methods that the package tests for.
abbrev pub plain_types : Resources Counters
plain_types = record {
  implements = λ _ _. false;
  vet_for_write = λ _. none;
  get_public_id = λ _. none;
  get_private_id = λ _. none;
  table_name = λ _. none;
}

abbrev pub holding : Value → State Counters
holding v = record {
  world = at_start;
  resource = v;
  rows_affected = none;
  returned = pos 0;
  non_creatable = none;
  non_updatable = some ("CreateTime" ∷ []);
}

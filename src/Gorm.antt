-- ===== src/Gorm.antt =====
-- What the package calls and does not implement: gorm with the database behind it, and the methods of
-- the caller's resource types. Both are parameters of every operation.
use go_dbw.Prelude.{ℕ, ℤ, String, Bool, Option, List}
use go_dbw.Prelude.Dict.{Dict}
use go_dbw.Errors.{Error, Outcome}
use go_dbw.Reflect.{Value, GoType}
use go_dbw.Clause.{ConflictClause}
use go_dbw.Common.{Update}

-- gorm's `schema.Field`. `value_of` gives the value and whether it is zero; `set_default` sets the
-- field of a resource to the field's default value.
pub record SchemaField : Type 0 where
  pub name : String
  pub db_name : String
  pub primary_key : Bool
  pub updatable : Bool
  pub default_value : String
  pub value_of : Value → Value × Bool
  pub set_default : Value → Value × Option Error

-- gorm's `schema.Schema`
pub record Schema : Type 0 where
  pub table : String
  pub db_names : List String
  pub primary_fields : List SchemaField
  pub fields : List SchemaField

-- An argument of a condition: the caller's, or the version of `WithVersion`.
pub data Bind : Type 0 where
  bind_value : Value → Bind
  bind_version : ℕ → Bind

-- What a finisher leaves: `Error`, `RowsAffected`, the resource that it wrote to, and the world.
pub record Written (W : Type 0) : Type 0 where
  pub error : Option Error
  pub rows_affected : ℤ
  pub resource : Value
  pub world : W

pub record Gorm : Type 1 where
  pub Context : Type 0
  -- the database, and everything else that calls may change
  pub World : Type 0
  -- a `*gorm.DB`, with the statement that is being built
  pub Db : Type 0
  pub Conditions : Type 0
  pub Rows : Type 0
  pub with_context : Context → Db → Db
  pub model : Value → Db → Db
  pub debug : Db → Db
  pub table : String → Db → Db
  pub order : String → Db → Db
  pub limit : ℤ → Db → Db
  pub clauses : ConflictClause Conditions → Db → Db
  pub where_clause : String → List Bind → Db → Db
  pub raw : String → List Value → Db → Db
  pub build_condition : Db → String → List Bind → Conditions
  -- `Statement.Parse`: the error, and `Statement.Schema` after it
  pub parse : Db → Value → Option Error × Option Schema
  pub error_of : Db → Option Error
  -- whether the connection pool of the statement can begin a transaction
  pub can_begin : Db → Bool
  pub dialect_name : Db → String
  pub create : Db → Value → World → Written World
  pub create_in_batches : Db → Value → ℤ → World → Written World
  pub updates : Db → Dict Update → Value → World → Written World
  pub delete : Db → Value → World → Written World
  pub first : Db → Value → World → Written World
  pub find : Db → Value → World → Written World
  pub exec : Db → String → List Value → World → Written World
  pub rows : Db → World → Outcome Rows × World
  pub scan_rows : Db → Rows → Value → World → Written World
  pub begin : Db → World → Db × World
  pub commit : Db → World → Option Error × World
  pub rollback : Db → World → Option Error × World
  -- whether the context is done before a timer of this length fires
  pub is_done : Context → ℕ → World → Bool × World

-- gorm's hook interfaces that the package refuses
pub data Hook : Type 0 where
  before_create after_create before_save after_save before_update after_update : Hook
  before_delete after_delete after_find : Hook

-- `OpType` of create.go
pub data OpType : Type 0 where
  unknown_op create_op update_op delete_op : OpType

-- What an implementation of `VetForWrite` is given: the operation, and the two path options.
abbrev pub Vetter : Type 0 → Type 0
Vetter W = OpType → List String → List String → Value → W → Outcome (Unit {0}) × Value × W

-- The methods of the caller's types that the package tests for; `none` is a type without the method.
pub record Resources (W : Type 0) : Type 0 where
  pub implements : GoType → Hook → Bool
  pub vet_for_write : Value → Option (Vetter W)
  pub get_public_id : Value → Option String
  pub get_private_id : Value → Option String
  pub table_name : Value → Option String

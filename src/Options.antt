-- ===== src/Options.antt =====
-- option.go: the options of an operation. `W` is the world that the caller's callbacks work on.
pub mod Laws
use go_dbw.Prelude.{ℕ, ℤ, pos, String, Bool, true, false, Option, none, some, List, [], ◌∷◌, ◌++◌}
use go_dbw.Errors.{Outcome}
use go_dbw.Reflect.{Value}
use go_dbw.Clause.{OnConflict}

-- `LogLevel` of db.go, in the order of its constants
pub data LogLevel : Type 0 where
  default silent error warn info : LogLevel

-- An `hclog.Logger`, by whether it implements `LogWriter` too
pub data Logger : Type 0 where
  hc_logger log_writer : String → Logger

-- A callback may change the resource and the world before it returns or fails.
abbrev pub Callback : Type 0 → Type 0
Callback W = Value → W → Outcome (Unit {0}) × Value × W

-- The nil pointer, function or interface is `none`. The target of `with_rows_affected` is not
-- modelled here, only whether there is one; `with_version` is the number that its pointer shows.
pub record Options (W : Type 0) : Type 0 where
  pub with_before_write : Option (Callback W)
  pub with_after_write : Option (ℤ → Callback W)
  pub with_lookup : Bool
  pub with_limit : ℤ
  pub with_field_mask_paths : List String
  pub with_null_paths : List String
  pub with_version : Option ℕ
  pub with_skip_vet_for_write : Bool
  pub with_where_clause : String
  pub with_where_clause_args : List Value
  pub with_order : String
  pub with_prng_values : List String
  pub with_logger : Option Logger
  pub with_max_open_connections : ℤ
  pub with_min_open_connections : ℤ
  pub with_debug : Bool
  pub with_on_conflict : Option OnConflict
  pub with_rows_affected : Bool
  pub with_table : String
  pub with_batch_size : ℤ
  pub with_log_level : LogLevel

abbrev pub default_batch_size : ℤ
default_batch_size = pos 1000

unfoldable pub get_default_options : {W : Type 0} → Options W
get_default_options = record {
  with_before_write = none;
  with_after_write = none;
  with_lookup = false;
  with_limit = pos 0;
  with_field_mask_paths = [];
  with_null_paths = [];
  with_version = none;
  with_skip_vet_for_write = false;
  with_where_clause = "";
  with_where_clause_args = [];
  with_order = "";
  with_prng_values = [];
  with_logger = none;
  with_max_open_connections = pos 0;
  with_min_open_connections = pos 0;
  with_debug = false;
  with_on_conflict = none;
  with_rows_affected = false;
  with_table = "";
  with_batch_size = default_batch_size;
  with_log_level = error;
}

-- `Option` of the source, a function on the options.
abbrev pub Setter : Type 0 → Type 0
Setter W = Options W → Options W

module _ {W : Type 0} where
  -- One round of the loop of `GetOpts`; a nil option is passed over.
  unfoldable pub apply_option : Options W → Option (Setter W) → Options W
  apply_option opts none = opts
  apply_option opts (some o) = o opts

  unfoldable pub apply_options : Options W → List (Option (Setter W)) → Options W
  unfolding apply_option
  apply_options opts [] = opts
  apply_options opts (o ∷ os) = apply_options (apply_option opts o) os

  unfoldable pub get_opts : List (Option (Setter W)) → Options W
  unfolding apply_options get_default_options
  get_opts os = apply_options get_default_options os

  unfoldable pub with_before_write : Option (Callback W) → Setter W
  with_before_write fn o = record o { with_before_write = fn }

  unfoldable pub with_after_write : Option (ℤ → Callback W) → Setter W
  with_after_write fn o = record o { with_after_write = fn }

  unfoldable pub with_lookup : Bool → Setter W
  with_lookup enable o = record o { with_lookup = enable }

  unfoldable pub with_field_mask_paths : List String → Setter W
  with_field_mask_paths paths o = record o { with_field_mask_paths = paths }

  unfoldable pub with_null_paths : List String → Setter W
  with_null_paths paths o = record o { with_null_paths = paths }

  unfoldable pub with_limit : ℤ → Setter W
  with_limit limit o = record o { with_limit = limit }

  unfoldable pub with_version : Option ℕ → Setter W
  with_version version o = record o { with_version = version }

  unfoldable pub with_skip_vet_for_write : Bool → Setter W
  with_skip_vet_for_write enable o = record o { with_skip_vet_for_write = enable }

  unfoldable pub with_where : String → List Value → Setter W
  with_where where_clause args o = record o {
    with_where_clause = where_clause;
    with_where_clause_args = o.with_where_clause_args ++ args;
  }

  unfoldable pub with_order : String → Setter W
  with_order order o = record o { with_order = order }

  unfoldable pub with_prng_values : List String → Setter W
  with_prng_values values o = record o { with_prng_values = values }

  unfoldable pub with_logger : Option Logger → Setter W
  with_logger l o = record o { with_logger = l }

  unfoldable pub with_max_open_connections : ℤ → Setter W
  with_max_open_connections max o = record o { with_max_open_connections = max }

  unfoldable pub with_min_open_connections : ℤ → Setter W
  with_min_open_connections max o = record o { with_min_open_connections = max }

  unfoldable pub with_debug : Bool → Setter W
  with_debug with_it o = record o { with_debug = with_it }

  unfoldable pub with_on_conflict : Option OnConflict → Setter W
  with_on_conflict on_conflict o = record o { with_on_conflict = on_conflict }

  unfoldable pub with_return_rows_affected : Bool → Setter W
  with_return_rows_affected rows_affected o = record o { with_rows_affected = rows_affected }

  unfoldable pub with_table : String → Setter W
  with_table name o = record o { with_table = name }

  unfoldable pub with_log_level : LogLevel → Setter W
  with_log_level l o = record o { with_log_level = l }

  unfoldable pub with_batch_size : ℤ → Setter W
  with_batch_size size o = record o { with_batch_size = size }

-- ===== src/Handlers.antt =====
-- orm/sharding.go: the sharding manager of a DB, over a router. Each call is one step on the state;
-- a DB is a value of `D`, a value of a shard key one of `A`, and a router has its state in `R`.
pub mod Chain
pub mod Agreement
pub mod Shards
pub mod Tests
use fyer_webframe.Base.{Bool, true, false, not, List, [], ◌∷◌, Option, none, some, if◌then◌else◌}
use fyer_webframe.Base.Text.{Text}
use fyer_webframe.Base.Map.{Map, lookup, insert}
use fyer_webframe.Base.Int.{ℤ}
use fyer_webframe.Middleware.{text_is}

pub data RouteError : Type 0 where
  sharding_disabled : RouteError
  model_not_registered : RouteError
  no_shard_key_found : RouteError
  shard_not_available : RouteError
  not_a_struct : RouteError
  strategy_refused : RouteError

-- The names of a database and a table, and the error beside them.
pub record Names : Type 0 where
  pub db_name : Text
  pub table_name : Text
  pub failed : Option RouteError

-- Route is none where it returns an error.
pub record ShardingStrategy (A : Type 0) : Type 0 where
  pub route : A → Option (ℤ × ℤ)
  pub get_shard_name : ℤ → ℤ → Names
  pub get_shard_key : Text

-- The methods of a ShardingRouter that the manager calls.
pub record ShardingRouter (A R : Type 0) : Type 0 where
  pub calculate_route : Text → Map A → R → R × Names
  pub register_strategy : Text → ShardingStrategy A → R → R

pub record ModelInfo (A : Type 0) : Type 0 where
  pub strategy : ShardingStrategy A
  pub default_db_name : Text

pub record ShardingManager (A R D : Type 0) : Type 0 where
  pub shards : Map D
  pub router : R
  pub default_db : D
  pub model_cache : Map (ModelInfo A)
  pub enabled : Bool

pub record Target (D : Type 0) : Type 0 where
  pub db : D
  pub table_name : Text
  pub failed : Option RouteError

-- The value of a field, or the error of extractShardKeyValue.
pub data Extracted (A : Type 0) : Type 0 where
  extracted : A → Extracted A
  refused : RouteError → Extracted A

-- extractShardKeyValue, for the exported fields of a struct, none for another value. The loop behind
-- FieldByName looks for the same name.
abbrev field_value : {A : Type 0} → Option A → Extracted A
field_value none = refused no_shard_key_found
field_value (some v) = extracted v

unfoldable pub extract_shard_key_value : {A : Type 0} → Option (Map A) → Text → Extracted A
extract_shard_key_value none key = refused not_a_struct
extract_shard_key_value (some fields) key = field_value (lookup key fields)

abbrev pub no_names : RouteError → Names
no_names e = record { db_name = []; table_name = []; failed = some e }

-- defaultShardingRouter, whose state is the map of strategies.
module _ {A : Type 0} where
  abbrev pub names_at : ShardingStrategy A → Option (ℤ × ℤ) → Names
  names_at strategy none = no_names strategy_refused
  names_at strategy (some (db_index, table_index)) = strategy.get_shard_name db_index table_index

  abbrev pub names_by_value : ShardingStrategy A → Option A → Names
  names_by_value strategy none = no_names no_shard_key_found
  names_by_value strategy (some v) = names_at strategy (strategy.route v)

  abbrev pub names_by : Map A → Option (ShardingStrategy A) → Names
  names_by values none = no_names model_not_registered
  names_by values (some strategy) = names_by_value strategy (lookup strategy.get_shard_key values)

  unfoldable pub default_sharding_router : ShardingRouter A (Map (ShardingStrategy A))
  default_sharding_router = record {
    calculate_route =
        λ name values strategies. (strategies, names_by values (lookup name strategies));
    register_strategy = insert;
  }

-- The model's own default shard where it is registered, else what is said of the default DB.
abbrev pub default_shard : {D : Type 0} → Text → Target D → Option D → Target D
default_shard table otherwise none = otherwise
default_shard table otherwise (some db) = record { db = db; table_name = table; failed = none }

module _ {A R D : Type 0} where
  -- NewShardingManager
  abbrev pub new_sharding_manager : D → R → ShardingManager A R D
  new_sharding_manager default_db router = record {
    shards = [];
    router = router;
    default_db = default_db;
    model_cache = [];
    enabled = true;
  }

  -- RegisterShard
  unfoldable pub register_shard : Text → D → ShardingManager A R D → ShardingManager A R D
  register_shard name db m = record m { shards = insert name db m.shards }

  -- SetDefaultDB
  unfoldable pub set_default_db : D → ShardingManager A R D → ShardingManager A R D
  set_default_db db m = record m { default_db = db }

  -- Enable and Disable
  unfoldable pub set_enabled : Bool → ShardingManager A R D → ShardingManager A R D
  set_enabled enabled m = record m { enabled = enabled }

  abbrev pub to_default : ShardingManager A R D → Text → Option RouteError → Target D
  to_default m table failed = record { db = m.default_db; table_name = table; failed = failed }

  -- The shard under the name of the database, or the default one with an error.
  abbrev pub to_shard : ShardingManager A R D → Text → Option D → Target D
  to_shard m table none = to_default m table (some shard_not_available)
  to_shard m table (some db) = record { db = db; table_name = table; failed = none }

  abbrev pub own_default : ShardingManager A R D → ModelInfo A → Text → Target D → Target D
  own_default m info table otherwise =
      if not (text_is info.default_db_name [])
      then default_shard table otherwise (lookup info.default_db_name m.shards)
      else otherwise

  abbrev pub fall_back : ShardingManager A R D → Names → Option (ModelInfo A) → Target D
  fall_back m names none = to_default m [] none
  fall_back m names (some info) =
      own_default m info names.table_name (to_default m names.table_name none)

  abbrev pub target_of : ShardingManager A R D → Text → Names → Option RouteError → Target D
  target_of m name names none = to_shard m names.table_name (lookup names.db_name m.shards)
  target_of m name names (some e) = fall_back m names (lookup name m.model_cache)

  abbrev pub routed : ShardingManager A R D → Text → R × Names → ShardingManager A R D × Target D
  routed m name (r, names) = (record m { router = r }, target_of m name names names.failed)

  module _ (api : ShardingRouter A R) where
    -- RegisterModelInfo
    unfoldable pub register_model_info :
        Text → ShardingStrategy A → Text → ShardingManager A R D → ShardingManager A R D
    register_model_info name strategy default_db_name m = record m {
      router = api.register_strategy name strategy m.router;
      model_cache =
          insert name (record { strategy = strategy; default_db_name = default_db_name })
            m.model_cache;
    }

    -- Route
    unfoldable pub route : Text → Map A → ShardingManager A R D → ShardingManager A R D × Target D
    route name values m =
        if not m.enabled
        then (m, to_default m [] (some sharding_disabled))
        else routed m name (api.calculate_route name values m.router)

    -- RouteWithKey
    unfoldable pub route_with_key :
        Text → Text → A → ShardingManager A R D → ShardingManager A R D × Target D
    unfolding route
    route_with_key name key v m = route name ((key, v) ∷ []) m

  -- RouteForModel
  abbrev pub model_names : ShardingManager A R D → Names → Option RouteError → Target D
  model_names m names none = to_shard m names.table_name (lookup names.db_name m.shards)
  model_names m names (some e) = to_default m [] (some e)

  abbrev pub model_at : ShardingManager A R D → ModelInfo A → Option (ℤ × ℤ) → Target D
  model_at m info none = own_default m info [] (to_default m [] (some strategy_refused))
  model_at m info (some (db_index, table_index)) =
      let names = info.strategy.get_shard_name db_index table_index in
      model_names m names names.failed

  abbrev pub model_value : ShardingManager A R D → ModelInfo A → Extracted A → Target D
  model_value m info (refused e) = to_default m [] (some e)
  model_value m info (extracted v) = model_at m info (info.strategy.route v)

  abbrev pub model_info : ShardingManager A R D → Option (Map A) → Option (ModelInfo A) → Target D
  model_info m model none = to_default m [] (some model_not_registered)
  model_info m model (some info) =
      model_value m info (extract_shard_key_value model info.strategy.get_shard_key)

  unfoldable pub route_for_model : Text → Option (Map A) → ShardingManager A R D → Target D
  unfolding extract_shard_key_value
  route_for_model name model m =
      if not m.enabled
      then to_default m [] (some sharding_disabled)
      else model_info m model (lookup name m.model_cache)

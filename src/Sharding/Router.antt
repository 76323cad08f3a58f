-- ===== src/Sharding/Router.antt =====
-- orm/internal/sharding/router.go: the router with its aliases and its cache of routes. Each call is
-- one step on the state, and a ModelInfo is a value that no caller shares.
use fyer_webframe.Base.{
  ℕ, Bool, true, false, not, List, [], ◌∷◌, ◌++◌, Option, none, some, if◌then◌else◌,
}
use fyer_webframe.Base.Text.{Text, codes}
use fyer_webframe.Base.Map.{Map, lookup, insert}
use fyer_webframe.Base.Int.{ℤ, pos, ltℤ}
use fyer_webframe.Sharding.Strategy.{
  BaseStrategy, Key, nil_key, signed, unsigned, text, bytes, named_signed, named_unsigned,
  named_text, other, StrategyError, Routed, routed, unrouted, route_panic, Named, named, unnamed,
  get_shard_name, hash_route, range_route, mod_route,
}

-- A value of the interface Strategy: nil, one of the three strategies, a DateStrategy or another
-- implementation; the last two are given by their methods and by the ShardKey that the router reads.
-- Their GetShardName may read time.Now, the first number, as that of a DateStrategy does where the
-- prefix of its tables has a "%".
pub data Strategy : Type 0 where
  no_strategy : Strategy
  hash_strategy : BaseStrategy → Strategy
  range_strategy : BaseStrategy → List ℤ → Strategy
  mod_strategy : BaseStrategy → Strategy
  date_strategy : (Key → Routed) → (ℕ → ℤ → ℤ → Named) → Text → Strategy
  other_strategy : (Key → Routed) → (ℕ → ℤ → ℤ → Named) → Option Text → Strategy

pub record ModelInfo : Type 0 where
  pub strategy : Strategy
  pub shard_key : Text
  pub table_prefix : Text
  pub default_db_index : ℤ

-- `clock` is what time.Now answers in a call.
pub record Router : Type 0 where
  pub models : Map ModelInfo
  pub aliases : Map Text
  pub route_cache : Map (Text × Text)
  pub cache_size : ℤ
  pub clock : ℕ

pub data RouterError : Type 0 where
  model_not_found : RouterError
  strategy_not_found : RouterError
  no_shard_key_found : RouterError
  empty_values : RouterError
  not_a_struct : RouterError
  route_failed : StrategyError → RouterError

pub data RouteResult : Type 0 where
  route_ok : Text → Text → RouteResult
  route_err : RouterError → RouteResult
  route_panics : RouteResult

-- NewDefaultRouter
unfoldable pub new_default_router : Router
new_default_router = record {
  models = [];
  aliases = [];
  route_cache = [];
  cache_size = pos 1000;
  clock = 0;
}

-- A call at another time.
abbrev pub at_time : ℕ → Router → Router
at_time now r = record r { clock = now }

-- WithCacheSize
unfoldable pub with_cache_size : ℤ → Router → Router
with_cache_size size r = record r { cache_size = size }

-- The shard key that the type switch of RegisterStrategy finds.
abbrev known_key : Strategy → Option Text
known_key no_strategy = none
known_key (hash_strategy s) = some s.shard_key
known_key (range_strategy s ranges) = some s.shard_key
known_key (mod_strategy s) = some s.shard_key
known_key (date_strategy route name k) = some k
known_key (other_strategy route name k) = none

-- The same, with what reflection finds where the switch finds nothing.
abbrev reflected_key : Strategy → Option Text
reflected_key no_strategy = none
reflected_key (hash_strategy s) = some s.shard_key
reflected_key (range_strategy s ranges) = some s.shard_key
reflected_key (mod_strategy s) = some s.shard_key
reflected_key (date_strategy route name k) = some k
reflected_key (other_strategy route name k) = k

abbrev or_else : Text → Option Text → Text
or_else d none = d
or_else d (some t) = t

abbrev with_strategy : Strategy → Option ModelInfo → ModelInfo
with_strategy s none = record {
  strategy = s;
  shard_key = or_else [] (reflected_key s);
  table_prefix = [];
  default_db_index = pos 0;
}
with_strategy s (some info) = record info {
  strategy = s;
  shard_key = or_else info.shard_key (known_key s);
}

-- RegisterStrategy
unfoldable pub register_strategy : Text → Strategy → Router → Router
register_strategy model s r = record r {
  models = insert model (with_strategy s (lookup model r.models)) r.models;
}

-- RegisterModelInfo
unfoldable pub register_model_info : Text → ModelInfo → Router → Router
register_model_info model info r = record r { models = insert model info r.models }

-- RegisterModelAlias
unfoldable pub register_model_alias : Text → Text → Router → Router
register_model_alias alias model r = record r { aliases = insert alias model r.aliases }

-- The name behind an alias.
abbrev pub resolve_alias : Text → Router → Text
resolve_alias model r = or_else model (lookup model r.aliases)

-- GetModelInfo
unfoldable pub get_model_info : Text → Router → Option ModelInfo
get_model_info model r = lookup (resolve_alias model r) r.models

-- ClearCache
unfoldable pub clear_cache : Router → Router
clear_cache r = record r { route_cache = [] }

-- Strategy.Route; a nil interface panics.
abbrev pub route_of : Strategy → Key → Routed
route_of no_strategy key = route_panic
route_of (hash_strategy s) key = hash_route s key
route_of (range_strategy s ranges) key = range_route s ranges key
route_of (mod_strategy s) key = mod_route s key
route_of (date_strategy route name k) key = route key
route_of (other_strategy route name k) key = route key

abbrev named_result : Named → RouteResult
named_result (named db table) = route_ok db table
named_result (unnamed e) = route_err (route_failed e)

-- Strategy.GetShardName
abbrev pub name_of : ℕ → Strategy → ℤ → ℤ → RouteResult
name_of now no_strategy db table = route_panics
name_of now (hash_strategy s) db table = named_result (get_shard_name s db table)
name_of now (range_strategy s ranges) db table = named_result (get_shard_name s db table)
name_of now (mod_strategy s) db table = named_result (get_shard_name s db table)
name_of now (date_strategy route name k) db table = named_result (name now db table)
name_of now (other_strategy route name k) db table = named_result (name now db table)

abbrev pub name_routed : ℕ → Strategy → Routed → RouteResult
name_routed now s (routed db table) = name_of now s db table
name_routed now s (unrouted e) = route_err (route_failed e)
name_routed now s route_panic = route_panics

-- Route, and GetShardName of its result.
abbrev pub shard_of : ℕ → Strategy → Key → RouteResult
shard_of now s key = name_routed now s (route_of s key)

-- TypeOf(v).String() and ValueOf(v).String(): the latter gives a string itself, and only the type's
-- name for a value of another kind. TypeOf(nil).String() panics.
abbrev value_text : Text → Text
value_text type = type ++ codes ":<" ++ type ++ codes " Value>"

abbrev shown : Key → Option Text
shown nil_key = none
shown (signed type z) = some (value_text type)
shown (unsigned type n) = some (value_text type)
shown (text t) = some (codes "string:" ++ t)
shown (bytes t) = some (value_text (codes "[]uint8"))
shown (named_signed type z) = some (value_text type)
shown (named_unsigned type n) = some (value_text type)
shown (named_text type t) = some (type ++ codes ":" ++ t)
shown (other type) = some (value_text type)

abbrev prefixed : Text → Option Text → Option Text
prefixed model none = none
prefixed model (some t) = some (model ++ 58 ∷ t)

-- getCacheKey
unfoldable pub get_cache_key : Text → Key → Option Text
get_cache_key model key = prefixed model (shown key)

-- A route that was found is stored.
abbrev pub remember : Text → Router → RouteResult → Router × RouteResult
remember cache_key r (route_ok db table) =
    (record r { route_cache = insert cache_key (db, table) r.route_cache }, route_ok db table)
remember cache_key r (route_err e) = (r, route_err e)
remember cache_key r route_panics = (r, route_panics)

abbrev pub cached : Text → Strategy → Key → Router → Option (Text × Text) → Router × RouteResult
cached cache_key s key r none = remember cache_key r (shard_of r.clock s key)
cached cache_key s key r (some names) = (r, route_ok names.0 names.1)

abbrev pub keyed : Strategy → Key → Router → Option Text → Router × RouteResult
keyed s key r none = (r, route_panics)
keyed s key r (some cache_key) = cached cache_key s key r (lookup cache_key r.route_cache)

abbrev pub is_nil_strategy : Strategy → Bool
is_nil_strategy no_strategy = true
is_nil_strategy (hash_strategy s) = false
is_nil_strategy (range_strategy s ranges) = false
is_nil_strategy (mod_strategy s) = false
is_nil_strategy (date_strategy route name k) = false
is_nil_strategy (other_strategy route name k) = false

abbrev pub by_value : Text → ModelInfo → Router → Option Key → Router × RouteResult
by_value model info r none = (
  r,
  if not (ltℤ info.default_db_index (pos 0))
      then name_of r.clock info.strategy info.default_db_index (pos 0)
      else route_err no_shard_key_found,
)
by_value model info r (some key) = keyed info.strategy key r (get_cache_key model key)

abbrev pub with_info : Text → Map Key → Router → Option ModelInfo → Router × RouteResult
with_info model values r none = (r, route_err model_not_found)
with_info model values r (some info) =
    if is_nil_strategy info.strategy
    then (r, route_err strategy_not_found)
    else by_value model info r (lookup info.shard_key values)

-- CalculateRoute; GetModelInfo looks the resolved name up among the aliases once more.
unfoldable pub calculate_route : Text → Map Key → Router → Router × RouteResult
calculate_route model [] r = (r, route_err empty_values)
calculate_route model (v ∷ vs) r =
    let resolved = resolve_alias model r in
    with_info resolved (v ∷ vs) r (get_model_info resolved r)

-- CalculateRouteForValue
unfoldable pub calculate_route_for_value : Text → Text → Key → Router → Router × RouteResult
calculate_route_for_value model name key r = calculate_route model ((name, key) ∷ []) r

-- A struct's fields, with none for the value of one that is not exported.
abbrev pub Fields : Type 0
Fields = List (Text × Option Key)

abbrev remember_for : Router → RouteResult → Option Text → Router × RouteResult
remember_for r result none = (r, route_panics)
remember_for r result (some cache_key) = remember cache_key r result

abbrev store_shard : Text → Key → Router → RouteResult → Router × RouteResult
store_shard model key r (route_ok db table) =
    remember_for r (route_ok db table) (get_cache_key model key)
store_shard model key r (route_err e) = (r, route_err e)
store_shard model key r route_panics = (r, route_panics)

abbrev by_field : Text → ModelInfo → Router → Option (Option Key) → Router × RouteResult
by_field model info r none = (r, route_err no_shard_key_found)
by_field model info r (some none) = (r, route_panics)
by_field model info r (some (some key)) =
    store_shard model key r (shard_of r.clock info.strategy key)

-- strings.EqualFold is a parameter.
module _ (equal_fold : Text → Text → Bool) where
  unfoldable pub find_field : Text → Fields → Option (Option Key)
  find_field key [] = none
  find_field key ((name, value) ∷ fields) =
      let later = find_field key fields in if equal_fold name key then some value else later

  abbrev in_struct : Text → ModelInfo → Router → Option Fields → Router × RouteResult
  in_struct model info r none = (r, route_err not_a_struct)
  in_struct model info r (some fields) = by_field model info r (find_field info.shard_key fields)

  abbrev of_model : Text → Option Fields → Router → Option ModelInfo → Router × RouteResult
  of_model model instance_fields r none = (r, route_err model_not_found)
  of_model model instance_fields r (some info) = in_struct model info r instance_fields

  -- CalculateRouteForModel, on the fields of the instance, or none where it is no struct.
  unfoldable pub calculate_route_for_model : Text → Option Fields → Router → Router × RouteResult
  calculate_route_for_model model instance_fields r =
      of_model model instance_fields r (get_model_info model r)

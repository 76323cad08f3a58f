-- ===== src/Sharding/Dispatch.antt =====
-- orm/internal/sharding/manager.go: Route, from the router's names to a connection, with the default
-- shard behind it. The manager's router is the DefaultRouter.
use fyer_webframe.Base.{◌+◌, Bool, [], ◌∷◌, Option, if◌then◌else◌}
use fyer_webframe.Base.Text.{Text}
use fyer_webframe.Base.Map.{Map}
use fyer_webframe.Sharding.Strategy.{Key}
use fyer_webframe.Sharding.Router.{
  Router, RouteResult, route_ok, route_err, route_panics, Fields, calculate_route,
  calculate_route_for_model,
}
use fyer_webframe.Sharding.Manager.{
  World, ShardedDb, Db, Answer, ok, err, panics, manager_closed, no_route, get_shard,
  get_default_shard,
}

abbrev pub Target : Type 0
Target = Db × Text × Text

abbrev pub to_default : Text → Text → ShardedDb × Answer Db → ShardedDb × Answer Target
to_default db_name table (m, ok db) = (m, ok (db, db_name, table))
to_default db_name table (m, err e) = (m, err no_route)
to_default db_name table (m, panics) = (m, panics)

-- The default shard takes over, under the names that the caller gets.
abbrev pub fall_back : World → Text → Text → ShardedDb → ShardedDb × Answer Target
fall_back world db_name table m = to_default db_name table (
    get_default_shard world
      (record m { stats = record m.stats { fallback_count = m.stats.fallback_count + 1 } }))

abbrev pub to_shard : World → Text → Text → ShardedDb × Answer Db → ShardedDb × Answer Target
to_shard world db_name table (m, ok db) = (m, ok (db, db_name, table))
to_shard world db_name table (m, err e) = fall_back world db_name table m
to_shard world db_name table (m, panics) = (m, panics)

-- What follows the router's answer; `table` is the name that goes with the default shard.
abbrev pub dispatch : World → Text → RouteResult → ShardedDb → ShardedDb × Answer Target
dispatch world table (route_ok db_name table_name) m =
    to_shard world db_name table_name (get_shard world db_name m)
dispatch world table (route_err e) m = fall_back world [] table m
dispatch world table route_panics m = (m, panics)

abbrev pub dispatched : World → Text → ShardedDb → Router × RouteResult → ShardedDb × Answer Target
dispatched world table m (router, result) =
    dispatch world table result (record m { router = router })

-- Route
unfoldable pub route : World → Text → Map Key → ShardedDb → ShardedDb × Answer Target
route world model values m =
    if m.closed
    then (m, err manager_closed)
    else dispatched world [] m (calculate_route model values m.router)

-- RouteWithKey
unfoldable pub route_with_key : World → Text → Text → Key → ShardedDb → ShardedDb × Answer Target
route_with_key world model name key m = route world model ((name, key) ∷ []) m

-- RouteForModel
unfoldable pub route_for_model :
    (Text → Text → Bool) → World → Text → Option Fields → ShardedDb → ShardedDb × Answer Target
route_for_model equal_fold world model instance_fields m =
    dispatched world model m (calculate_route_for_model equal_fold model instance_fields m.router)

-- ===== src/Sharding/LifetimeTests.antt =====
-- Runs of the manager, and its theorems at concrete states.
use fyer_webframe.Base.{ℕ, ◌≡◌, ◌⊎◌, refl, arith, true, false, [], none, some}
use mathlib.Core.List.{Memᴰ}
use fyer_webframe.Base.Text.{Text, codes, text_dec}
use fyer_webframe.Base.Map.{lookup, insert as bind, delete as unbind}
use fyer_webframe.Base.Int.{pos, negsuc, difference}
use fyer_webframe.Sharding.Router.{new_default_router, calculate_route}
use fyer_webframe.Sharding.Manager.{
  ShardConfig, own, World, ShardedDb, ok, err, manager_closed, new_sharded_db, with_default_shard,
  forget, open_shard, add_shard, get_shard_locked, get_shard, get_default_shard, close_dbs,
  any_fails, close, count_hit,
}
use fyer_webframe.Sharding.Dispatch.{route}
use fyer_webframe.Sharding.Routes.{Reaches}
use fyer_webframe.Sharding.Date.{
  Calendar, DateStrategy, moment, date_key, date_period, date_route, date_route-Reaches,
}
use fyer_webframe.Sharding.Targets.{route-IsServed}
use fyer_webframe.Sharding.Lifetime.{Step, Reach, Reach-held, Reach-close, get_shard_reopens}

-- What a run opens.
managing : Unit {0}
unfolding text_dec lookup bind unbind new_default_router calculate_route new_sharded_db
    with_default_shard forget open_shard add_shard get_shard_locked get_shard get_default_shard
    close_dbs any_fails close count_hit route date_key date_period
managing = tt

abbrev calm : World
calm = record {
  open_fails = false;
  ping_fails = false;
  close_fails = λ db. false;
  provider_db = λ name. none;
  now = 0;
}

abbrev config : ShardConfig
config = record {
  driver = codes "mysql";
  dsn = codes "db0";
  max_idle_conn = pos 0;
  max_open_conn = pos 0;
  max_lifetime = pos 0;
  options = [];
}

abbrev with_shard : ShardedDb
with_shard = (add_shard calm (codes "db_0") config (new_sharded_db new_default_router)).0

abbrev closed_manager : ShardedDb
closed_manager = (close calm with_shard).0

-- A model that nobody registered goes to the default shard, with empty names.
to_the_default :
    (route calm (codes "User") [] (with_default_shard (codes "db_0") with_shard)).1
    ≡ ok (own 0, [], [])
unfolding managing
to_the_default = refl

history : Reach (new_sharded_db new_default_router) with_shard
history = Reach.next Reach.here (Step.adds calm (codes "db_0") config)

Reach-held_example : (name : Text) × (lookup name with_shard.shards ≡ some (own 0))
unfolding managing
Reach-held_example = Reach-held new_default_router with_shard 0 history (Memᴰ.head refl)

Reach-close_example :
    (closed_manager.opened ≡ []) × (closed_manager.shards ≡ []) × (closed_manager.closed ≡ true)
unfolding managing
Reach-close_example = Reach-close new_default_router with_shard calm history refl

get_shard_reopens_example :
    let reopened = get_shard calm (codes "db_0") closed_manager in
    (reopened.1 ≡ ok (own 1))
    × Memᴰ 1 (close calm reopened.0).0.opened
    × ((close calm reopened.0).1 ≡ err manager_closed)
unfolding managing
get_shard_reopens_example =
    get_shard_reopens calm calm (codes "db_0") config closed_manager refl refl refl refl refl

-- A calendar that counts the days from its first.
abbrev day_count : Calendar ℕ
day_count = record {
  parse = λ layout t. none;
  unix = λ z. 0;
  days = difference;
  weeks = λ a b. difference a b;
  year = λ d. pos 0;
  month = λ d. pos 0;
  format = λ d t. t;
  lower = λ t. t;
}

abbrev by_day : DateStrategy ℕ
by_day = record {
  base = record {
    db_count = 2;
    db_prefix = codes "db_";
    table_count = 3;
    table_prefix = codes "log_";
    shard_key = codes "day";
    model_name = [];
  };
  date_format = codes "daily";
  start_time = 10;
}

date_route-Reaches_example : Reaches by_day.base (date_route day_count by_day (moment 3))
unfolding managing
date_route-Reaches_example =
    date_route-Reaches day_count by_day (moment 3) 3 (negsuc 6) refl refl (ground arith) (λ e. cc)
      (ground arith) (ground arith) (ground arith)

route-IsServed_example :
    let r = route calm (codes "User") [] (with_default_shard (codes "db_0") with_shard) in
    (lookup [] r.0.shards ≡ some (own 0)) ⊎ (lookup (codes "db_0") r.0.shards ≡ some (own 0))
unfolding managing
route-IsServed_example =
    route-IsServed calm (codes "User") [] (with_default_shard (codes "db_0") with_shard)
      (own 0, [], []) refl

-- ===== src/Handlers/Tests.antt =====
-- Queries through a sharding manager with two shards, and the theorems at them.
use fyer_webframe.Base.{ltb, if◌then◌else◌, ℕ, ◌≡◌, refl, true, List, [], ◌∷◌, Option, none, some}
use fyer_webframe.Base.Text.{Text, codes, text_dec, contains, has_prefix}
use fyer_webframe.Base.Map.{Map, lookup, insert}
use fyer_webframe.Base.Int.{ℤ, pos}
use fyer_webframe.Handlers.{
  Names, ShardingStrategy, extract_shard_key_value, default_sharding_router, new_sharding_manager,
  register_shard, set_default_db, set_enabled, register_model_info, route, route_with_key,
  route_for_model,
}
use fyer_webframe.Handlers.Chain.{
  QueryContext, Backend, World, Handler, Outcome, other_builder, build_chain, core_handler,
  extract_shard_key_from_query, sharding_middleware,
}
use fyer_webframe.Handlers.Agreement.{
  Call, registers_shard, registers_model, Manager, run_call, run_calls,
  route_with_key-route_for_model,
}
use fyer_webframe.Handlers.Shards.{build_chain-sharded}

handlers : Unit {0}
unfolding text_dec contains has_prefix lookup insert extract_shard_key_value default_sharding_router
    register_shard set_default_db set_enabled register_model_info route route_with_key
    route_for_model build_chain core_handler extract_shard_key_from_query sharding_middleware
    run_call run_calls
handlers = tt

abbrev first_names : Names
first_names = record { db_name = codes "db_1"; table_name = codes "user_1"; failed = none }

-- The keys below 8 have their shard, the others none.
abbrev route_key : ℕ → Option (ℤ × ℤ)
route_key n = if ltb n 8 then some (pos 1, pos 1) else none

abbrev by_id : ShardingStrategy ℕ
by_id = record {
  route = route_key;
  get_shard_name = λ d t. first_names;
  get_shard_key = codes "ID";
}

abbrev calls : List (Call ℕ ℕ)
calls =
    registers_shard (codes "db_1") 1
    ∷ registers_model (codes "user") by_id (codes "db_2")
    ∷ registers_shard (codes "db_2") 2
    ∷ []

abbrev manager : Manager ℕ ℕ
manager = run_calls calls (new_sharding_manager 0 [])

-- A database remembers where each text was sent, and has no rows.
abbrev backend : Backend ℕ ℕ (List (ℕ × Text)) ℕ ℕ
backend = record {
  query_context = λ db q s. (some 0, (db, q.sql) ∷ s);
  exec_context = λ db q s. (none, (db, q.sql) ∷ s);
}

abbrev world : World ℕ (Map (ShardingStrategy ℕ)) ℕ (List (ℕ × Text))
world = record { databases = []; sharding = some manager }

abbrev query_of : ℕ → QueryContext ℕ
query_of n = record {
  query_type = codes "query";
  query = record { sql = codes "SELECT"; args = [] };
  model = none;
  builder = other_builder;
  table_name = codes "user";
  shard_key = codes "ID";
  shard_value = some n;
}

abbrev core : Handler ℕ (Map (ShardingStrategy ℕ)) ℕ (List (ℕ × Text)) ℕ ℕ
core = core_handler backend 0

-- A middleware that refuses every query.
abbrev refuse :
    Handler ℕ (Map (ShardingStrategy ℕ)) ℕ (List (ℕ × Text)) ℕ ℕ
    → Handler ℕ (Map (ShardingStrategy ℕ)) ℕ (List (ℕ × Text)) ℕ ℕ
refuse next qc w = (qc, record { result = none; failed = true }, w)

abbrev sent_to : Outcome ℕ (Map (ShardingStrategy ℕ)) ℕ (List (ℕ × Text)) ℕ ℕ → List (ℕ × Text)
sent_to (qc, answer, w) = w.databases

-- A key that the strategy refuses goes to the model's default shard.
runs :
    (sent_to (
        build_chain core
          (sharding_middleware backend default_sharding_router ∷ [])
          (query_of 7)
          world)
      ≡ (1, codes "SELECT") ∷ [])
    × (sent_to (
          build_chain core
            (sharding_middleware backend default_sharding_router ∷ [])
            (query_of 8)
            world)
        ≡ (2, codes "SELECT") ∷ [])
    × ((route_for_model (codes "user") (some ((codes "ID", 8) ∷ [])) manager).db ≡ 2)
    × ((route_for_model (codes "user") none manager).db ≡ 0)
unfolding handlers
runs = (refl, refl, refl, refl)

build_chain-sharded_example :
    (t : Text) × (build_chain core
        (sharding_middleware backend default_sharding_router ∷ refuse ∷ [])
        (query_of 7)
        world
      ≡ core_handler backend 1 (record (query_of 7) { table_name = t }) world)
unfolding handlers
build_chain-sharded_example =
    build_chain-sharded backend default_sharding_router core (refuse ∷ []) (query_of 7) world
      manager (codes "user") 7 manager.router first_names 1 refl refl refl refl (λ e. cc) refl refl
      refl

route_with_key-route_for_model_example :
    (route_with_key default_sharding_router (codes "user") (codes "ID") 7 manager).1
    ≡ route_for_model (codes "user") (some ((codes "ID", 7) ∷ [])) manager
unfolding handlers
route_with_key-route_for_model_example =
    route_with_key-route_for_model calls 0 (codes "user")
      (record { strategy = by_id; default_db_name = codes "db_2" }) (some ((codes "ID", 7) ∷ [])) 7
      (pos 1) (pos 1) refl refl refl refl

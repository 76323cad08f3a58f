-- ===== src/Handlers/Agreement.antt =====
-- orm/sharding.go: what Route of the router finds for a model is what RouteForModel finds.

use fyer_webframe.Base.{
  ◌≡◌, refl, sym, ap, ◌∙◌, Bool, true, false, not, List, [], ◌∷◌, Option, none, some, arith,
  none≢some, if◌then◌else◌,
}
use fyer_webframe.Base.Text.{Text, text_dec}
use fyer_webframe.Base.Map.{Map, lookup, insert, lookup-insert, lookup-insert_self}
use fyer_webframe.Base.Int.{ℤ}
use fyer_webframe.Handlers.{
  Names, ShardingStrategy, ModelInfo, ShardingManager, extracted, extract_shard_key_value,
  default_sharding_router, names_at, names_by, names_by_value, new_sharding_manager, register_shard,
  set_default_db, set_enabled, register_model_info, to_default, to_shard, target_of, routed, route,
  route_with_key, model_names, model_at, model_value, model_info, route_for_model,
  sharding_disabled,
}

-- A manager over a defaultShardingRouter.
abbrev pub Manager : Type 0 → Type 0 → Type 0
Manager A D = ShardingManager A (Map (ShardingStrategy A)) D

-- The calls that change a manager, but SetRouter.
pub data Call (A D : Type 0) : Type 0 where
  registers_shard : Text → D → Call A D
  registers_model : Text → ShardingStrategy A → Text → Call A D
  sets_default : D → Call A D
  enables : Bool → Call A D

same_if :
    {V W : Type 0} (b : Bool) (w : W) (a : V) (p : W × V) (y : V)
    → p.1 ≡ y
    → (if not b then (w, a) else p).1 ≡ (if not b then a else y)
same_if true w a p y e = e
same_if false w a p y e = refl

module _ {A D : Type 0} where
  unfoldable pub run_call : Call A D → Manager A D → Manager A D
  unfolding register_shard register_model_info set_default_db set_enabled default_sharding_router
  run_call (registers_shard name db) m = register_shard name db m
  run_call (registers_model name strategy default_db_name) m =
      register_model_info default_sharding_router name strategy default_db_name m
  run_call (sets_default db) m = set_default_db db m
  run_call (enables b) m = set_enabled b m

  unfoldable pub run_calls : List (Call A D) → Manager A D → Manager A D
  unfolding run_call
  run_calls [] m = m
  run_calls (call ∷ calls) m = run_calls calls (run_call call m)

  -- The router has the strategy of each model that the manager knows.
  abbrev Agrees : Manager A D → Type 0
  Agrees m =
      (name : Text) (info : ModelInfo A)
      → lookup name m.model_cache ≡ some info
      → lookup name m.router ≡ some info.strategy

  run_call-Agrees : (call : Call A D) (m : Manager A D) → Agrees m → Agrees (run_call call m)
  unfolding run_call register_shard register_model_info set_default_db set_enabled
      default_sharding_router
  run_call-Agrees (registers_shard name db) m agrees = agrees
  run_call-Agrees (registers_model name strategy default_db_name) m agrees = λ j info known.
      ground (
        arith,
        agrees j info,
        lookup-insert name j strategy m.router,
        lookup-insert name j (record { strategy = strategy; default_db_name = default_db_name })
            m.model_cache,
      )
  run_call-Agrees (sets_default db) m agrees = agrees
  run_call-Agrees (enables b) m agrees = agrees

  run_calls-Agrees :
      (calls : List (Call A D)) (m : Manager A D) → Agrees m → Agrees (run_calls calls m)
  unfolding run_calls
  run_calls-Agrees [] m agrees = agrees
  run_calls-Agrees (call ∷ calls) m agrees =
      run_calls-Agrees calls (run_call call m) (run_call-Agrees call m agrees)

  module _ (m : Manager A D) (name : Text) (info : ModelInfo A) (v : A) (d t : ℤ)
      (routes : info.strategy.route v ≡ some (d, t))
      (fine : (info.strategy.get_shard_name d t).failed ≡ none) where
    abbrev shard : Names
    shard = info.strategy.get_shard_name d t

    abbrev values : Map A
    values = (info.strategy.get_shard_key, v) ∷ []

    names_by-found :
        lookup name m.router ≡ some info.strategy → names_by values (lookup name m.router) ≡ shard
    unfolding insert lookup text_dec
    names_by-found agrees =
        ap (names_by values) agrees
        ∙ ap (names_by_value info.strategy) (lookup-insert_self info.strategy.get_shard_key v [])
        ∙ ap (names_at info.strategy) routes

    target_of-found :
        lookup name m.router ≡ some info.strategy
        → (routed m name (m.router, names_by values (lookup name m.router))).1
          ≡ to_shard m shard.table_name (lookup shard.db_name m.shards)
    target_of-found agrees =
        ap (λ n. (routed m name (m.router, n)).1) (names_by-found agrees)
        ∙ ap (target_of m name shard) fine

    model_info-found :
        (model : Option (Map A))
        → lookup name m.model_cache ≡ some info
        → extract_shard_key_value model info.strategy.get_shard_key ≡ extracted v
        → model_info m model (lookup name m.model_cache)
          ≡ to_shard m shard.table_name (lookup shard.db_name m.shards)
    model_info-found model known read =
        ap (model_info m model) known
        ∙ ap (model_value m info) read
        ∙ ap (model_at m info) routes
        ∙ ap (model_names m shard) fine

  -- After any registrations of shards and models, changes of the default DB and of Enable and
  -- Disable on a new manager over an empty defaultShardingRouter, RouteWithKey under the shard key
  -- of a model and RouteForModel on an instance answer alike, also where sharding is disabled or
  -- the shard is not registered. The model is registered, the instance has the value in the field
  -- of the shard key, and the strategy finds a shard and its names for it.
  pub route_with_key-route_for_model :
      (calls : List (Call A D)) (default_db : D) (name : Text) (info : ModelInfo A)
      (model : Option (Map A)) (v : A) (d t : ℤ)
      → let m = run_calls calls (new_sharding_manager default_db []) in
        lookup name m.model_cache ≡ some info
        → extract_shard_key_value model info.strategy.get_shard_key ≡ extracted v
        → info.strategy.route v ≡ some (d, t)
        → (info.strategy.get_shard_name d t).failed ≡ none
        → (route_with_key default_sharding_router name info.strategy.get_shard_key v m).1
          ≡ route_for_model name model m
  unfolding route_with_key route route_for_model default_sharding_router lookup
  route_with_key-route_for_model calls default_db name info model v d t known read routes fine =
      let m : Manager A D = run_calls calls (new_sharding_manager default_db []) in
      let agrees =
        run_calls-Agrees calls (new_sharding_manager default_db []) (λ j i h. absurd (none≢some h))
          name info known in
      same_if m.enabled m (to_default m [] (some sharding_disabled))
        (routed m name
          (m.router, names_by ((info.strategy.get_shard_key, v) ∷ []) (lookup name m.router)))
        (model_info m model (lookup name m.model_cache))
        (target_of-found m name info v d t routes fine agrees
          ∙ sym (model_info-found m name info v d t routes fine model known read))

-- ===== src/Handlers/Shards.antt =====
-- orm/middleware.go: a query that is routed to a shard.
use fyer_webframe.Base.{
  ◌≡◌, refl, ap, ◌∙◌, Bool, true, false, not, ◌&&◌, List, [], ◌∷◌, none, some, if◌then◌else◌, arith,
  ◌≢◌,
}
use fyer_webframe.Base.Text.{Text}
use fyer_webframe.Base.Map.{Map, lookup}
use fyer_webframe.Middleware.{text_is}
use fyer_webframe.Handlers.{
  Names, ShardingRouter, ShardingManager, to_default, to_shard, target_of, routed, route,
  sharding_disabled,
}
use fyer_webframe.Handlers.Chain.{
  QueryContext, Backend, World, Handler, build_chain, core_handler, name_of, retabled,
  explicit_values, values_or_none, extract_shard_key_from_query, on_route, on_values, on_name,
  on_manager, sharding_middleware,
}

text_is-ne : (s t : Text) → s ≢ t → text_is s t ≡ false
text_is-ne s t ne = ground arith

module _ {A R D : Type 0} (api : ShardingRouter A R) (m : ShardingManager A R D) where
  -- Route, where the router names a shard that is registered.
  pub route-registered :
      (name : Text) (values : Map A) (r : R) (names : Names) (db : D)
      → m.enabled ≡ true
      → api.calculate_route name values m.router ≡ (r, names)
      → names.failed ≡ none
      → lookup names.db_name m.shards ≡ some db
      → route api name values m ≡ (
        record m { router = r },
        record { db = db; table_name = names.table_name; failed = none },
      )
  unfolding route
  route-registered name values r names db on calculated fine found =
      ap
        (λ b.
          if not b
          then (m, to_default m [] (some sharding_disabled))
          else routed m name (api.calculate_route name values m.router))
        on
      ∙ ap (routed m name) calculated
      ∙ ap (λ f. (record m { router = r }, target_of m name names f)) fine
      ∙ ap (λ o. (record m { router = r }, to_shard m names.table_name o)) found

module _ {A : Type 0} where
  -- The name of the table is all that the middleware changes in a context.
  retabled-query :
      (name table : Text) (qc : QueryContext A)
      → (t : Text) × (retabled name table qc ≡ record qc { table_name = t })
  retabled-query name table qc = of_test (not (text_is table []) && not (text_is table name))
    where
      of_test :
          (b : Bool)
          → (t : Text) × ((if b then record qc { table_name = table } else qc)
              ≡ record qc { table_name = t })
      of_test true = (table, refl)
      of_test false = (qc.table_name, refl)

module _ {A R D : Type 0} (qc : QueryContext A) (m : ShardingManager A R D) where
  explicit_values-given :
      (v : A)
      → qc.shard_value ≡ some v
      → qc.shard_key ≢ []
      → explicit_values qc m qc.shard_value ≡ (qc.shard_key, v) ∷ []
  explicit_values-given v given keyed =
      ap (explicit_values qc m) given
      ∙ ap
          (λ b.
            if not b
            then (qc.shard_key, v) ∷ []
            else values_or_none (extract_shard_key_from_query qc m))
          (text_is-ne qc.shard_key [] keyed)

module _ {A R D St Rows Res : Type 0} (backend : Backend D A St Rows Res)
    (api : ShardingRouter A R) where
  -- A query with a shard key and its value that the router sends to a registered shard runs there
  -- at once, with its text as it was: behind ShardingMiddleware as the first of the chain neither
  -- the middlewares that were added after it nor the core handler are called, and the context
  -- keeps everything but the name of the table. The manager is enabled, and the context has a
  -- model or the name of a table.
  pub build_chain-sharded :
      (core : Handler A R D St Rows Res)
      (later : List (Handler A R D St Rows Res → Handler A R D St Rows Res)) (qc : QueryContext A)
      (w : World A R D St) (m : ShardingManager A R D) (name : Text) (v : A) (r : R) (names : Names)
      (db : D)
      → w.sharding ≡ some m
      → m.enabled ≡ true
      → name_of qc qc.model ≡ some name
      → qc.shard_value ≡ some v
      → qc.shard_key ≢ []
      → api.calculate_route name ((qc.shard_key, v) ∷ []) m.router ≡ (r, names)
      → names.failed ≡ none
      → lookup names.db_name m.shards ≡ some db
      → (t : Text) × (build_chain core (sharding_middleware backend api ∷ later) qc w
          ≡ core_handler backend db
              (record qc { table_name = t })
              (record w { sharding = some (record m { router = r }) }))
  unfolding build_chain sharding_middleware
  build_chain-sharded core later qc w m name v r names db on_w on named given keyed calculated fine
        found =
      let next = build_chain core later in
      let values : Map A = (qc.shard_key, v) ∷ [] in
      let kept = retabled-query name names.table_name qc in
      (
        kept.0,
        ap (on_manager backend api next qc w) on_w
            ∙ ap
                (λ b.
                  if not b
                  then next qc w
                  else on_name backend api next qc w m (name_of qc qc.model))
                on
            ∙ ap (on_name backend api next qc w m) named
            ∙ ap (on_values backend api next qc w m name) (explicit_values-given qc m v given keyed)
            ∙ ap (on_route backend api next qc w name)
                (route-registered api m name values r names db on calculated fine found)
            ∙ ap
                (λ q.
                  core_handler backend db q
                    (record w { sharding = some (record m { router = r }) }))
                kept.1,
      )

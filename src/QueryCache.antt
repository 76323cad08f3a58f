-- ===== src/QueryCache.antt =====
-- orm/cache.go with the reads of orm/selector.go and the writes of orm/inserter.go, orm/updater.go
-- and orm/deleter.go: query results in the memory cache. The database is a parameter: what it
-- answers to a query, none for an error, and the state that it is in then. `A` is the type of the
-- arguments of a query.
-- pub mod Keys
pub mod Reads
pub mod Writes
pub mod Tests
use fyer_webframe.Base.{
  ℕ, Bool, true, false, not, ◌&&◌, List, [], ◌∷◌, ◌++◌, Option, none, some, ltb, if◌then◌else◌,
}
use fyer_webframe.Base.Text.{Text, codes}
use fyer_webframe.Base.Map.{Map, lookup, insert}
use fyer_webframe.Middleware.{text_is}
use fyer_webframe.Cache.{
  Codec, MemoryCache, Outcome, ok, err, get, set, set_with_tags, delete_by_tags,
}

pub record Query (A : Type 0) : Type 0 where
  pub sql : Text
  pub args : List A

-- `model` is the name of the model's table, none where there is no model; `selector_any` is
-- useCache of the builder where that is a *Selector[any], none where it is another builder.
pub record QueryContext (A : Type 0) : Type 0 where
  pub query_type : Text
  pub query : Query A
  pub model : Option Text
  pub selector_any : Option Bool

-- An expiration of 0 stands for every one that is not positive.
pub record ModelCacheConfig (A : Type 0) : Type 0 where
  pub enabled : Bool
  pub ttl : ℕ
  pub tags : List Text
  pub key_generator : Option (Text → Query A → Text)
  pub conditions : List (QueryContext A → Bool)

pub record CacheManager (A : Type 0) : Type 0 where
  pub cache : MemoryCache
  pub model_cache_config : Map (ModelCacheConfig A)
  pub default_ttl : ℕ
  pub enabled : Bool
  pub key_generator : Text → Text → Query A → Text

-- Five minutes, in nanoseconds.
abbrev pub five_minutes : ℕ
five_minutes = 300000000000

abbrev pub selector_uses : Option Bool → Bool
selector_uses none = true
selector_uses (some b) = b

abbrev pub is_query : Text → Bool
is_query t = text_is t (codes "query")

module _ {A : Type 0} where
  -- defaultKeyGenerator
  unfoldable pub default_key_generator : Text → Text → Query A → Text
  default_key_generator model operation query =
      model ++ codes ":" ++ operation ++ codes ":" ++ query.sql

  -- NewCacheManager
  abbrev pub new_cache_manager : MemoryCache → CacheManager A
  new_cache_manager cache = record {
    cache = cache;
    model_cache_config = [];
    default_ttl = five_minutes;
    enabled = true;
    key_generator = default_key_generator;
  }

  -- SetModelCacheConfig
  abbrev pub set_model_cache_config : Text → ModelCacheConfig A → CacheManager A → CacheManager A
  set_model_cache_config name config cm = record cm {
    model_cache_config = insert name config cm.model_cache_config;
  }

  abbrev pub config_of : Text → CacheManager A → Option (ModelCacheConfig A)
  config_of name cm = lookup name cm.model_cache_config

  -- The loop over the conditions.
  unfoldable pub all_met : List (QueryContext A → Bool) → QueryContext A → Bool
  all_met [] qc = true
  all_met (condition ∷ conditions) qc = condition qc && all_met conditions qc

  abbrev pub config_allows : QueryContext A → Option (ModelCacheConfig A) → Bool
  config_allows qc none = false
  config_allows qc (some config) =
      config.enabled && all_met config.conditions qc && selector_uses qc.selector_any

  abbrev pub model_allows : CacheManager A → QueryContext A → Option Text → Bool
  model_allows cm qc none = false
  model_allows cm qc (some name) = config_allows qc (config_of name cm)

  -- ShouldCache
  unfoldable pub should_cache : CacheManager A → QueryContext A → Bool
  should_cache cm qc = cm.enabled && is_query qc.query_type && model_allows cm qc qc.model

  abbrev pub own_key :
      CacheManager A → QueryContext A → Text → Option (Text → Query A → Text) → Text
  own_key cm qc name none = cm.key_generator name qc.query_type qc.query
  own_key cm qc name (some own) = own qc.query_type qc.query

  abbrev pub generated : CacheManager A → QueryContext A → Text → Option (ModelCacheConfig A) → Text
  generated cm qc name none = cm.key_generator name qc.query_type qc.query
  generated cm qc name (some config) = own_key cm qc name config.key_generator

  abbrev pub model_key : CacheManager A → QueryContext A → Option Text → Text
  model_key cm qc none = []
  model_key cm qc (some name) = generated cm qc name (config_of name cm)

  -- GenerateKey
  unfoldable pub generate_key : CacheManager A → QueryContext A → Text
  generate_key cm qc = model_key cm qc qc.model

  abbrev pub ttl_or : ℕ → Option (ModelCacheConfig A) → ℕ
  ttl_or default none = default
  ttl_or default (some config) = if ltb 0 config.ttl then config.ttl else default

  -- GetTTL
  unfoldable pub get_ttl : Text → CacheManager A → ℕ
  get_ttl name cm = ttl_or cm.default_ttl (config_of name cm)

  abbrev pub tags_or_none : Option (ModelCacheConfig A) → List Text
  tags_or_none none = []
  tags_or_none (some config) = config.tags

  -- GetTags
  unfoldable pub get_tags : Text → CacheManager A → List Text
  get_tags name cm = tags_or_none (config_of name cm)

  abbrev pub without_tags : List Text → CacheManager A → CacheManager A
  without_tags tags cm = record cm { cache = delete_by_tags tags cm.cache }

  -- InvalidateCache by the tags of the model; the memory cache has no DeleteByPrefix.
  abbrev pub invalidate_model : List Text → CacheManager A → CacheManager A × Bool
  invalidate_model [] cm = (cm, true)
  invalidate_model (tag ∷ tags) cm = (without_tags (tag ∷ tags) cm, false)

  abbrev pub invalidate_tags : Text → List Text → CacheManager A → CacheManager A × Bool
  invalidate_tags name [] cm = invalidate_model (get_tags name cm) cm
  invalidate_tags name (tag ∷ tags) cm = (without_tags (tag ∷ tags) cm, false)

  -- InvalidateCache, and whether it returns an error
  unfoldable pub invalidate_cache : Text → List Text → CacheManager A → CacheManager A × Bool
  invalidate_cache name tags cm =
      if not cm.enabled then (cm, true) else invalidate_tags name tags cm

-- The options of a selector with the query that Build gives, which has a model.
pub record Selector (A : Type 0) : Type 0 where
  pub table : Text
  pub query : Query A
  pub use_cache : Bool
  pub cache_ttl : ℕ
  pub cache_tags : List Text
  pub selector_any : Option Bool

-- A database in a state of `St`, which answers a query with a value of `V`.
abbrev pub Database : Type 0 → Type 0 → Type 0 → Type 0
Database A St V = Query A → St → St × Option V

abbrev pub context_of : {A : Type 0} → Selector A → QueryContext A
context_of s = record {
  query_type = codes "query";
  query = s.query;
  model = some s.table;
  selector_any = s.selector_any;
}

module _ {A V St : Type 0} (codec : Codec V) (database : Database A St V) where
  -- The times of the read and of the write, and the order in which the cache visits its keys.
  module _ (visited : List Text) (now written : ℕ) where
    abbrev pub ttl_of : Selector A → CacheManager A → ℕ
    ttl_of s cm = if ltb 0 s.cache_ttl then s.cache_ttl else get_ttl s.table cm

    abbrev pub own_tags : List Text → List Text → List Text
    own_tags [] defaults = defaults
    own_tags (tag ∷ tags) defaults = tag ∷ tags

    abbrev pub tags_for : Selector A → CacheManager A → List Text
    tags_for s cm = own_tags s.cache_tags (get_tags s.table cm)

    abbrev pub stored_with : List Text → Text → V → ℕ → MemoryCache → MemoryCache
    stored_with [] key v ttl c = (set codec visited written key v ttl c).0
    stored_with (tag ∷ tags) key v ttl c =
        (set_with_tags codec visited written key v ttl (tag ∷ tags) c).0

    -- The result goes into the cache, whose errors are only logged.
    abbrev pub cache_result :
        Selector A → Text → CacheManager A → St × Option V → CacheManager A × St × Option V
    cache_result s key cm (st, none) = (cm, st, none)
    cache_result s key cm (st, some v) =
        (record cm { cache = stored_with (tags_for s cm) key v (ttl_of s cm) cm.cache }, st, some v)

    -- A hit, or the query behind a miss or any other error of the cache.
    abbrev pub hit_or_query :
        Selector A
        → Text
        → CacheManager A
        → St
        → MemoryCache × Outcome V
        → CacheManager A × St × Option V
    hit_or_query s key cm st (c, ok v) = (record cm { cache = c }, st, some v)
    hit_or_query s key cm st (c, err e) =
        cache_result s key (record cm { cache = c }) (database s.query st)

    abbrev pub uncached : CacheManager A → St × Option V → CacheManager A × St × Option V
    uncached cm (st, result) = (cm, st, result)

    abbrev pub with_key : Selector A → Text → CacheManager A → St → CacheManager A × St × Option V
    with_key s [] cm st = uncached cm (database s.query st)
    with_key s (c ∷ key) cm st = hit_or_query s (c ∷ key) cm st (get codec now (c ∷ key) cm.cache)

    -- Get and GetMulti over the one cache of bytes: Get is this at the type T with the codec of T,
    -- GetMulti at []*T with that of []*T, under the same key.
    unfoldable pub select_cached : Selector A → CacheManager A → St → CacheManager A × St × Option V
    select_cached s cm st =
        if s.use_cache && cm.enabled && should_cache cm (context_of s)
        then with_key s (generate_key cm (context_of s)) cm st
        else uncached cm (database s.query st)

-- A statement with the options of its builder.
pub record Statement (A : Type 0) : Type 0 where
  pub table : Text
  pub query : Query A
  pub invalidates : Bool
  pub invalidate_with : List Text

module _ {A St : Type 0} (execute : Query A → St → St × Bool) where
  -- Exec of an inserter and of a deleter; the error of InvalidateCache is dropped.
  abbrev pub after_exec : Statement A → CacheManager A → St × Bool → CacheManager A × St × Bool
  after_exec s cm (st, failed) =
      if not failed && s.invalidates && cm.enabled
      then ((invalidate_cache s.table s.invalidate_with cm).0, st, failed)
      else (cm, st, failed)

  unfoldable pub exec : Statement A → CacheManager A → St → CacheManager A × St × Bool
  exec s cm st = after_exec s cm (execute s.query st)

  -- Exec of an updater, which deletes by the tags or by the table's name.
  abbrev pub update_tags : Statement A → List Text → List Text
  update_tags s [] = s.table ∷ []
  update_tags s (tag ∷ tags) = tag ∷ tags

  abbrev pub after_update : Statement A → CacheManager A → St × Bool → CacheManager A × St × Bool
  after_update s cm (st, failed) =
      if not failed && s.invalidates
      then (without_tags (update_tags s s.invalidate_with) cm, st, failed)
      else (cm, st, failed)

  unfoldable pub exec_update : Statement A → CacheManager A → St → CacheManager A × St × Bool
  exec_update s cm st = after_update s cm (execute s.query st)

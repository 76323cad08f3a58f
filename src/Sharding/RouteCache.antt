-- ===== src/Sharding/RouteCache.antt =====
-- orm/internal/sharding/router.go: what the cache of routes answers with.
use fyer_webframe.Base.{◌≡◌, refl, sym, ap, ◌∙◌, false, [], ◌∷◌, Option, none, some}
use fyer_webframe.Base.Text.{Text}
use fyer_webframe.Base.Map.{Map, lookup, lookup-insert_self}
use fyer_webframe.Base.Int.{ℤ}
use fyer_webframe.Sharding.Strategy.{Key, signed}
use fyer_webframe.Sharding.Router.{
  Strategy, ModelInfo, Router, RouteResult, route_ok, route_err, resolve_alias, get_model_info,
  shard_of, get_cache_key, remember, cached, keyed, calculate_route, clear_cache, register_strategy,
  is_nil_strategy,
}

-- What a call on one key does, where the model has a strategy with that shard key.
abbrev pub Serves : Router → Text → ModelInfo → Type 0
Serves r model info =
    (get_model_info (resolve_alias model r) r ≡ some info) × (is_nil_strategy info.strategy ≡ false)

calculate_route-keyed :
    (model : Text) (info : ModelInfo) (values : Map Key) (key : Key) (r : Router)
    → Serves r model info
    → lookup info.shard_key values ≡ some key
    → calculate_route model values r
      ≡ keyed info.strategy key r (get_cache_key (resolve_alias model r) key)
unfolding calculate_route lookup
calculate_route-keyed model info [] key r h e = cc
calculate_route-keyed model info (v ∷ vs) key r (q, s) e = rw q (rw s (rw e refl))

pub remember-result :
    (cache_key : Text) (r : Router) (x : RouteResult) → (remember cache_key r x).1 ≡ x
remember-result cache_key r (route_ok a b) = refl
remember-result cache_key r (route_err e) = refl
remember-result cache_key r RouteResult.route_panics = refl

-- A cached route is the answer.
cached-hit :
    (model : Text) (info : ModelInfo) (values : Map Key) (key : Key) (r : Router)
    (cache_key a b : Text)
    → Serves r model info
    → lookup info.shard_key values ≡ some key
    → get_cache_key (resolve_alias model r) key ≡ some cache_key
    → lookup cache_key r.route_cache ≡ some (a, b)
    → (calculate_route model values r).1 ≡ route_ok a b
cached-hit model info values key r cache_key a b serves e k hit =
    rw (calculate_route-keyed model info values key r serves e) (rw k (rw hit refl))

remember-stored :
    (cache_key : Text) (r : Router) (x : RouteResult) (a b : Text)
    → x ≡ route_ok a b
    → (lookup cache_key (remember cache_key r x).0.route_cache ≡ some (a, b))
      × (clear_cache (remember cache_key r x).0 ≡ clear_cache r)
unfolding clear_cache
remember-stored cache_key r (route_ok c d) a b e =
    let there = lookup-insert_self cache_key (c, d) r.route_cache in (cc, refl)
remember-stored cache_key r (route_err x) a b e = cc
remember-stored cache_key r RouteResult.route_panics a b e = cc

cached-stored :
    (s : Strategy) (key : Key) (r : Router) (cache_key a b : Text) (o : Option (Text × Text))
    → lookup cache_key r.route_cache ≡ o
    → (cached cache_key s key r o).1 ≡ route_ok a b
    → (lookup cache_key (cached cache_key s key r o).0.route_cache ≡ some (a, b))
      × (clear_cache (cached cache_key s key r o).0 ≡ clear_cache r)
cached-stored s key r cache_key a b none q e =
    remember-stored cache_key r (shard_of r.clock s key) a b
      (sym (remember-result cache_key r (shard_of r.clock s key)) ∙ e)
cached-stored s key r cache_key a b (some (c, d)) q e = (cc, refl)

-- After a route was found, its cache key leads to it, and only the cache has changed.
calculate_route-stored :
    (model : Text) (info : ModelInfo) (values : Map Key) (key : Key) (r : Router)
    (cache_key a b : Text)
    → Serves r model info
    → lookup info.shard_key values ≡ some key
    → get_cache_key (resolve_alias model r) key ≡ some cache_key
    → (calculate_route model values r).1 ≡ route_ok a b
    → (lookup cache_key (calculate_route model values r).0.route_cache ≡ some (a, b))
      × (clear_cache (calculate_route model values r).0 ≡ clear_cache r)
calculate_route-stored model info values key r cache_key a b serves e k found =
    let path =
      calculate_route-keyed model info values key r serves e ∙ ap (keyed info.strategy key r) k in
    rw path (
      cached-stored info.strategy key r cache_key a b (lookup cache_key r.route_cache) refl
        (sym (ap (λ x. x.1) path) ∙ found))

pub same_info :
    (model : Text) (r r' : Router)
    → clear_cache r' ≡ clear_cache r
    → (resolve_alias model r' ≡ resolve_alias model r)
      × (get_model_info (resolve_alias model r') r' ≡ get_model_info (resolve_alias model r) r)
unfolding clear_cache get_model_info
same_info model r r' e =
    (ap (resolve_alias model) e, ap (λ s. get_model_info (resolve_alias model s) s) e)

-- Where the model has a strategy and a key of a signed integer type was routed, CalculateRoute
-- gives any other key of that type the same names, whatever the strategy computes for it.
pub calculate_route_signed_collision :
    (model : Text) (info : ModelInfo) (values values' : Map Key) (type : Text) (y z : ℤ)
    (r : Router) (a b : Text)
    → Serves r model info
    → lookup info.shard_key values ≡ some (signed type y)
    → lookup info.shard_key values' ≡ some (signed type z)
    → (calculate_route model values r).1 ≡ route_ok a b
    → (calculate_route model values' (calculate_route model values r).0).1 ≡ route_ok a b
unfolding get_cache_key
calculate_route_signed_collision model info values values' type y z r a b (q, s) e e' found =
    let (hit, same) =
      calculate_route-stored model info values (signed type y) r _ a b (q, s) e refl found in
    let (name, kept) = same_info model r (calculate_route model values r).0 same in
    cached-hit model info values' (signed type z) _ _ a b (kept ∙ q, s) e' (rw name refl) hit

-- A route that CalculateRoute found stays in the cache when RegisterStrategy replaces the strategy
-- by another with the same shard key: the key keeps its old names.
pub calculate_route_after_register :
    (model : Text) (info : ModelInfo) (values : Map Key) (key : Key) (r : Router) (a b : Text)
    (new : Strategy) (cache_key : Text)
    → Serves r model info
    → lookup info.shard_key values ≡ some key
    → get_cache_key (resolve_alias model r) key ≡ some cache_key
    → (calculate_route model values r).1 ≡ route_ok a b
    → (info' : ModelInfo)
    → Serves (register_strategy model new (calculate_route model values r).0) model info'
    → info'.shard_key ≡ info.shard_key
    → (calculate_route model values
        (register_strategy model new (calculate_route model values r).0)).1
      ≡ route_ok a b
unfolding register_strategy
calculate_route_after_register model info values key r a b new cache_key serves e k found info'
      serves' same_key =
    let (hit, same) =
      calculate_route-stored model info values key r cache_key a b serves e k found in
    let (name, kept) = same_info model r (calculate_route model values r).0 same in
    cached-hit model info' values key _ cache_key a b serves' (rw same_key e) (rw name k) hit

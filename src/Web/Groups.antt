-- ===== src/Web/Groups.antt =====
-- web/group.go and web/middlewaremanager.go: groups of routes, and the registers of middlewares.
use fyer_webframe.Base.{
  ◌-◌, Bool, not, ◌&&◌, List, [], ◌∷◌, ◌++◌, Option, none, some, ltb, ◌==◌, if◌then◌else◌, length,
  take,
}
use fyer_webframe.Base.Text.{Text, codes, has_prefix, has_suffix}
use fyer_webframe.Middleware.{text_is}
use fyer_webframe.Middleware.Chain.{Context, HandlerFunc, Middleware}
use fyer_webframe.Routing.Node.{Engine}
use fyer_webframe.Web.Router.{
  Router, Refusal, out_of_range, all_methods, use_middleware, add_handler,
}

-- newRouteGroup: the base path of a group.
unfoldable pub new_route_group : Text → Text
unfolding has_prefix has_suffix
new_route_group prefix =
    let rooted =
      if ltb 0 (length prefix) && not (has_prefix prefix (codes "/"))
      then codes "/" ++ prefix
      else prefix in
    if ltb 1 (length rooted) && has_suffix rooted (codes "/")
    then take (length rooted - 1) rooted
    else rooted

-- The slash in front; none is the panic of an index into an empty text.
abbrev pub with_slash : Text → Option Text
with_slash [] = none
with_slash (c ∷ s) = some (if c == b'/' then c ∷ s else b'/' ∷ c ∷ s)

abbrev pub with_trailing_slash : Text → Option Text → Option Text
with_trailing_slash relative none = none
with_trailing_slash relative (some result) = some (
    if ltb 1 (length relative)
      && has_suffix relative (codes "/")
      && not (has_suffix result (codes "/"))
    then result ++ codes "/"
    else result)

abbrev pub normalize_from : (Text → Text → Text) → Text → Option Text → Option Text
normalize_from join_paths base none = none
normalize_from join_paths base (some relative) =
    with_trailing_slash relative (with_slash (join_paths base relative))

-- normalizePath: `join_paths` is path.Join.
unfoldable pub normalize_path : (Text → Text → Text) → Text → Text → Option Text
normalize_path join_paths base [] = some base
normalize_path join_paths base (c ∷ s) = normalize_from join_paths base (with_slash (c ∷ s))

-- Group
abbrev pub grouped : Option Text → Option Text
grouped none = none
grouped (some path) = some (new_route_group path)

unfoldable pub group : (Text → Text → Text) → Text → Text → Option Text
group join_paths base relative = grouped (normalize_path join_paths base relative)

-- The methods that Use of a group names.
abbrev pub group_methods : List Text
group_methods =
    codes "GET" ∷ codes "POST" ∷ codes "PUT" ∷ codes "DELETE" ∷ codes "PATCH" ∷ codes "OPTIONS" ∷ []

-- A register of the manager; `conditional` has no path of its own.
pub data Register (S : Type 0) : Type 0 where
  on_path : Text → Text → Register S
  on_all_methods : Text → Register S
  conditional : (Context S → Bool) → Register S

module _ {S : Type 0} where
  -- One middleware for each method, in order.
  unfoldable pub use_each : List Text → Text → Middleware S → Router S → Router S
  use_each [] path m r = r
  use_each (method ∷ methods) path m r = use_each methods path m (use_middleware method path m r)

  -- Use of a group
  unfoldable pub use_group : Text → List (Middleware S) → Router S → Router S
  use_group base [] r = r
  use_group base (m ∷ ms) r = use_group base ms (use_each group_methods (base ++ codes "/*") m r)

  abbrev pub added_at :
      Engine → Text → HandlerFunc S → Router S → Option Text → Router S × Option Refusal
  added_at engine method h r none = (r, some out_of_range)
  added_at engine method h r (some path) = add_handler engine method path h r

  -- Get, Post, Put, Delete, Patch and Options of a group
  unfoldable pub add_grouped :
      Engine
      → (Text → Text → Text)
      → Text
      → Text
      → Text
      → HandlerFunc S
      → Router S
      → Router S × Option Refusal
  add_grouped engine join_paths base method relative h r =
      added_at engine method h r (normalize_path join_paths base relative)

  -- Global, For and When
  abbrev pub global : Register S
  global = on_path [] (codes "/*")

  abbrev pub for_path : Text → Text → Register S
  for_path method path = if text_is method [] then on_all_methods path else on_path method path

  -- The loop of Add over the middlewares, for one method; also Middleware of a route.
  unfoldable pub use_list : Text → Text → List (Middleware S) → Router S → Router S
  use_list method path [] r = r
  use_list method path (m ∷ ms) r = use_list method path ms (use_middleware method path m r)

  -- Both loops of Add for all methods.
  unfoldable pub use_lists : List Text → Text → List (Middleware S) → Router S → Router S
  use_lists [] path ms r = r
  use_lists (method ∷ methods) path ms r = use_lists methods path ms (use_list method path ms r)

  -- The middleware that runs under a condition.
  abbrev pub conditional_middleware : (Context S → Bool) → Middleware S → Middleware S
  conditional_middleware condition m next ctx = if condition ctx then m next ctx else next ctx

  unfoldable pub use_conditional : (Context S → Bool) → List (Middleware S) → Router S → Router S
  use_conditional condition [] r = r
  use_conditional condition (m ∷ ms) r =
      use_conditional condition ms
        (use_each all_methods (codes "/*") (conditional_middleware condition m) r)

  -- Add
  unfoldable pub add_middlewares : Register S → List (Middleware S) → Router S → Router S
  add_middlewares (on_path method path) ms r = use_list method path ms r
  add_middlewares (on_all_methods path) ms r = use_lists all_methods path ms r
  add_middlewares (conditional condition) ms r = use_conditional condition ms r

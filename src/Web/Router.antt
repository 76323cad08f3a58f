-- ===== src/Web/Router.antt =====
-- web/router.go: registration of middlewares and handlers, and the search for a handler.
use fyer_webframe.Base.{
  ℕ, ◌+◌, not, ◌&&◌, List, [], ◌∷◌, ◌++◌, Option, none, some, ltb, if◌then◌else◌, length,
}
use fyer_webframe.Base.Text.{Text, codes, contains, has_prefix, has_suffix}
use fyer_webframe.Base.Map.{Map, lookup, insert as put}
use fyer_webframe.Middleware.{
  MiddlewareWithPath, MiddlewareSource, global_source, path_source, classify_middleware_type,
  text_is,
}
use fyer_webframe.Middleware.Chain.{HandlerFunc, Middleware}
use fyer_webframe.Routing.Node as Tree
use fyer_webframe.Routing.Node.{Engine}
use fyer_webframe.Routing.Insert.{Panic}
use fyer_webframe.Routing.Radix.{RadixTree, new_radix_tree, add, find_method}
use fyer_webframe.Web.Legacy as Legacy
use fyer_webframe.Web.Context.{Web, WebContext, Handler, on_web}

pub record Router (S : Type 0) : Type 0 where
  pub router_trees : Map (Legacy.Node (HandlerFunc S))
  pub middlewares : Map (List (MiddlewareWithPath (Middleware S)))
  pub order_counter : ℕ
  pub radix_router : RadixTree (HandlerFunc S)

-- The panics of addHandler: its own, those of the routing tree, and an index out of range.
pub data Refusal : Type 0 where
  empty_path : Refusal
  no_leading_slash : Refusal
  trailing_slash : Refusal
  doubled_slash : Refusal
  of_tree : Panic → Refusal
  out_of_range : Refusal

abbrev pub all_methods : List Text
all_methods =
    codes "GET"
    ∷ codes "POST"
    ∷ codes "PUT"
    ∷ codes "DELETE"
    ∷ codes "PATCH"
    ∷ codes "OPTIONS"
    ∷ codes "HEAD"
    ∷ []

abbrev pub source_of : Text → MiddlewareSource
source_of path = if text_is path (codes "/*") then global_source else path_source

-- The checks of addHandler, in their order.
unfoldable pub refusal : Text → Option Refusal
refusal path =
    if text_is path []
    then some empty_path
    else if not (has_prefix path (codes "/"))
    then some no_leading_slash
    else if ltb 1 (length path) && has_suffix path (codes "/")
    then some trailing_slash
    else if contains path (codes "//")
    then some doubled_slash
    else none

abbrev pub listed : {A : Type 0} → Option (List A) → List A
listed none = []
listed (some mws) = mws

module _ {S : Type 0} where
  -- NewRouter
  abbrev pub new_router : Router S
  new_router = record {
    router_trees = [];
    middlewares = [];
    order_counter = 0;
    radix_router = new_radix_tree;
  }

  -- The middlewares of a method: a missing list is empty.
  abbrev pub middlewares_of : Text → Router S → List (MiddlewareWithPath (Middleware S))
  middlewares_of method r = listed (lookup method r.middlewares)

  -- Use, for a method that is given.
  unfoldable pub use_method : Text → Middleware S → Router S → Text → Router S
  use_method path m r method =
      let order = r.order_counter + 1 in
      let with_path : MiddlewareWithPath (Middleware S) = record {
        middleware = m;
        path = path;
        type = classify_middleware_type path;
        order = order;
        source = source_of path;
      } in
      record r {
        middlewares = put method (middlewares_of method r ++ (with_path ∷ [])) r.middlewares;
        order_counter = order;
      }

  -- The loop over methods.
  unfoldable pub use_methods : List Text → Text → Middleware S → Router S → Router S
  use_methods [] path m r = r
  use_methods (method ∷ methods) path m r = use_methods methods path m (use_method path m r method)

  -- Use
  unfoldable pub use_middleware : Text → Text → Middleware S → Router S → Router S
  use_middleware method path m r =
      if text_is method [] then use_methods all_methods path m r else use_method path m r method

  abbrev pub keep_tree :
      Text → Router S → Option (Legacy.Node (HandlerFunc S)) → Router S × Option Refusal
  keep_tree method r none = (r, some out_of_range)
  keep_tree method r (some tree) =
      (record r { router_trees = put method tree r.router_trees }, none)

  -- addHandler behind its checks: what Handle left, with its panic or with the tree kept beside.
  -- A walk that panics, which an empty segment would make it do, keeps no tree.
  abbrev pub handled_by :
      Text
      → Text
      → HandlerFunc S
      → Router S
      → RadixTree (HandlerFunc S) × Option Panic
      → Router S × Option Refusal
  handled_by method path h r (tree, some p) = (record r { radix_router = tree }, some (of_tree p))
  handled_by method path h r (tree, none) =
      keep_tree method (record r { radix_router = tree })
        (Legacy.add_route path h (lookup method r.router_trees))

  abbrev pub refused_or :
      Option Refusal → Router S → Router S × Option Refusal → Router S × Option Refusal
  refused_or none r result = result
  refused_or (some e) r result = (r, some e)

  -- addHandler
  unfoldable pub add_handler :
      Engine → Text → Text → HandlerFunc S → Router S → Router S × Option Refusal
  add_handler engine method path h r =
      refused_or (refusal path) r
        (handled_by method path h r (add engine method path (some h) r.radix_router))

-- What `range` over the parameters writes into the context, whatever the order of the keys.
unfoldable pub copy_params : Map Text → Map Text → Map Text
copy_params [] into = into
copy_params ((k, v) ∷ params) into = copy_params params (put k v into)

module _ {U : Type 0} where
  -- findHandler behind the search.
  abbrev pub found :
      WebContext U → Option (Handler U) × Map Text → WebContext U × Option (Handler U)
  found ctx (none, params) = (ctx, none)
  found ctx (some h, params) =
      (on_web (λ w. record w { param = copy_params params w.param }) ctx, some h)

  -- findHandler: the parameters come empty from the pool. The order is the one in which `range`
  -- visits parameter children.
  unfoldable pub find_handler :
      Engine
      → (Map (Tree.Node (Handler U)) → Map (Tree.Node (Handler U)))
      → Text
      → Text
      → Router (Web U)
      → WebContext U
      → WebContext U × Option (Handler U)
  find_handler engine order method path r ctx =
      found ctx (find_method engine order method path r.radix_router [])

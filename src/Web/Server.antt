-- ===== src/Web/Server.antt =====
-- web/server.go: the dispatch of a request.
use fyer_webframe.Base.{Bool, [], Option, none, some, if◌then◌else◌, length, drop}
use fyer_webframe.Base.Text.{Text, codes, has_prefix}
use fyer_webframe.Base.Int.{pos}
use fyer_webframe.Base.Map.{Map}
use fyer_webframe.Middleware.{text_is}
use fyer_webframe.Middleware.Chain.{build_chain}
use fyer_webframe.Routing.Node as Tree
use fyer_webframe.Routing.Node.{Engine}
use fyer_webframe.Web.Context.{
  Parts, write_header, write, Request, Web, WebContext, Handler, call, new_context,
}
use fyer_webframe.Web.Response.{handle_response, is_empty_text}
use fyer_webframe.Web.Router.{Router, new_router, middlewares_of, find_handler}

pub record Server (U : Type 0) : Type 0 where
  pub router : Router (Web U)
  pub no_router : Handler U
  pub base_route : Text
  pub parts : Parts

-- What the server leaves of a path behind its base route; none where the path is not below it.
unfoldable pub strip_base : Text → Text → Option Text
strip_base base path =
    let rest = drop (length base) path in
    if text_is base []
    then some path
    else if has_prefix path base
    then some (if is_empty_text rest then codes "/" else rest)
    else none

module _ {U : Type 0} where
  -- The handler that NewHTTPServer sets for an unknown path.
  unfoldable pub default_no_router : Handler U
  default_no_router ctx = call (write (codes "404 Not Found")) (call (write_header (pos 404)) ctx)

  -- NewHTTPServer with the base route and the parts of its options
  abbrev pub new_http_server : Text → Parts → Server U
  new_http_server base parts = record {
    router = new_router;
    no_router = default_no_router;
    base_route = base;
    parts = parts;
  }

  module _ (engine : Engine) (order : Map (Tree.Node (Handler U)) → Map (Tree.Node (Handler U)))
      (write_fails : Bool) (s : Server U) where
    -- ServeHTTP behind findHandler.
    abbrev pub respond : Text → Text → WebContext U × Option (Handler U) → WebContext U
    respond method path (ctx, none) = handle_response write_fails (s.no_router ctx)
    respond method path (ctx, some h) =
        handle_response write_fails (build_chain h path (middlewares_of method s.router) ctx)

    abbrev pub serve_path : Text → WebContext U → Option Text → WebContext U
    serve_path method ctx none = handle_response write_fails (s.no_router ctx)
    serve_path method ctx (some path) =
        respond method path (find_handler engine order method path s.router ctx)

    -- ServeHTTP, on the context that it acquired.
    unfoldable pub serve : Request → WebContext U → WebContext U
    serve request ctx = serve_path request.method ctx (strip_base s.base_route request.url_path)

    -- ServeHTTP without an object pool.
    abbrev pub serve_http : Request → WebContext U
    serve_http request = serve request (new_context s.parts request)

-- ===== src/Web/Tests.antt =====
-- Runs of the server, and the theorems on it at concrete requests.
use fyer_webframe.Base.{ℕ, ◌≡◌, ◌↔◌, refl, false, List, [], ◌∷◌, ◌++◌, none, some, arith, All}
use fyer_webframe.Base.Text.{Text, codes, text_dec, contains, contains_byte, has_prefix, has_suffix}
use fyer_webframe.Base.Int.{pos, ltℤ}
use fyer_webframe.Base.Map.{Map, lookup, insert as put}
use fyer_webframe.Middleware.{path_matches_wildcard_pattern}
use fyer_webframe.Middleware.Matching.{Below}
use fyer_webframe.Middleware.Chain.{Middleware, Applies, build_chain}
use fyer_webframe.Middleware.Tests.{chain}
use fyer_webframe.Routing.Node as Tree
use fyer_webframe.Routing.Tests.{lax, routing}
use fyer_webframe.Routing.Radix.{add, find_method}
use fyer_webframe.Web.Legacy.{add_route, add_segments, classify, child_at, put_child}
use fyer_webframe.Web.Context.{
  Parts, default_logger, request_log, set_logger, set_pool_manager, Call, write_header, write,
  set_header, Request, Web, WebContext, Handler, new_context, put_header, delete_all, reset,
}
use fyer_webframe.Web.Response.{
  ProblemDetails, problem_answer, failed, Encoders, json_answer, not_found, answer, json, xml,
  string, html, template, create, empty, json_error, problem, handle_response, sent_status,
}
use fyer_webframe.Web.Router.{
  Router, trailing_slash, refusal, use_method, use_methods, use_middleware, add_handler, new_router,
  middlewares_of, copy_params, find_handler,
}
use fyer_webframe.Web.Groups.{new_route_group, normalize_path, use_each, use_group, add_grouped}
use fyer_webframe.Web.Server.{
  Server, new_http_server, strip_base, default_no_router, respond, serve, serve_http,
}
use fyer_webframe.Web.Dispatch.{
  Registration, uses, handles, register, register_all, serve-registered,
}
use fyer_webframe.Web.Misses.{serve-base_prefix, serve-default_not_found}
use fyer_webframe.Web.Answers.{IsSetHeader, answer_data, body, answer-sent}
use fyer_webframe.Web.Orders.{IsOrdered, register_all-IsOrdered}
use fyer_webframe.Web.GroupUse.{here, there, AreFor, use_group-Applies}
use fyer_webframe.Web.GroupPaths.{add_grouped-trailing_slash}
use fyer_webframe.Web.Pools.{
  started, released, acquire_context, release_context, acquire_context-new,
}

-- What a run opens.
serving : Unit {0}
unfolding routing chain text_dec contains contains_byte has_prefix has_suffix ltℤ lookup put add
    find_method add_route add_segments classify child_at put_child delete_all reset json xml string
    html template create empty json_error problem answer handle_response refusal use_method
    use_methods use_middleware add_handler copy_params find_handler new_route_group normalize_path
    use_each use_group add_grouped strip_base default_no_router serve register register_all
    acquire_context release_context
serving = tt

-- JSON prints the data as they are.
abbrev plain : Encoders Text
plain = record {
  json = λ t. some t;
  xml = λ t. none;
  render = λ engine name t. some t;
  problem_json = λ p. some p.title;
  problem_xml = λ p. none;
  error_body = λ t. t;
  base_name = λ t. t;
}

abbrev hello : Handler ℕ
hello ctx = (answer plain (json_answer (pos 200) (codes "hi")) ctx).0

-- A middleware that sets a header field before what is inside it.
abbrev tagged : Text → Middleware (Web ℕ)
tagged name next ctx = next (put_header name [] ctx)

abbrev asks : Text → Text → Request
asks method path = record {
  method = method;
  url_path = path;
  remote_addr = codes "10.0.0.1:80";
  header = λ key. [];
  query = λ key. [];
  form = none;
}

abbrev later : List (Registration (Web ℕ))
later =
    uses [] (codes "/*") (tagged (codes "A"))
    ∷ handles (codes "GET") (codes "/users/:id") hello
    ∷ uses (codes "GET") (codes "/users/me") (tagged (codes "B"))
    ∷ []

abbrev as_listed : Map (Tree.Node (Handler ℕ)) → Map (Tree.Node (Handler ℕ))
as_listed m = m

abbrev last : Router (Web ℕ)
last = register_all lax later (add_handler lax (codes "GET") (codes "/users/me") hello new_router).0

-- An engine, no pool manager, and the default logger.
abbrev parts : Parts
parts = record { tpl_engine = some 1; pool_manager = none; server_logger = default_logger }

abbrev site : Server ℕ
site = record {
  router = last;
  no_router = default_no_router;
  base_route = codes "/api";
  parts = parts;
}

abbrev me : Request
me = asks (codes "GET") (codes "/api/users/me")

-- The global middleware runs first, and the answer is sent behind both.
answered :
    (serve_http lax as_listed false site me).state.resp
    ≡ set_header (codes "A") []
      ∷ set_header (codes "B") []
      ∷ set_header (codes "Content-Type") (codes "application/json; charset=utf-8")
      ∷ write_header (pos 200)
      ∷ write (codes "hi")
      ∷ []
unfolding serving
answered = refl

bound :
    (serve_http lax as_listed false site (asks (codes "GET") (codes "/api/users/7"))).state.param
    ≡ (codes "id", codes "7") ∷ []
unfolding serving
bound = refl

serve-registered_example :
    serve lax as_listed false site me (new_context parts me)
    ≡ handle_response false (
        build_chain hello
          (codes "/users/me")
          (middlewares_of (codes "GET") last)
          (new_context parts me))
unfolding serving
serve-registered_example =
    serve-registered lax as_listed false (codes "/api") default_no_router parts new_router
      (codes "/users/me") hello later me (new_context parts me) (ground arith) refl (ground arith)
      refl

serve-base_prefix_example :
    let request = asks (codes "GET") (codes "/apiusers/me") in
    serve lax as_listed false site request (new_context parts request)
    ≡ respond lax as_listed false site (codes "GET") (codes "users/me") (
        find_handler lax as_listed
          (codes "GET")
          (codes "/users/me")
          last
          (new_context parts request))
serve-base_prefix_example =
    serve-base_prefix lax as_listed false site (asks (codes "GET") (codes "/apiusers/me"))
      (new_context parts (asks (codes "GET") (codes "/apiusers/me"))) (codes "users/me")
      (ground arith) (ground arith) (ground arith) refl

abbrev bare : Server ℕ
bare = new_http_server [] parts

serve-default_not_found_example :
    let request = asks (codes "GET") (codes "/none") in
    (serve lax as_listed false bare request (new_context parts request)).state.resp
    ≡ write_header (pos 404) ∷ write (codes "404 Not Found") ∷ write_header (pos 200) ∷ []
unfolding serving
serve-default_not_found_example =
    serve-default_not_found lax as_listed false bare (asks (codes "GET") (codes "/none")) [] refl
      refl refl

abbrev start : WebContext ℕ
start = new_context parts me

answer-sent_example :
    (bytes : Text) × (headers : List Call) × (answer_data plain start (not_found []) ≡ some bytes)
    × All IsSetHeader headers
    × ((handle_response false (answer plain (not_found []) start).0).state.resp
        ≡ [] ++ (headers ++ (write_header (sent_status (pos 404)) ∷ body bytes)))
unfolding serving
answer-sent_example = answer-sent plain (not_found []) start refl refl

register_all-IsOrdered_example : IsOrdered (register_all lax later new_router)
register_all-IsOrdered_example = register_all-IsOrdered lax later

use_group-Applies_example :
    (added : List _) × (middlewares_of
        (codes "POST")
        (use_group (codes "/api") (tagged (codes "A") ∷ []) (new_router {S = Web ℕ}))
      ≡ [] ++ added)
    × AreFor (codes "/api/*") (tagged (codes "A") ∷ []) added
    × All (λ a. Applies (codes "/api/x") a ↔ Below (codes "/api") (codes "/api/x")) added
unfolding serving
use_group-Applies_example =
    use_group-Applies (codes "/api") (tagged (codes "A") ∷ []) new_router (codes "POST")
      (codes "/api/x") (ground arith) refl refl (ground arith)
      (there (ground arith) (ground arith) (here refl (ground arith)))

-- path.Join of "/api" and "/users/".
abbrev joined : Text → Text → Text
joined base relative = codes "/api/users"

add_grouped-trailing_slash_example :
    add_grouped lax joined (codes "/api") (codes "GET") (codes "users/") hello new_router
    ≡ (new_router, some trailing_slash)
unfolding serving
add_grouped-trailing_slash_example =
    add_grouped-trailing_slash lax joined (codes "/api") (codes "GET") b'u' (codes "sers/")
      (codes "/api/users/") hello new_router refl refl refl refl

acquire_context-new_example :
    set_logger
      (request_log me default_logger)
      (acquire_context (some 1) none (some 0) me (release_context (some 1) none (hello start) [])).0
    ≡ new_context parts me
unfolding serving
acquire_context-new_example =
    acquire_context-new parts me (some 0) (release_context (some 1) none (hello start) [])
      (released (hello start) refl refl started)

-- A pool manager that a handler set stays in the context, for the next request.
manager_stays :
    (acquire_context
      (some 1)
      none
      (some 0)
      me
      (release_context (some 1) none (set_pool_manager (some 5) start) [])).0.state.pool_manager
    ≡ some 5
unfolding serving
manager_stays = refl

abbrev trouble : ProblemDetails
trouble = record { type = []; title = codes "t"; status = pos 0; detail = []; instance_uri = [] }

-- A problem that is nil is an error, and the other is sent as JSON where it is not asked for in XML.
problems :
    ((answer plain (problem_answer (pos 400) none) start).1 ≡ failed)
    × ((answer plain (problem_answer (pos 400) (some trouble)) start).0.state.resp_data ≡ codes "t")
unfolding serving
problems = (refl, refl)

-- The middlewares of a group at "/" do not run for the routes below it.
group_at_root : path_matches_wildcard_pattern (codes "/users") (codes "//*") ≡ false
unfolding serving
group_at_root = refl

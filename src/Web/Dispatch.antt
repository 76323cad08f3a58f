-- ===== src/Web/Dispatch.antt =====
-- web/server.go: a request for a registered static route reaches its handler, inside the middlewares
-- of its method.
use fyer_webframe.Base.{
  ◌≡◌, ◌≢◌, ◌⊎◌, inl, inr, refl, sym, ap, ◌∙◌, Bool, true, false, List, [], ◌∷◌, Option, none, some,
  All, none≢some, if◌then◌else◌,
}
use mathlib.Core.Path.{subst}
use fyer_webframe.Base.Text.{Text, text_dec}
use fyer_webframe.Base.Map.{Map, lookup, lookup-insert_self, lookup-insert_ne}
use fyer_webframe.Middleware.{text_is}
use fyer_webframe.Middleware.Chain.{HandlerFunc, Middleware, build_chain}
use fyer_webframe.Routing.Node as Tree
use fyer_webframe.Routing.Node.{Engine, new_node, child_lookup}
use fyer_webframe.Routing.Insert.{Panic, insert}
use fyer_webframe.Routing.Static.{static_handler}
use fyer_webframe.Routing.Radix.{RadixTree, add, find_method, root_of, find_root}
use fyer_webframe.Routing.Lookup.{
  IsStaticPath, IsOther, route_segments, static-IsFull, find-static, insert-static_handler,
  insert-static_handler_self,
}
use fyer_webframe.Web.Legacy as Legacy
use fyer_webframe.Web.Context.{Parts, Request, Web, WebContext, Handler}
use fyer_webframe.Web.Response.{handle_response}
use fyer_webframe.Web.Router.{
  Router, Refusal, refusal, use_method, use_methods, use_middleware, all_methods, keep_tree,
  handled_by, refused_or, add_handler, middlewares_of, copy_params, found, find_handler,
}
use fyer_webframe.Web.Server.{Server, strip_base, respond, serve_path, serve}

-- A call that registers something with the router.
pub data Registration (S : Type 0) : Type 0 where
  uses : Text → Text → Middleware S → Registration S
  handles : Text → Text → HandlerFunc S → Registration S

module _ {S : Type 0} (engine : Engine) where
  -- A panic of addHandler goes on with what it left of the router.
  unfoldable pub register : Registration S → Router S → Router S
  register (uses method path m) r = use_middleware method path m r
  register (handles method path h) r = (add_handler engine method path h r).0

  unfoldable pub register_all : List (Registration S) → Router S → Router S
  register_all [] r = r
  register_all (reg ∷ regs) r = register_all regs (register reg r)

-- A registration that leaves the route of the method and the path alone: of a middleware, of another
-- method, or of another path with no doubled slash.
abbrev pub IsApart : {S : Type 0} → Text → Text → Registration S → Type 0
IsApart method path (uses m p mw) = Unit {0}
IsApart method path (handles m p h) = (m ≢ method) ⊎ IsOther path (p, some h)

module _ {S : Type 0} where
  -- The handler that the tree of a method has for static segments.
  abbrev pub route_handler : Text → Text → RadixTree (HandlerFunc S) → Option (HandlerFunc S)
  route_handler method path trees =
      static_handler (route_segments path) (root_of (lookup method trees))

  use_methods-radix :
      (methods : List Text) (path : Text) (m : Middleware S) (r : Router S)
      → (use_methods methods path m r).radix_router ≡ r.radix_router
  unfolding use_methods use_method
  use_methods-radix [] path m r = refl
  use_methods-radix (method ∷ methods) path m r =
      use_methods-radix methods path m (use_method path m r method)

  if-radix :
      (b : Bool) (x y r : Router S)
      → x.radix_router ≡ r.radix_router
      → y.radix_router ≡ r.radix_router
      → (if b then x else y).radix_router ≡ r.radix_router
  if-radix true x y r e f = e
  if-radix false x y r e f = f

  use_middleware-radix :
      (method path : Text) (m : Middleware S) (r : Router S)
      → (use_middleware method path m r).radix_router ≡ r.radix_router
  unfolding use_middleware use_method
  use_middleware-radix method path m r =
      if-radix (text_is method []) _ _ r (use_methods-radix all_methods path m r) refl

  -- What addHandler leaves of the routing trees: all as it was, or what Add leaves; Add it is where
  -- nothing panicked.
  keep_tree-radix :
      (method : Text) (r : Router S) (o : Option (Legacy.Node (HandlerFunc S)))
      → (keep_tree method r o).0.radix_router ≡ r.radix_router
  keep_tree-radix method r none = refl
  keep_tree-radix method r (some tree) = refl

  handled_by-radix :
      (method path : Text) (h : HandlerFunc S) (r : Router S)
      (added : RadixTree (HandlerFunc S) × Option Panic)
      → ((handled_by method path h r added).0.radix_router ≡ added.0)
        × ((handled_by method path h r added).1 ≡ none → added.1 ≡ none)
  handled_by-radix method path h r (tree, some p) = (refl, λ e. absurd (none≢some (sym e)))
  handled_by-radix method path h r (tree, none) = (keep_tree-radix method _ _, λ _. refl)

  refused_or-radix :
      (e : Option Refusal) (r : Router S) (result : Router S × Option Refusal)
      → ((refused_or e r result ≡ (r, e)) × (e ≢ none)) ⊎ (refused_or e r result ≡ result)
  refused_or-radix none r result = inr refl
  refused_or-radix (some e) r result = inl (refl, λ q. none≢some (sym q))

module _ {S : Type 0} (engine : Engine) where
  add_handler-radix :
      (method path : Text) (h : HandlerFunc S) (r : Router S)
      → (((add_handler engine method path h r).0.radix_router ≡ r.radix_router)
          × ((add_handler engine method path h r).1 ≢ none))
        ⊎ (((add_handler engine method path h r).0.radix_router
              ≡ (add engine method path (some h) r.radix_router).0)
            × ((add_handler engine method path h r).1 ≡ none
                → (add engine method path (some h) r.radix_router).1 ≡ none))
  unfolding add_handler
  add_handler-radix method path h r =
      let added = add engine method path (some h) r.radix_router in
      elim (refused_or-radix (refusal path) r (handled_by method path h r added)) [
        | inl (e, ne) ↦ inl (
          ap (λ (x : Router S × Option Refusal). x.0.radix_router) e,
          λ q. ne (ap (λ (x : Router S × Option Refusal). x.1) (sym e) ∙ q),
        )
        | inr e ↦ inr (rw e (handled_by-radix method path h r added))
      ]

  -- Add of another method or path keeps the handler of a static route.
  route_handler-add :
      (method path : Text) (m p : Text) (h : HandlerFunc S) (trees : RadixTree (HandlerFunc S))
      → (m ≢ method) ⊎ IsOther path (p, some h)
      → route_handler method path (add engine m p (some h) trees).0
        ≡ route_handler method path trees
  unfolding add
  route_handler-add method path m p h trees apart = elim (text_dec m method) [
    | no other ↦
        ap (λ o. static_handler (route_segments path) (root_of o))
          (lookup-insert_ne m method (insert engine p (some h) (root_of (lookup m trees))).0 trees
            other)
    | yes same ↦ elim apart [
      | inl other ↦ absurd (other same)
      | inr (full, ne) ↦
          subst
            (λ k.
              route_handler k path (add engine m p (some h) trees).0 ≡ route_handler k path trees)
            same
            (ap (λ o. static_handler (route_segments path) (root_of o))
                (lookup-insert_self m (insert engine p (some h) (root_of (lookup m trees))).0 trees)
              ∙ insert-static_handler engine p (some h) (route_segments path)
                  (root_of (lookup m trees)) full ne)
    ]
  ]

  register-route_handler :
      (method path : Text) (reg : Registration S) (r : Router S)
      → IsApart method path reg
      → route_handler method path (register engine reg r).radix_router
        ≡ route_handler method path r.radix_router
  unfolding register
  register-route_handler method path (uses m p mw) r apart =
      ap (route_handler method path) (use_middleware-radix m p mw r)
  register-route_handler method path (handles m p h) r apart = elim (add_handler-radix m p h r) [
    | inl (e, ne) ↦ ap (route_handler method path) e
    | inr (e, ok) ↦
        ap (route_handler method path) e ∙ route_handler-add method path m p h r.radix_router apart
  ]

  register_all-route_handler :
      (method path : Text) (regs : List (Registration S)) (r : Router S)
      → All (IsApart method path) regs
      → route_handler method path (register_all engine regs r).radix_router
        ≡ route_handler method path r.radix_router
  unfolding register_all
  register_all-route_handler method path [] r apart = refl
  register_all-route_handler method path (reg ∷ regs) r (apart, aparts) =
      register_all-route_handler method path regs (register engine reg r) aparts
      ∙ register-route_handler method path reg r apart

  add_handler-route_handler :
      (method path : Text) (h : HandlerFunc S) (r : Router S)
      → IsStaticPath path
      → (add_handler engine method path h r).1 ≡ none
      → route_handler method path (add_handler engine method path h r).0.radix_router ≡ some h
  unfolding add
  add_handler-route_handler method path h r st ok = elim (add_handler-radix method path h r) [
    | inl (e, ne) ↦ absurd (ne ok)
    | inr (e, taken) ↦
        ap (route_handler method path) e
        ∙ ap (λ o. static_handler (route_segments path) (root_of o))
            (lookup-insert_self method _ r.radix_router)
        ∙ insert-static_handler_self engine path (some h) _ st (taken ok)
  ]

new_node-route_handler :
    {H : Type 0} {h : H} (segs : List Text) → ¬ (static_handler segs new_node ≡ some h)
unfolding static_handler child_lookup
new_node-route_handler [] e = none≢some e
new_node-route_handler (seg ∷ segs) e = none≢some e

find_root-route_handler :
    {H : Type 0} (engine : Engine) (order : Map (Tree.Node H) → Map (Tree.Node H)) (path : Text)
    (h : H) (root : Option (Tree.Node H)) (params : Map Text)
    → IsStaticPath path
    → static_handler (route_segments path) (root_of root) ≡ some h
    → find_root engine order path root params ≡ (some h, params)
unfolding static_handler
find_root-route_handler engine order path h none params st e =
    absurd (new_node-route_handler (route_segments path) e)
find_root-route_handler engine order path h (some root) params st e =
    find-static engine order h path root params (static-IsFull (route_segments path) st) e

module _ {U : Type 0} (engine : Engine)
    (order : Map (Tree.Node (Handler U)) → Map (Tree.Node (Handler U))) (write_fails : Bool) where
  serve-route_handler :
      (s : Server U) (path : Text) (h : Handler U) (request : Request) (ctx : WebContext U)
      → IsStaticPath path
      → route_handler request.method path s.router.radix_router ≡ some h
      → strip_base s.base_route request.url_path ≡ some path
      → serve engine order write_fails s request ctx
        ≡ handle_response write_fails
            (build_chain h path (middlewares_of request.method s.router) ctx)
  unfolding serve find_handler find_method copy_params
  serve-route_handler s path h request ctx st e strip =
      ap (serve_path engine order write_fails s request.method ctx) strip
      ∙ ap (λ r. respond engine order write_fails s request.method path (found ctx r))
          (find_root-route_handler engine order path h (lookup request.method s.router.radix_router)
            [] st e)

  -- A request for a static route reaches its handler, whatever is registered between: once
  -- addHandler took the path for the method without a panic, and later registrations are of
  -- middlewares, of other methods or of other paths without a doubled slash, ServeHTTP of a
  -- request with the method, whose path behind the base route is that path, answers with what
  -- handleResponse makes of the handler run by BuildChain with the middlewares of the method. The
  -- path has no ":" or "*".
  pub serve-registered :
      (base : Text) (no_router : Handler U) (parts : Parts) (r : Router (Web U)) (path : Text)
      (h : Handler U) (later : List (Registration (Web U))) (request : Request) (ctx : WebContext U)
      → IsStaticPath path
      → (add_handler engine request.method path h r).1 ≡ none
      → All (IsApart request.method path) later
      → strip_base base request.url_path ≡ some path
      → let last = register_all engine later (add_handler engine request.method path h r).0 in
        serve engine order write_fails
          (record { router = last; no_router = no_router; base_route = base; parts = parts })
          request
          ctx
        ≡ handle_response write_fails (build_chain h path (middlewares_of request.method last) ctx)
  serve-registered base no_router parts r path h later request ctx st ok apart strip =
      serve-route_handler
        (record {
          router = register_all engine later (add_handler engine request.method path h r).0;
          no_router = no_router;
          base_route = base;
          parts = parts;
        })
        path h request ctx st
        (register_all-route_handler engine request.method path later _ apart
          ∙ add_handler-route_handler engine request.method path h r st ok)
        strip

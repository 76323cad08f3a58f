-- ===== src/Web/Misses.antt =====
-- web/server.go: a request that no route takes, and a path that only begins like the base route.
use fyer_webframe.Base.{
  ◌≡◌, ◌≢◌, refl, ap, ◌∙◌, Bool, [], ◌∷◌, ◌++◌, Option, none, some, arith, length, drop,
}
use fyer_webframe.Base.Text.{Text, text_dec, codes, has_prefix_append, trim, trim_left}
use fyer_webframe.Base.Int.{pos, ltℤ}
use fyer_webframe.Base.Map.{Map, lookup}
use fyer_webframe.Routing.Node as Tree
use fyer_webframe.Routing.Node.{Engine}
use fyer_webframe.Routing.Find.{find}
use fyer_webframe.Routing.Radix.{find_method, find_root}
use fyer_webframe.Web.Context.{write_header, write, Request, WebContext, Handler, new_context}
use fyer_webframe.Web.Response.{handle_response}
use fyer_webframe.Web.Router.{find_handler, found}
use fyer_webframe.Web.Server.{Server, strip_base, default_no_router, respond, serve_path, serve}

trim-slash : (path : Text) → trim b'/' (b'/' ∷ path) ≡ trim b'/' path
unfolding trim trim_left
trim-slash path = refl

drop-length : (base rest : Text) → drop (length base) (base ++ rest) ≡ rest
drop-length [] rest = refl
drop-length (c ∷ base) rest = drop-length base rest

strip_base-append :
    (base path : Text) → base ≢ [] → path ≢ [] → strip_base base (base ++ path) ≡ some path
unfolding strip_base
strip_base-append base [] ne full = absurd (full refl)
strip_base-append base (c ∷ path) ne full =
    rw (drop-length base (c ∷ path)) (ground (arith, has_prefix_append base (c ∷ path)))

module _ {U : Type 0} (engine : Engine)
    (order : Map (Tree.Node (Handler U)) → Map (Tree.Node (Handler U))) where
  find-slash :
      (path : Text) (n : Tree.Node (Handler U)) (params : Map Text)
      → path ≢ []
      → path ≢ codes "/"
      → find engine order path n params ≡ find engine order (b'/' ∷ path) n params
  unfolding find
  find-slash path n params full ne = ground (arith, trim-slash path)

  find_root-slash :
      (path : Text) (root : Option (Tree.Node (Handler U))) (params : Map Text)
      → path ≢ []
      → path ≢ codes "/"
      → find_root engine order path root params ≡ find_root engine order (b'/' ∷ path) root params
  find_root-slash path none params full ne = refl
  find_root-slash path (some n) params full ne = find-slash path n params full ne

  -- ServeHTTP takes a path below the base route by its letters only: behind a base route that is
  -- not empty, a request path that continues it by some text, neither empty nor "/", is answered
  -- as the route of that text with a slash in front, while the middlewares are chosen for the text
  -- without it.
  pub serve-base_prefix :
      (write_fails : Bool) (s : Server U) (request : Request) (ctx : WebContext U) (path : Text)
      → s.base_route ≢ []
      → path ≢ []
      → path ≢ codes "/"
      → request.url_path ≡ s.base_route ++ path
      → serve engine order write_fails s request ctx
        ≡ respond engine order write_fails s request.method path
            (find_handler engine order request.method (b'/' ∷ path) s.router ctx)
  unfolding serve find_handler find_method
  serve-base_prefix write_fails s request ctx path based full ne e =
      ap (λ p. serve_path engine order write_fails s request.method ctx (strip_base s.base_route p))
        e
      ∙ ap (serve_path engine order write_fails s request.method ctx)
          (strip_base-append s.base_route path based full)
      ∙ ap (λ r. respond engine order write_fails s request.method path (found ctx r))
          (find_root-slash path (lookup request.method s.router.radix_router) [] full ne)

  -- A request that no route takes is answered twice: on a server without a base route, the default
  -- handler writes the header with 404 and its text, and ServeHTTP then writes the header again
  -- with 200.
  pub serve-default_not_found :
      (write_fails : Bool) (s : Server U) (request : Request) (params : Map Text)
      → s.no_router ≡ default_no_router
      → s.base_route ≡ []
      → find_method engine order request.method request.url_path s.router.radix_router []
        ≡ (none, params)
      → (serve engine order write_fails s request (new_context s.parts request)).state.resp
        ≡ write_header (pos 404) ∷ write (codes "404 Not Found") ∷ write_header (pos 200) ∷ []
  unfolding serve find_handler default_no_router strip_base handle_response ltℤ text_dec
  serve-default_not_found write_fails s request params default unbased miss =
      ap
        (λ p.
          (serve_path engine order write_fails s request.method (new_context s.parts request)
            p).state.resp)
        (ap (λ b. strip_base b request.url_path) unbased)
      ∙ ap
          (λ r.
            (respond engine order write_fails s request.method request.url_path
              (found (new_context s.parts request) r)).state.resp)
          miss
      ∙ ap
          (λ (h : Handler U).
            (handle_response write_fails (h (new_context s.parts request))).state.resp)
          default

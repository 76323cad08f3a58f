-- ===== src/Middleware/Chain.antt =====
-- web/middleware.go, BuildChain: the handler of a route inside its middlewares. A handler takes the
-- request's context to the context that it leaves, a middleware a handler to a handler; `S` is what
-- a context holds besides the flag `aborted`.
use mathlib.Core.List.{Perm}
use mathlib.Core.Bool.{false≢true}
use fyer_webframe.Base.{
  ◌≡◌, inl, inr, refl, sym, ◌∙◌, Bool, true, false, List, [], ◌∷◌, Bool-cases, if◌then◌else◌, not,
}
use fyer_webframe.Base.Text.{Text}
use fyer_webframe.Middleware.{
  MiddlewareWithPath, matches_type, collect_matching_middlewares, sort_middlewares,
}
use fyer_webframe.Middleware.Order.{Sorted, sort_middlewares-Sorted, sort_middlewares-perm}

pub record Context (S : Type 0) : Type 0 where
  pub aborted : Bool
  pub state : S

abbrev pub HandlerFunc : Type 0 → Type 0
HandlerFunc S = Context S → Context S

abbrev pub Middleware : Type 0 → Type 0
Middleware S = HandlerFunc S → HandlerFunc S

module _ {S : Type 0} where
  -- The loop of BuildChain from the last middleware to the first.
  unfoldable pub wrap : List (MiddlewareWithPath (Middleware S)) → HandlerFunc S → HandlerFunc S
  wrap [] handler = handler
  wrap (mw ∷ mws) handler = mw.middleware (wrap mws handler)

  -- IsAborted
  abbrev pub is_aborted : Context S → Bool
  is_aborted ctx = ctx.aborted

  -- Abort
  abbrev pub abort : HandlerFunc S
  abort ctx = record ctx { aborted = true }

  -- Next
  unfoldable pub next : HandlerFunc S → HandlerFunc S
  next handler ctx = if not (is_aborted ctx) then handler ctx else ctx

  -- BuildChain
  unfoldable pub build_chain :
      HandlerFunc S → Text → List (MiddlewareWithPath (Middleware S)) → HandlerFunc S
  build_chain handler actual_path middlewares ctx =
      let chain =
        wrap (sort_middlewares (collect_matching_middlewares middlewares actual_path)) handler in
      let fresh : Context S = record ctx { aborted = false } in
      if not (is_aborted fresh) then chain fresh else fresh

  -- The middlewares of a request: those whose pattern matches its path.
  abbrev pub Applies : Text → MiddlewareWithPath (Middleware S) → Type 0
  Applies path mw = matches_type mw.type path mw.path ≡ true

  -- `chosen` are the middlewares of `mws` that apply to the path, in the same order.
  pub data Selected (path : Text)
      : List (MiddlewareWithPath (Middleware S))
        → List (MiddlewareWithPath (Middleware S))
        → Type 0 where
    none_left : Selected path [] []
    keep :
        {mw : MiddlewareWithPath (Middleware S)}
        {mws chosen : List (MiddlewareWithPath (Middleware S))}
        → Applies path mw
        → Selected path mws chosen
        → Selected path (mw ∷ mws) (mw ∷ chosen)
    skip :
        {mw : MiddlewareWithPath (Middleware S)}
        {mws chosen : List (MiddlewareWithPath (Middleware S))}
        → ¬ Applies path mw
        → Selected path mws chosen
        → Selected path (mw ∷ mws) chosen

  collect_matching_middlewares-Selected :
      (mws : List (MiddlewareWithPath (Middleware S))) (path : Text)
      → Selected path mws (collect_matching_middlewares mws path)
  unfolding collect_matching_middlewares
  collect_matching_middlewares-Selected [] path = none_left
  collect_matching_middlewares-Selected (mw ∷ mws) path =
      elim (Bool-cases (matches_type mw.type path mw.path)) [
        | inl e ↦ rw e (keep e (collect_matching_middlewares-Selected mws path))
        | inr e ↦
            rw e
              (skip (λ h. false≢true (sym e ∙ h)) (collect_matching_middlewares-Selected mws path))
      ]

  -- How a request runs: its handler inside exactly the middlewares whose pattern matches the path,
  -- global ones outermost and the others in the order of `Before`, from a context whose flag
  -- `aborted` is cleared, whatever it was.
  pub record Runs (handler : HandlerFunc S) (path : Text)
      (mws : List (MiddlewareWithPath (Middleware S))) : Type 0 where
    pub chosen : List (MiddlewareWithPath (Middleware S))
    pub selected : Selected path mws chosen
    pub ordered : List (MiddlewareWithPath (Middleware S))
    pub same : Perm ordered chosen
    pub sorted : Sorted ordered
    pub runs :
        (ctx : Context S)
        → build_chain handler path mws ctx ≡ wrap ordered handler (record ctx { aborted = false })

  -- BuildChain runs a request through its handler inside exactly the middlewares whose pattern
  -- matches the path, the global ones outermost and the others by type, specificity and order of
  -- registration, from a context whose flag aborted is cleared.
  pub build_chain-Runs :
      (handler : HandlerFunc S) (path : Text) (mws : List (MiddlewareWithPath (Middleware S)))
      → Runs handler path mws
  unfolding build_chain
  build_chain-Runs handler path mws = record {
    chosen = collect_matching_middlewares mws path;
    selected = collect_matching_middlewares-Selected mws path;
    ordered = sort_middlewares (collect_matching_middlewares mws path);
    same = sort_middlewares-perm _;
    sorted = sort_middlewares-Sorted _;
    runs = λ ctx. refl;
  }

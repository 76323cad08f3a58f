-- ===== src/Web/Pools.antt =====
-- web/pool/context_pool.go and interface.go with Reset of web/context.go: contexts that are used
-- again. sync.Pool is the list of what was put into it; Get takes any of these, or makes a new one.
use fyer_webframe.Base.{ℕ, zero, suc, ◌≡◌, refl, ap, List, [], ◌∷◌, Option, none, some, All}
use fyer_webframe.Base.Map.{Map}
use fyer_webframe.Web.Context.{
  Request, Parts, WebContext, request_log, new_context, new_context_for_pool, delete_all, reset,
  set_request, set_response, set_logger,
}

delete_all-nil : {V : Type 0} (m : Map V) → delete_all m ≡ []
unfolding delete_all
delete_all-nil [] = refl
delete_all-nil (kv ∷ m) = delete_all-nil m

-- The pool of InitContextPool with an engine and a manager.
module _ {U : Type 0} (engine manager : Option ℕ) where
  -- The object that Get takes: the one at the place, or the new one.
  abbrev pub taken : Option ℕ → List (WebContext U) → WebContext U
  taken none pool = new_context_for_pool engine manager
  taken (some n) [] = new_context_for_pool engine manager
  taken (some zero) (ctx ∷ pool) = ctx
  taken (some (suc n)) (ctx ∷ pool) = taken (some n) pool

  abbrev pub left_over : Option ℕ → List (WebContext U) → List (WebContext U)
  left_over none pool = pool
  left_over (some n) [] = []
  left_over (some zero) (ctx ∷ pool) = pool
  left_over (some (suc n)) (ctx ∷ pool) = ctx ∷ left_over (some n) pool

  -- AcquireContext
  unfoldable pub acquire_context :
      Option ℕ → Request → List (WebContext U) → WebContext U × List (WebContext U)
  acquire_context choice request pool =
      (set_response (set_request request (taken choice pool)), left_over choice pool)

  -- ReleaseContext, ContextPool.Put
  unfoldable pub release_context : WebContext U → List (WebContext U) → List (WebContext U)
  release_context ctx pool = reset ctx ∷ pool

  -- The pools that calls of the two lead to. In between a handler may do anything to a context but
  -- set its pool manager; nothing sets its engine.
  pub data Reach : List (WebContext U) → Type 0 where
    started : Reach []
    acquired :
        {pool : List (WebContext U)} (choice : Option ℕ) (request : Request)
        → Reach pool
        → Reach (acquire_context choice request pool).1
    released :
        {pool : List (WebContext U)} (ctx : WebContext U)
        → ctx.state.tpl_engine ≡ engine
        → ctx.state.pool_manager ≡ manager
        → Reach pool
        → Reach (release_context ctx pool)

  -- What Reset makes of each context of the pool: a new one without a logger.
  abbrev idle : WebContext U
  idle =
      let fresh : WebContext U = new_context_for_pool engine manager in
      record fresh { state = record (fresh.state) { logger = none } }

  reset-idle :
      (ctx : WebContext U)
      → ctx.state.tpl_engine ≡ engine
      → ctx.state.pool_manager ≡ manager
      → reset ctx ≡ idle
  unfolding reset
  reset-idle ctx e m =
      rw (delete_all-nil ctx.state.param, delete_all-nil ctx.state.user_values, e, m) refl

  left_over-All :
      (choice : Option ℕ) (pool : List (WebContext U))
      → All (λ ctx. ctx ≡ idle) pool
      → All (λ ctx. ctx ≡ idle) (left_over choice pool)
  left_over-All none pool all = all
  left_over-All (some n) [] all = tt
  left_over-All (some zero) (ctx ∷ pool) (e, all) = all
  left_over-All (some (suc n)) (ctx ∷ pool) (e, all) = (e, left_over-All (some n) pool all)

  Reach-idle : (pool : List (WebContext U)) → Reach pool → All (λ ctx. ctx ≡ idle) pool
  unfolding acquire_context release_context
  Reach-idle pool started = tt
  Reach-idle pool (acquired {pool = before} choice request reach) =
      left_over-All choice before (Reach-idle before reach)
  Reach-idle pool (released {pool = before} ctx e m reach) =
      (reset-idle ctx e m, Reach-idle before reach)

module _ {U : Type 0} (parts : Parts) (request : Request) where
  -- The context of ServeHTTP with an object pool, from what Get took.
  abbrev pub prepared : WebContext U → WebContext U
  prepared ctx =
      set_logger (request_log request parts.server_logger) (set_response (set_request request ctx))

  taken-new :
      (choice : Option ℕ) (pool : List (WebContext U))
      → All (λ ctx. ctx ≡ idle parts.tpl_engine parts.pool_manager) pool
      → prepared (taken parts.tpl_engine parts.pool_manager choice pool) ≡ new_context parts request
  taken-new none pool all = refl
  taken-new (some n) [] all = refl
  taken-new (some zero) (ctx ∷ pool) (e, all) = ap prepared e
  taken-new (some (suc n)) (ctx ∷ pool) (e, all) = taken-new (some n) pool all

  -- In every history of a pool that was made with the template engine and the pool manager of the
  -- server, where no handler sets the pool manager of its context, the context of a request holds
  -- nothing of an earlier one: what AcquireContext gives, once ServeHTTP has set its logger, is
  -- the context that the server makes for the request without a pool.
  pub acquire_context-new :
      (choice : Option ℕ) (pool : List (WebContext U))
      → Reach parts.tpl_engine parts.pool_manager pool
      → set_logger
          (request_log request parts.server_logger)
          (acquire_context parts.tpl_engine parts.pool_manager choice request pool).0
        ≡ new_context parts request
  unfolding acquire_context
  acquire_context-new choice pool reach =
      taken-new choice pool (Reach-idle parts.tpl_engine parts.pool_manager pool reach)

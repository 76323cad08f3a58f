-- ===== src/Web/Orders.antt =====
-- web/router.go and web/group.go: what registrations of middlewares leave in the lists of the methods.
use fyer_webframe.Base.{
  ℕ, ◌+◌, ◌≤◌, ◌<◌, ◌≡◌, ◌≢◌, sym, ap, Bool, true, false, List, [], ◌∷◌, ◌++◌, Option, none, some,
  arith, All, if◌then◌else◌,
}
use mathlib.Core.Path.{subst}
use fyer_webframe.Base.Text.{Text, text_dec}
use fyer_webframe.Base.Map.{lookup, lookup-insert_self, lookup-insert_ne}
use fyer_webframe.Middleware.{MiddlewareWithPath, text_is, classify_middleware_type}
use fyer_webframe.Middleware.Chain.{HandlerFunc, Middleware}
use fyer_webframe.Routing.Node.{Engine}
use fyer_webframe.Routing.Insert.{Panic}
use fyer_webframe.Routing.Radix.{RadixTree}
use fyer_webframe.Web.Legacy as Legacy
use fyer_webframe.Web.Router.{
  Router, Refusal, new_router, listed, middlewares_of, source_of, all_methods, use_method,
  use_methods, use_middleware, keep_tree, handled_by, refused_or, refusal, add_handler,
}
use fyer_webframe.Web.Dispatch.{Registration, uses, handles, register, register_all}

module _ {S : Type 0} where
  -- Each middleware was registered before those behind it.
  abbrev pub Ascending : List (MiddlewareWithPath (Middleware S)) → Type 0
  Ascending [] = Unit {0}
  Ascending (a ∷ mws) = All (λ b. a.order < b.order) mws × Ascending mws

  -- Every list of the router ascends, up to the counter.
  abbrev pub IsOrdered : Router S → Type 0
  IsOrdered r =
      (method : Text)
      → Ascending (middlewares_of method r)
        × All (λ mw. mw.order ≤ r.order_counter) (middlewares_of method r)

  All-le_trans :
      (n m : ℕ) (mws : List (MiddlewareWithPath (Middleware S)))
      → n ≤ m
      → All (λ mw. mw.order ≤ n) mws
      → All (λ mw. mw.order ≤ m) mws
  All-le_trans n m [] le all = tt
  All-le_trans n m (mw ∷ mws) le (a, all) = (omega arith, All-le_trans n m mws le all)

  All-append_one :
      (P : MiddlewareWithPath (Middleware S) → Type 0) (mw : MiddlewareWithPath (Middleware S))
      (mws : List (MiddlewareWithPath (Middleware S)))
      → All P mws
      → P mw
      → All P (mws ++ (mw ∷ []))
  All-append_one P mw [] all p = (p, tt)
  All-append_one P mw (a ∷ mws) (q, all) p = (q, All-append_one P mw mws all p)

  Ascending-append_one :
      (n : ℕ) (mw : MiddlewareWithPath (Middleware S))
      (mws : List (MiddlewareWithPath (Middleware S)))
      → Ascending mws
      → All (λ a. a.order ≤ n) mws
      → n < mw.order
      → Ascending (mws ++ (mw ∷ []))
  Ascending-append_one n mw [] asc all lt = (tt, tt)
  Ascending-append_one n mw (a ∷ mws) (before, asc) (le, all) lt = (
    All-append_one (λ b. a.order < b.order) mw mws before (omega arith),
    Ascending-append_one n mw mws asc all lt,
  )

  -- What Use registers, with the number that it has.
  abbrev pub with_path : Text → Middleware S → ℕ → MiddlewareWithPath (Middleware S)
  with_path path m order = record {
    middleware = m;
    path = path;
    type = classify_middleware_type path;
    order = order;
    source = source_of path;
  }

  pub use_method_self :
      (path : Text) (m : Middleware S) (r : Router S) (method : Text)
      → middlewares_of method (use_method path m r method)
        ≡ middlewares_of method r ++ (with_path path m (r.order_counter + 1) ∷ [])
  unfolding use_method
  use_method_self path m r method = ap listed (lookup-insert_self method _ r.middlewares)

  pub use_method_other :
      (path : Text) (m : Middleware S) (r : Router S) (method asked : Text)
      → method ≢ asked
      → middlewares_of asked (use_method path m r method) ≡ middlewares_of asked r
  unfolding use_method
  use_method_other path m r method asked ne =
      ap listed (lookup-insert_ne method asked _ r.middlewares ne)

  use_method-IsOrdered :
      (path : Text) (m : Middleware S) (r : Router S) (method : Text)
      → IsOrdered r
      → IsOrdered (use_method path m r method)
  unfolding use_method
  use_method-IsOrdered path m r method ordered asked =
      let (asc, all) = ordered asked in
      let n = r.order_counter in
      let new = with_path path m (n + 1) in
      elim (text_dec method asked) [
        | yes same ↦
            subst (λ l. Ascending l × All (λ mw. mw.order ≤ n + 1) l)
              (sym (
                subst
                  (λ k.
                    middlewares_of k (use_method path m r method)
                    ≡ middlewares_of k r ++ (new ∷ []))
                  same (use_method_self path m r method)))
              (
                Ascending-append_one n new (middlewares_of asked r) asc all (omega arith),
                All-append_one (λ mw. mw.order ≤ n + 1) new (middlewares_of asked r)
                    (All-le_trans n (n + 1) (middlewares_of asked r) (omega arith) all)
                    (omega arith),
              )
        | no other ↦
            subst (λ l. Ascending l × All (λ mw. mw.order ≤ n + 1) l)
              (sym (use_method_other path m r method asked other))
              (asc, All-le_trans n (n + 1) (middlewares_of asked r) (omega arith) all)
      ]

  use_methods-IsOrdered :
      (methods : List Text) (path : Text) (m : Middleware S) (r : Router S)
      → IsOrdered r
      → IsOrdered (use_methods methods path m r)
  unfolding use_methods
  use_methods-IsOrdered [] path m r ordered = ordered
  use_methods-IsOrdered (method ∷ methods) path m r ordered =
      use_methods-IsOrdered methods path m _ (use_method-IsOrdered path m r method ordered)

  if-IsOrdered :
      (b : Bool) (x y : Router S) → IsOrdered x → IsOrdered y → IsOrdered (if b then x else y)
  if-IsOrdered true x y f g = f
  if-IsOrdered false x y f g = g

  use_middleware-IsOrdered :
      (method path : Text) (m : Middleware S) (r : Router S)
      → IsOrdered r
      → IsOrdered (use_middleware method path m r)
  unfolding use_middleware
  use_middleware-IsOrdered method path m r ordered =
      if-IsOrdered (text_is method []) (use_methods all_methods path m r)
        (use_method path m r method) (use_methods-IsOrdered all_methods path m r ordered)
        (use_method-IsOrdered path m r method ordered)

  -- addHandler keeps the lists and the counter.
  keep_tree-IsOrdered :
      (method : Text) (r : Router S) (o : Option (Legacy.Node (HandlerFunc S)))
      → IsOrdered r
      → IsOrdered (keep_tree method r o).0
  keep_tree-IsOrdered method r none ordered = ordered
  keep_tree-IsOrdered method r (some tree) ordered = ordered

  handled_by-IsOrdered :
      (method path : Text) (h : HandlerFunc S) (r : Router S)
      (added : RadixTree (HandlerFunc S) × Option Panic)
      → IsOrdered r
      → IsOrdered (handled_by method path h r added).0
  handled_by-IsOrdered method path h r (tree, some p) ordered = ordered
  handled_by-IsOrdered method path h r (tree, none) ordered =
      keep_tree-IsOrdered method _ (Legacy.add_route path h (lookup method r.router_trees)) ordered

  refused_or-IsOrdered :
      (e : Option Refusal) (r : Router S) (result : Router S × Option Refusal)
      → IsOrdered r
      → IsOrdered result.0
      → IsOrdered (refused_or e r result).0
  refused_or-IsOrdered none r result f g = g
  refused_or-IsOrdered (some e) r result f g = f

  register-IsOrdered :
      (engine : Engine) (reg : Registration S) (r : Router S)
      → IsOrdered r
      → IsOrdered (register engine reg r)
  unfolding register add_handler
  register-IsOrdered engine (uses method path m) r ordered =
      use_middleware-IsOrdered method path m r ordered
  register-IsOrdered engine (handles method path h) r ordered =
      refused_or-IsOrdered (refusal path) r _ ordered
        (handled_by-IsOrdered method path h r _ ordered)

  register_all-keeps_IsOrdered :
      (engine : Engine) (regs : List (Registration S)) (r : Router S)
      → IsOrdered r
      → IsOrdered (register_all engine regs r)
  unfolding register_all
  register_all-keeps_IsOrdered engine [] r ordered = ordered
  register_all-keeps_IsOrdered engine (reg ∷ regs) r ordered =
      register_all-keeps_IsOrdered engine regs _ (register-IsOrdered engine reg r ordered)

  -- After any registrations with a new router, panics included, the middlewares of each method
  -- stand in ascending order of their numbers, no two of which are equal, and none is above the
  -- counter.
  pub register_all-IsOrdered :
      (engine : Engine) (regs : List (Registration S))
      → IsOrdered (register_all engine regs new_router)
  unfolding lookup
  register_all-IsOrdered engine regs =
      register_all-keeps_IsOrdered engine regs new_router (λ method. (tt, tt))

-- ===== src/Web/GroupUse.antt =====
-- web/group.go and web/middlewaremanager.go: the middlewares of a group run for its routes, and the
-- paths that a group cannot register.
use fyer_webframe.Base.{
  ℕ, ◌+◌, ◌≡◌, ◌≢◌, ◌↔◌, refl, sym, ap, ◌∙◌, Bool, false, ◌||◌, List, [], ◌∷◌, ◌++◌, arith, All,
  map,
}
use mathlib.Core.Path.{subst}
use mathlib.Core.List.{append_assoc, append-nil}
use fyer_webframe.Base.Text.{Text, codes, contains_byte}
use fyer_webframe.Middleware.{MiddlewareWithPath, classify_middleware_type, wildcard_middleware}
use fyer_webframe.Middleware.Matching.{Below, path_matches_wildcard_pattern_iff}
use fyer_webframe.Middleware.Chain.{Context, Middleware, Applies}
use fyer_webframe.Web.Router.{Router, middlewares_of, use_method, use_middleware, all_methods}
use fyer_webframe.Web.Groups.{
  group_methods, use_each, use_group, use_conditional, conditional_middleware,
}
use fyer_webframe.Web.Orders.{with_path, use_method_self, use_method_other}

-- The method stands once in the list, and no method is empty.
pub data IsOnce (method : Text) : List Text → Type 0 where
  here :
      {m : Text} {methods : List Text}
      → m ≡ method
      → All (λ k. (k ≢ method) × (k ≢ [])) methods
      → IsOnce method (m ∷ methods)
  there :
      {m : Text} {methods : List Text}
      → m ≢ method
      → m ≢ []
      → IsOnce method methods
      → IsOnce method (m ∷ methods)

module _ {S : Type 0} where
  use_middleware-method :
      (method path : Text) (m : Middleware S) (r : Router S)
      → method ≢ []
      → use_middleware method path m r ≡ use_method path m r method
  unfolding use_middleware
  use_middleware-method method path m r ne = ground arith

  use_each_other :
      (methods : List Text) (path : Text) (m : Middleware S) (r : Router S) (asked : Text)
      → All (λ k. (k ≢ asked) × (k ≢ [])) methods
      → middlewares_of asked (use_each methods path m r) ≡ middlewares_of asked r
  unfolding use_each
  use_each_other [] path m r asked others = refl
  use_each_other (method ∷ methods) path m r asked ((ne, full), others) =
      use_each_other methods path m (use_middleware method path m r) asked others
      ∙ ap (middlewares_of asked) (use_middleware-method method path m r full)
      ∙ use_method_other path m r method asked ne

  use_each_once :
      (methods : List Text) (path : Text) (m : Middleware S) (r : Router S) (asked : Text)
      → asked ≢ []
      → IsOnce asked methods
      → (order : ℕ) × (middlewares_of asked (use_each methods path m r)
          ≡ middlewares_of asked r ++ (with_path path m order ∷ []))
  unfolding use_each
  use_each_once [] path m r asked full once = elim once [ ]
  use_each_once (method ∷ methods) path m r asked full (here same others) =
      let filled : method ≢ [] = λ e. full (sym same ∙ e) in
      (
        r.order_counter + 1,
        use_each_other methods path m (use_middleware method path m r) asked others
            ∙ ap (middlewares_of asked) (use_middleware-method method path m r filled)
            ∙ subst
                (λ k.
                  middlewares_of k (use_method path m r method)
                  ≡ middlewares_of k r ++ (with_path path m (r.order_counter + 1) ∷ []))
                same (use_method_self path m r method),
      )
  use_each_once (method ∷ methods) path m r asked full (there ne filled once) =
      let (order, e) =
        use_each_once methods path m (use_middleware method path m r) asked full once in
      (
        order,
        e
            ∙ ap (λ l. l ++ (with_path path m order ∷ []))
                (ap (middlewares_of asked) (use_middleware-method method path m r filled)
                  ∙ use_method_other path m r method asked ne),
      )

  -- The list has the middlewares in their order, each for the pattern.
  abbrev pub AreFor : Text → List (Middleware S) → List (MiddlewareWithPath (Middleware S)) → Type 0
  AreFor path [] [] = Unit {0}
  AreFor path (m ∷ ms) (a ∷ added) =
      ((order : ℕ) × (a ≡ with_path path m order)) × AreFor path ms added
  AreFor path [] (a ∷ added) = ⊥
  AreFor path (m ∷ ms) [] = ⊥

  -- Behind `old`, the middlewares for the pattern.
  abbrev pub Appended :
      Text
      → List (Middleware S)
      → List (MiddlewareWithPath (Middleware S))
      → List (MiddlewareWithPath (Middleware S))
      → Type 0
  Appended path ms old new =
      (added : List (MiddlewareWithPath (Middleware S))) × (new ≡ old ++ added)
      × AreFor path ms added

  Appended-cons :
      (path : Text) (m : Middleware S) (ms : List (Middleware S)) (order : ℕ)
      (old new : List (MiddlewareWithPath (Middleware S)))
      → Appended path ms (old ++ (with_path path m order ∷ [])) new
      → Appended path (m ∷ ms) old new
  Appended-cons path m ms order old new (added, e, all) = (
    with_path path m order ∷ added,
    e ∙ append_assoc old (with_path path m order ∷ []) added,
    ((order, refl), all),
  )

  use_group-Appended :
      (base : Text) (ms : List (Middleware S)) (r : Router S) (method : Text)
      → method ≢ []
      → IsOnce method group_methods
      → Appended
          (base ++ codes "/*")
          ms
          (middlewares_of method r)
          (middlewares_of method (use_group base ms r))
  unfolding use_group
  use_group-Appended base [] r method full once = ([], sym (append-nil _), tt)
  use_group-Appended base (m ∷ ms) r method full once =
      let next = use_each group_methods (base ++ codes "/*") m r in
      let (order, e) = use_each_once group_methods (base ++ codes "/*") m r method full once in
      Appended-cons (base ++ codes "/*") m ms order (middlewares_of method r) _ (
        subst
          (λ l. Appended (base ++ codes "/*") ms l (middlewares_of method (use_group base ms next)))
          e (use_group-Appended base ms next method full once))

  -- A conditional middleware is registered once for every method, for all paths.
  use_conditional-Appended :
      (condition : Context S → Bool) (ms : List (Middleware S)) (r : Router S) (method : Text)
      → method ≢ []
      → IsOnce method all_methods
      → Appended
          (codes "/*")
          (map (conditional_middleware condition) ms)
          (middlewares_of method r)
          (middlewares_of method (use_conditional condition ms r))
  unfolding use_conditional
  use_conditional-Appended condition [] r method full once = ([], sym (append-nil _), tt)
  use_conditional-Appended condition (m ∷ ms) r method full once =
      let wrapped = conditional_middleware condition m in
      let next = use_each all_methods (codes "/*") wrapped r in
      let (order, e) = use_each_once all_methods (codes "/*") wrapped r method full once in
      Appended-cons (codes "/*") wrapped (map (conditional_middleware condition) ms) order
        (middlewares_of method r) _
        (subst
          (λ l.
            Appended (codes "/*") (map (conditional_middleware condition) ms) l
              (middlewares_of method (use_conditional condition ms next)))
          e (use_conditional-Appended condition ms next method full once))

contains_byte-append :
    (s t : Text) (b : ℕ) → contains_byte (s ++ t) b ≡ (contains_byte s b || contains_byte t b)
unfolding contains_byte
contains_byte-append [] t b = refl
contains_byte-append (c ∷ s) t b = ground (arith, contains_byte-append s t b)

classify_group :
    (base : Text)
    → contains_byte base b':' ≡ false
    → contains_byte base b'(' ≡ false
    → classify_middleware_type (base ++ codes "/*") ≡ wildcard_middleware
unfolding classify_middleware_type contains_byte
classify_group base colon paren = ground (
  arith,
  contains_byte-append base (codes "/*") b':',
  contains_byte-append base (codes "/*") b'(',
  contains_byte-append base (codes "/*") b'*',
)

module _ {S : Type 0} where
  with_path-Applies :
      (base path : Text) (m : Middleware S) (order : ℕ)
      → base ≢ []
      → contains_byte base b':' ≡ false
      → contains_byte base b'(' ≡ false
      → Applies path (with_path (base ++ codes "/*") m order) ↔ Below base path
  with_path-Applies base path m order full colon paren =
      rw (classify_group base colon paren) (path_matches_wildcard_pattern_iff path base full)

  AreFor-Applies :
      (base path : Text) (ms : List (Middleware S))
      (added : List (MiddlewareWithPath (Middleware S)))
      → base ≢ []
      → contains_byte base b':' ≡ false
      → contains_byte base b'(' ≡ false
      → AreFor (base ++ codes "/*") ms added
      → All (λ a. Applies path a ↔ Below base path) added
  AreFor-Applies base path [] [] full colon paren all = tt
  AreFor-Applies base path (m ∷ ms) (a ∷ added) full colon paren ((order, e), all) = (
    subst (λ x. Applies path x ↔ Below base path) (sym e)
        (with_path-Applies base path m order full colon paren),
    AreFor-Applies base path ms added full colon paren all,
  )
  AreFor-Applies base path [] (a ∷ added) full colon paren all = absurd all
  AreFor-Applies base path (m ∷ ms) [] full colon paren all = absurd all

  -- Use of a group appends its middlewares, in their order, to the list of each of its six
  -- methods, and they apply to exactly the paths that are the base path of the group or the base
  -- path, one more slash and anything behind it; for a group at "/" these are "/" and the paths
  -- that begin with two slashes. The base path is not empty and has no ":" and no "(".
  pub use_group-Applies :
      (base : Text) (ms : List (Middleware S)) (r : Router S) (method path : Text)
      → base ≢ []
      → contains_byte base b':' ≡ false
      → contains_byte base b'(' ≡ false
      → method ≢ []
      → IsOnce method group_methods
      → (added : List (MiddlewareWithPath (Middleware S))) × (middlewares_of method
            (use_group base ms r)
          ≡ middlewares_of method r ++ added)
        × AreFor (base ++ codes "/*") ms added
        × All (λ a. Applies path a ↔ Below base path) added
  use_group-Applies base ms r method path full colon paren named once =
      let (added, e, all) = use_group-Appended base ms r method named once in
      (added, e, all, AreFor-Applies base path ms added full colon paren all)

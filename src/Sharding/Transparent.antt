-- ===== src/Sharding/Transparent.antt =====
-- orm/internal/sharding/router.go: on text keys the cache of routes answers as the strategy does.
use fyer_webframe.Base.{
  ℕ, ◌≡◌, ◌≢◌, inl, inr, refl, sym, ap, ◌∙◌, List, [], ◌∷◌, ◌++◌, some, arith, Option-cases,
  Bool-cases, All, of_some,
}
use mathlib.Core.Path.{subst}
use fyer_webframe.Base.Text.{Text, text_dec, codes}
use fyer_webframe.Base.Map.{Map, lookup, insert, lookup-insert}
use fyer_webframe.Base.Int.{ℤ}
use fyer_webframe.Sharding.Strategy.{Key, text, Routed, routed, unrouted}
use fyer_webframe.Sharding.Router.{
  Strategy, ModelInfo, Router, RouteResult, route_ok, route_err, resolve_alias, get_model_info,
  shard_of, at_time, name_of, name_routed, route_of, get_cache_key, remember, keyed,
  calculate_route, clear_cache, is_nil_strategy,
}
use fyer_webframe.Sharding.Names.{append_cancel}
use fyer_webframe.Sharding.RouteCache.{remember-result}

-- The name has no colon.
abbrev pub IsPlain : Text → Type 0
IsPlain = All (λ c. c ≢ 58)

split_at_colon :
    (m n t u : Text) → IsPlain m → IsPlain n → m ++ 58 ∷ t ≡ n ++ 58 ∷ u → (m ≡ n) × (t ≡ u)
split_at_colon [] [] t u p q e = (refl, cc)
split_at_colon [] (c ∷ n) t u p (q, qs) e = absurd (q cc)
split_at_colon (c ∷ m) [] t u (p, ps) q e = absurd (p cc)
split_at_colon (c ∷ m) (d ∷ n) t u (p, ps) (q, qs) e =
    let (a, b) = split_at_colon m n t u ps qs cc in (cc, b)

abbrev text_key : Text → Text → Text
text_key model t = model ++ (58 ∷ (codes "string:" ++ t))

-- The names do not depend on the time.
abbrev pub IsSteady : Strategy → Type 0
IsSteady s = (now later : ℕ) (db table : ℤ) → name_of now s db table ≡ name_of later s db table

shard_of-steady :
    (s : Strategy) (key : Key) (now later : ℕ)
    → IsSteady s
    → shard_of now s key ≡ shard_of later s key
shard_of-steady s key now later steady = of_route (route_of s key)
  where
    of_route : (o : Routed) → name_routed now s o ≡ name_routed later s o
    of_route (routed db table) = steady now later db table
    of_route (unrouted e) = refl
    of_route Routed.route_panic = refl

-- All but the cache and the time.
abbrev registry : Router → Router
registry r = at_time 0 (clear_cache r)

same_registry :
    (model : Text) (r r' : Router)
    → registry r' ≡ registry r
    → (resolve_alias model r' ≡ resolve_alias model r)
      × (get_model_info (resolve_alias model r') r' ≡ get_model_info (resolve_alias model r) r)
unfolding clear_cache get_model_info
same_registry model r r' e =
    (ap (resolve_alias model) e, ap (λ s. get_model_info (resolve_alias model s) s) e)

-- What is cached for a text is what the strategy of its model answers, at any time.
abbrev pub IsSound : Router → Type 0
IsSound r =
    (now : ℕ) (model t : Text) (names : Text × Text)
    → IsPlain model
    → lookup (text_key model t) r.route_cache ≡ some names
    → (info : ModelInfo) × (get_model_info model r ≡ some info)
      × (shard_of now info.strategy (text t) ≡ route_ok names.0 names.1)

-- A call at a time, for which the model's name, behind its alias, has no colon, the value of its
-- shard key is a text, and the names of its strategy do not depend on the time.
abbrev pub IsTextual : Router → ℕ × Text × Map Key → Type 0
IsTextual r (now, model, values) =
    IsPlain (resolve_alias model r)
    × ((info : ModelInfo) (key : Key)
        → get_model_info (resolve_alias model r) r ≡ some info
        → lookup info.shard_key values ≡ some key
        → (t : Text) × (key ≡ text t))
    × ((info : ModelInfo)
        → get_model_info (resolve_alias model r) r ≡ some info
        → IsSteady info.strategy)

-- One call keeps the registry and the soundness, and answers with `fresh`.
record Keeps (r : Router) (x : Router × RouteResult) (fresh : RouteResult) : Type 0 where
  kept : registry x.0 ≡ registry r
  sound : IsSound x.0
  answer : x.1 ≡ fresh

stored-IsSound :
    (r : Router) (model t a b : Text) (info : ModelInfo)
    → IsSound r
    → IsPlain model
    → get_model_info model r ≡ some info
    → IsSteady info.strategy
    → shard_of r.clock info.strategy (text t) ≡ route_ok a b
    → IsSound (record r { route_cache = insert (text_key model t) (a, b) r.route_cache })
unfolding get_model_info
stored-IsSound r model t a b info sound plain found steady e now model' t' names plain' hit =
    let written = lookup-insert (text_key model t) (text_key model' t') (a, b) r.route_cache in
    elim (text_dec (text_key model t) (text_key model' t')) [
      | yes q ↦
          let (same_model, rest) = split_at_colon model model' _ _ plain plain' q in
          let same_text = append_cancel (codes "string:") t t' rest in
          let same_names : (a, b) ≡ names = of_some (ground (arith, written)) in
          (
            info,
            rw (← same_model) found,
            rw (← same_text) (
                shard_of-steady info.strategy (text t) now r.clock steady
                ∙ e
                ∙ ap (λ n. route_ok n.0 n.1) same_names),
          )
      | no q ↦ sound now model' t' names plain' (ground (arith, written))
    ]

remember-Keeps :
    (r : Router) (model t : Text) (info : ModelInfo) (x : RouteResult)
    → IsSound r
    → IsPlain model
    → get_model_info model r ≡ some info
    → IsSteady info.strategy
    → shard_of r.clock info.strategy (text t) ≡ x
    → Keeps r (remember (text_key model t) r x) x
unfolding clear_cache
remember-Keeps r model t info (route_ok a b) sound plain found steady e = record {
  kept = refl;
  answer = refl;
  sound = stored-IsSound r model t a b info sound plain found steady e;
}
remember-Keeps r model t info (route_err x) sound plain found steady e = record {
  kept = refl;
  answer = refl;
  sound = sound;
}
remember-Keeps r model t info RouteResult.route_panics sound plain found steady e = record {
  kept = refl;
  answer = refl;
  sound = sound;
}

keyed-Keeps :
    (r : Router) (model t : Text) (info : ModelInfo)
    → IsSound r
    → IsPlain model
    → get_model_info model r ≡ some info
    → IsSteady info.strategy
    → Keeps r
        (keyed info.strategy (text t) r (get_cache_key model (text t)))
        (shard_of r.clock info.strategy (text t))
unfolding get_cache_key
keyed-Keeps r model t info sound plain found steady =
    elim (Option-cases (lookup (text_key model t) r.route_cache)) [
      | inl e ↦ rw e (remember-Keeps r model t info _ sound plain found steady refl)
      | inr (names, e) ↦
          let (info', found', answers) = sound r.clock model t names plain e in
          let same : info' ≡ info = of_some (sym found' ∙ found) in
          rw e (record {
            kept = refl;
            sound = sound;
            answer = sym (
                subst (λ i. shard_of r.clock i.strategy (text t) ≡ route_ok names.0 names.1) same
                  answers);
          })
    ]

keyed-fresh :
    (s : Strategy) (model t : Text) (r : Router)
    → (keyed s (text t) (clear_cache r) (get_cache_key model (text t))).1
      ≡ shard_of r.clock s (text t)
unfolding get_cache_key clear_cache lookup
keyed-fresh s model t r = remember-result _ _ (shard_of r.clock s (text t))

stays-Keeps : (r : Router) (x : RouteResult) → IsSound r → Keeps r (r, x) x
stays-Keeps r x sound = record { kept = refl; sound = sound; answer = refl }

calculate_route-Keeps :
    (now : ℕ) (model : Text) (values : Map Key) (r : Router)
    → IsSound r
    → IsTextual r (now, model, values)
    → Keeps r (calculate_route model values r) (calculate_route model values (clear_cache r)).1
unfolding calculate_route clear_cache get_model_info lookup
calculate_route-Keeps now model [] r sound textual = stays-Keeps r _ sound
calculate_route-Keeps now model (v ∷ vs) r sound (plain, textual, steady) =
    elim (Option-cases (get_model_info (resolve_alias model r) r)) [
      | inl e ↦ rw e (stays-Keeps r _ sound)
      | inr (info, e) ↦ rw e (elim (Bool-cases (is_nil_strategy info.strategy)) [
        | inl q ↦ rw q (stays-Keeps r _ sound)
        | inr q ↦ rw q (elim (Option-cases (lookup info.shard_key (v ∷ vs))) [
          | inl missing ↦ rw missing (stays-Keeps r _ sound)
          | inr (key, there) ↦
              let (t, is_text) = textual info key e there in
              rw there (
                rw is_text (
                  subst
                    (λ x.
                      Keeps r
                        (keyed info.strategy (text t) r
                          (get_cache_key (resolve_alias model r) (text t)))
                        x)
                    (sym (keyed-fresh info.strategy (resolve_alias model r) t r))
                    (keyed-Keeps r (resolve_alias model r) t info sound plain e (steady info e))))
        ])
      ])
    ]

-- Some calls of CalculateRoute, one after the other, each at its time.
unfoldable pub calculate_routes : List (ℕ × Text × Map Key) → Router → Router
calculate_routes [] r = r
calculate_routes ((now, model, values) ∷ qs) r =
    calculate_routes qs (calculate_route model values (at_time now r)).0

IsTextual-registry :
    (r r' : Router) (q : ℕ × Text × Map Key)
    → registry r' ≡ registry r
    → IsTextual r q
    → IsTextual r' q
IsTextual-registry r r' (now, model, values) same (plain, textual, steady) =
    let (name, kept) = same_registry model r r' same in
    (
      rw name plain,
      λ info key found there. textual info key (sym kept ∙ found) there,
      λ info found. steady info (sym kept ∙ found),
    )

All-IsTextual :
    (r r' : Router) (qs : List (ℕ × Text × Map Key))
    → registry r' ≡ registry r
    → All (IsTextual r) qs
    → All (IsTextual r') qs
All-IsTextual r r' [] same h = tt
All-IsTextual r r' (q ∷ qs) same (h, hs) =
    (IsTextual-registry r r' q same h, All-IsTextual r r' qs same hs)

at_time-IsSound : (now : ℕ) (r : Router) → IsSound r → IsSound (at_time now r)
unfolding get_model_info
at_time-IsSound now r sound = sound

at_time-registry : (now : ℕ) (r : Router) → registry (at_time now r) ≡ registry r
unfolding clear_cache
at_time-registry now r = refl

timed-Keeps :
    (now : ℕ) (model : Text) (values : Map Key) (r : Router)
    → IsSound r
    → IsTextual r (now, model, values)
    → let at = at_time now r in
      Keeps at (calculate_route model values at) (calculate_route model values (clear_cache at)).1
timed-Keeps now model values r sound h =
    calculate_route-Keeps now model values (at_time now r) (at_time-IsSound now r sound)
      (IsTextual-registry r (at_time now r) (now, model, values) (at_time-registry now r) h)

calculate_routes-Keeps :
    (qs : List (ℕ × Text × Map Key)) (r : Router)
    → IsSound r
    → All (IsTextual r) qs
    → IsSound (calculate_routes qs r) × (registry (calculate_routes qs r) ≡ registry r)
unfolding calculate_routes
calculate_routes-Keeps [] r sound h = (sound, refl)
calculate_routes-Keeps ((now, model, values) ∷ qs) r sound (h, hs) =
    let step = timed-Keeps now model values r sound h in
    let r' = (calculate_route model values (at_time now r)).0 in
    let kept : registry r' ≡ registry r = step.kept ∙ at_time-registry now r in
    let (later, same) = calculate_routes-Keeps qs r' step.sound (All-IsTextual r r' qs kept hs) in
    (later, same ∙ kept)

empty-IsSound : (r : Router) → IsSound (clear_cache r)
unfolding clear_cache lookup
empty-IsSound r now model t names plain hit = cc

cleared_at :
    (now : ℕ) (r r' : Router)
    → registry r' ≡ registry (clear_cache r)
    → clear_cache (at_time now r') ≡ at_time now (clear_cache r)
unfolding clear_cache
cleared_at now r r' same = ap (at_time now) same

-- After any calls on text keys, each at its time, that begin with an empty cache, CalculateRoute
-- answers a text key as it would at the same time with an empty cache, where the names of the
-- models, behind their aliases, have no colon, and the names that their strategies give to the
-- shards do not depend on the time.
pub calculate_route_transparent :
    (r : Router) (qs : List (ℕ × Text × Map Key)) (now : ℕ) (model : Text) (values : Map Key)
    → All (IsTextual (clear_cache r)) qs
    → IsTextual (clear_cache r) (now, model, values)
    → (calculate_route model values (at_time now (calculate_routes qs (clear_cache r)))).1
      ≡ (calculate_route model values (at_time now (clear_cache r))).1
calculate_route_transparent r qs now model values hs h =
    let start = clear_cache r in
    let (sound, same) = calculate_routes-Keeps qs start (empty-IsSound r) hs in
    let r' = calculate_routes qs start in
    let step =
      timed-Keeps now model values r' sound
        (IsTextual-registry start r' (now, model, values) same h) in
    step.answer ∙ ap (λ x. (calculate_route model values x).1) (cleared_at now r r' same)

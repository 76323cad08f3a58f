-- ===== src/Middleware/Tests.antt =====
-- Runs of the middleware chain, and its theorems at concrete paths.
use fyer_webframe.Base.{◌≡◌, ◌↔◌, refl, true, false, List, [], ◌∷◌, ◌++◌, ℕ, arith}
use fyer_webframe.Base.Text.{
  Text, codes, text_dec, contains_byte, has_prefix, has_suffix, split, trim, trim_left,
}
use fyer_webframe.Middleware.{
  MiddlewareWithPath, path_source, classify_middleware_type, path_matches_static_pattern,
  path_matches_wildcard_pattern, path_matches_param_pattern, path_matches_regex_pattern,
  segments_match, segments_of, calculate_path_specificity, continuous_count, continuous_score,
  position_score, kind_score, kind_weight, trim_slash_prefix, collect_matching_middlewares, less,
  less_path, insert_sorted, sort_middlewares,
}
use fyer_webframe.Middleware.Matching.{
  Below, SegmentsMatch, path_matches_static_pattern_iff, path_matches_wildcard_pattern_iff,
  path_matches_param_pattern_iff, param_pattern_star,
}
use fyer_webframe.Middleware.Chain.{
  Context, HandlerFunc, Middleware, wrap, build_chain, Runs, build_chain-Runs,
}

-- What a run opens.
unfoldable pub chain : Unit {0}
unfolding text_dec contains_byte has_prefix has_suffix split trim trim_left classify_middleware_type
    path_matches_static_pattern path_matches_wildcard_pattern path_matches_param_pattern
    path_matches_regex_pattern segments_match calculate_path_specificity continuous_count
    continuous_score position_score kind_score kind_weight trim_slash_prefix
    collect_matching_middlewares less less_path insert_sorted sort_middlewares wrap build_chain
chain = tt

specificity :
    (calculate_path_specificity (codes "/user/123") ≡ 3002008)
    × (calculate_path_specificity (codes "/user/:id") ≡ 1001018)
    × (calculate_path_specificity (codes "/*") ≡ 2)
unfolding chain
specificity = (refl, refl, refl)

-- A middleware that writes its number before and after what is inside it.
abbrev note : ℕ → Middleware (List ℕ)
note n next ctx =
    let inside = next (record ctx { state = n ∷ ctx.state }) in
    record inside { state = n ∷ inside.state }

abbrev registered : ℕ → ℕ → Text → MiddlewareWithPath (Middleware (List ℕ))
registered n order path = record {
  middleware = note n;
  path = path;
  type = classify_middleware_type path;
  order = order;
  source = path_source;
}

abbrev user_middlewares : List (MiddlewareWithPath (Middleware (List ℕ)))
user_middlewares =
    registered 3 1 (codes "/user/*")
    ∷ registered 1 2 (codes "/user/123")
    ∷ registered 2 3 (codes "/user/:id")
    ∷ registered 4 4 (codes "/posts")
    ∷ []

abbrev idle : Context (List ℕ)
idle = record { aborted = true; state = [] }

abbrev last : HandlerFunc (List ℕ)
last ctx = record ctx { state = 9 ∷ ctx.state }

-- The newest entry stands first: static, parameter, wildcard, and back.
run_order :
    (build_chain last (codes "/user/123") user_middlewares idle).state
    ≡ 1 ∷ 2 ∷ 3 ∷ 9 ∷ 3 ∷ 2 ∷ 1 ∷ []
unfolding chain
run_order = refl

build_chain-Runs_example : Runs (λ ctx. ctx) (codes "/user/123") user_middlewares
build_chain-Runs_example = build_chain-Runs (λ ctx. ctx) (codes "/user/123") user_middlewares

path_matches_static_pattern_iff_example :
    (path_matches_static_pattern (codes "/users/7") (codes "/users") ≡ true)
    ↔ Below (codes "/users") (codes "/users/7")
unfolding chain
path_matches_static_pattern_iff_example =
    path_matches_static_pattern_iff (codes "/users/7") (codes "/users") refl refl (ground arith)

path_matches_wildcard_pattern_iff_example :
    (path_matches_wildcard_pattern (codes "/api/v1") (codes "/api/*") ≡ true)
    ↔ Below (codes "/api") (codes "/api/v1")
path_matches_wildcard_pattern_iff_example =
    path_matches_wildcard_pattern_iff (codes "/api/v1") (codes "/api") (ground arith)

path_matches_param_pattern_iff_example :
    (path_matches_param_pattern (codes "/user/7") (codes "/user/:id") ≡ true)
    ↔ SegmentsMatch (segments_of (codes "/user/:id")) (segments_of (codes "/user/7"))
unfolding chain
path_matches_param_pattern_iff_example =
    path_matches_param_pattern_iff (codes "/user/7") (codes "/user/:id") refl

param_pattern_star_example :
    (rs : List Text) × (segments_of (codes "/user/7/*") ≡ rs ++ codes "*" ∷ [])
unfolding chain
param_pattern_star_example =
    param_pattern_star (codes "/user/7/*") (codes "/user/:id/*") (codes "user" ∷ codes ":id" ∷ [])
      refl refl refl refl

-- The middlewares of a group below a parameter do not run for its routes.
group_below_param :
    path_matches_param_pattern (codes "/user/7/profile") (codes "/user/:id/*") ≡ false
unfolding chain
group_below_param = refl

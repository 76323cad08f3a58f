-- ===== src/Middleware.antt =====
-- web/middleware.go: which middlewares a request runs through, and in which order. `M` is the type
-- of a middleware function.
pub mod Matching
pub mod Order
pub mod Chain
pub mod Tests
use fyer_webframe.Base.{
  ℕ, suc, zero, ◌+◌, ◌-◌, ◌*◌, ◌/◌, Bool, true, false, not, ◌&&◌, ◌||◌, List, [], ◌∷◌, ◌++◌, ite,
  ltb, leb, ◌==◌, if◌then◌else◌, length, take,
}
use fyer_webframe.Base.Text.{
  Text, text_dec, codes, contains_byte, has_prefix, has_suffix, split, trim,
}

pub data MiddlewareSource : Type 0 where
  global_source : MiddlewareSource
  path_source : MiddlewareSource

pub data MiddlewareType : Type 0 where
  static_middleware : MiddlewareType
  regex_middleware : MiddlewareType
  param_middleware : MiddlewareType
  wildcard_middleware : MiddlewareType

pub record MiddlewareWithPath (M : Type 0) : Type 0 where
  pub middleware : M
  pub path : Text
  pub type : MiddlewareType
  pub order : ℕ
  pub source : MiddlewareSource

abbrev pub text_is : Text → Text → Bool
text_is s t = ite (text_dec s t) true false

-- classifyMiddlewareType
unfoldable pub classify_middleware_type : Text → MiddlewareType
classify_middleware_type path =
    if not (contains_byte path b':') && not (contains_byte path b'*')
    then static_middleware
    else if contains_byte path b'(' && contains_byte path b')'
    then regex_middleware
    else if contains_byte path b':'
    then param_middleware
    else if contains_byte path b'*'
    then wildcard_middleware
    else static_middleware

-- pathMatchesStaticPattern
unfoldable pub path_matches_static_pattern : Text → Text → Bool
path_matches_static_pattern req_path middleware_path =
    if text_is req_path middleware_path
    then true
    else if text_is middleware_path (codes "/")
    then true
    else if not (contains_byte middleware_path b'*') && not (contains_byte middleware_path b':')
    then has_prefix req_path (middleware_path ++ codes "/") || text_is req_path middleware_path
    else false

-- The segments of a pattern against those of a request: a parameter takes any segment.
unfoldable pub segments_match : List Text → List Text → Bool
segments_match [] [] = true
segments_match (req ∷ reqs) (pat ∷ pats) =
    (has_prefix pat (codes ":") || text_is pat req) && segments_match reqs pats
segments_match [] (_ ∷ _) = false
segments_match (_ ∷ _) [] = false

abbrev pub segments_of : Text → List Text
segments_of path = split b'/' (trim b'/' path)

-- pathMatchesParamPattern; lists of different lengths do not match.
unfoldable pub path_matches_param_pattern : Text → Text → Bool
path_matches_param_pattern req_path pattern_path =
    if not (contains_byte pattern_path b':')
    then false
    else segments_match (segments_of req_path) (segments_of pattern_path)

-- pathMatchesRegexPattern
unfoldable pub path_matches_regex_pattern : Text → Text → Bool
path_matches_regex_pattern req_path pattern_path =
    if not (path_matches_param_pattern req_path pattern_path)
    then false
    else contains_byte pattern_path b'(' && contains_byte pattern_path b')'

-- pathMatchesWildcardPattern
unfoldable pub path_matches_wildcard_pattern : Text → Text → Bool
path_matches_wildcard_pattern req_path wildcard_path =
    let base_path = take (length wildcard_path - 2) wildcard_path in
    if text_is wildcard_path (codes "/*")
    then true
    else if has_suffix wildcard_path (codes "/*")
    then text_is req_path base_path || has_prefix req_path (base_path ++ codes "/")
    else true

abbrev pub matches_type : MiddlewareType → Text → Text → Bool
matches_type static_middleware = path_matches_static_pattern
matches_type regex_middleware = path_matches_regex_pattern
matches_type param_middleware = path_matches_param_pattern
matches_type wildcard_middleware = path_matches_wildcard_pattern

abbrev is_plain : Text → Bool
is_plain segment = not (contains_byte segment b':') && not (contains_byte segment b'*')

-- The number of static segments in front.
unfoldable pub continuous_count : List Text → ℕ
continuous_count [] = 0
continuous_count (seg ∷ segs) = if is_plain seg then suc (continuous_count segs) else 0

-- The first loop's score: a bonus that grows with each static segment in front.
unfoldable pub continuous_score : ℕ → List Text → ℕ
continuous_score count [] = 0
continuous_score count (seg ∷ segs) =
    if is_plain seg then 1000000 * suc count + continuous_score (suc count) segs else 0

-- The second loop: static segments behind the first that is not static.
unfoldable pub position_score : ℕ → ℕ → List Text → ℕ
position_score count i [] = 0
position_score count i (seg ∷ segs) =
    (if is_plain seg && leb count i then 100000 / (i + 1) else 0)
    + position_score count (i + 1) segs

-- The weight of a segment's kind.
unfoldable pub kind_weight : Text → ℕ
kind_weight segment =
    if contains_byte segment b'*'
    then 1
    else if contains_byte segment b'(' && contains_byte segment b')'
    then 100
    else if contains_byte segment b':'
    then 10
    else 1000

unfoldable pub kind_score : List Text → ℕ
kind_score [] = 0
kind_score (seg ∷ segs) = kind_weight seg + kind_score segs

-- strings.TrimPrefix(path, "/")
unfoldable pub trim_slash_prefix : Text → Text
trim_slash_prefix [] = []
trim_slash_prefix (c ∷ s) = if c == b'/' then s else c ∷ s

-- calculatePathSpecificity
unfoldable pub calculate_path_specificity : Text → ℕ
calculate_path_specificity path =
    let trimmed = trim_slash_prefix path in
    let segments = split b'/' trimmed in
    continuous_score 0 segments
    + position_score (continuous_count segments) 0 segments
    + kind_score segments
    + length trimmed

abbrev pub source_rank : MiddlewareSource → ℕ
source_rank global_source = 0
source_rank path_source = 1

abbrev pub type_rank : MiddlewareType → ℕ
type_rank static_middleware = 0
type_rank regex_middleware = 1
type_rank param_middleware = 2
type_rank wildcard_middleware = 3

module _ {M : Type 0} where
  -- collectMatchingMiddlewares
  unfoldable pub collect_matching_middlewares :
      List (MiddlewareWithPath M) → Text → List (MiddlewareWithPath M)
  collect_matching_middlewares [] actual_path = []
  collect_matching_middlewares (mw ∷ mws) actual_path =
      let rest = collect_matching_middlewares mws actual_path in
      if matches_type mw.type actual_path mw.path then mw ∷ rest else rest

  -- Two middlewares of one source, by the comparison's later tests.
  unfoldable pub less_path : MiddlewareWithPath M → MiddlewareWithPath M → Bool
  less_path a b =
      let spec_a = calculate_path_specificity a.path in
      let spec_b = calculate_path_specificity b.path in
      if not (type_rank a.type == type_rank b.type)
      then ltb (type_rank a.type) (type_rank b.type)
      else if not (spec_a == spec_b)
      then ltb spec_b spec_a
      else ltb a.order b.order

  -- The comparison of sortMiddlewares.
  unfoldable pub less : MiddlewareWithPath M → MiddlewareWithPath M → Bool
  less a b =
      if not (source_rank a.source == source_rank b.source)
      then ltb (source_rank a.source) (source_rank b.source)
      else if source_rank a.source == 1
      then less_path a b
      else ltb a.order b.order

  -- sort.SliceStable: every stable sort gives this list, since the comparison is a weak order.
  unfoldable pub insert_sorted :
      MiddlewareWithPath M → List (MiddlewareWithPath M) → List (MiddlewareWithPath M)
  insert_sorted a [] = a ∷ []
  insert_sorted a (b ∷ bs) = if less b a then b ∷ insert_sorted a bs else a ∷ b ∷ bs

  unfoldable pub sort_middlewares : List (MiddlewareWithPath M) → List (MiddlewareWithPath M)
  sort_middlewares [] = []
  sort_middlewares (a ∷ bs) = insert_sorted a (sort_middlewares bs)

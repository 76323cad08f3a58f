-- ===== src/Middleware/Matching.antt =====
-- web/middleware.go: what the path patterns of middlewares match.
use mathlib.Core.List.{reverse, reverse-append, append_assoc}
use fyer_webframe.Base.{
  ◌-◌, ◌≡◌, ◌≢◌, ◌↔◌, ◌⊎◌, inl, inr, refl, sym, ap, ◌∙◌, true, false, ◌||◌, List, [], ◌∷◌, ◌++◌,
  arith, Bool-cases, length, length-append, take,
}
use fyer_webframe.Base.Text.{
  Text, codes, contains_byte, has_prefix, has_suffix, has_prefix_append, has_prefix_inv,
}
use fyer_webframe.Middleware.{
  path_matches_static_pattern, path_matches_wildcard_pattern, path_matches_param_pattern,
  segments_match, segments_of, text_is, matches_type, classify_middleware_type,
}

-- `path` is `base`, or lies below it.
abbrev pub Below : Text → Text → Type 0
Below base path = (path ≡ base) ⊎ ((r : Text) × (path ≡ base ++ (b'/' ∷ r)))

text_is_iff : (s t : Text) → (text_is s t ≡ true) ↔ (s ≡ t)
text_is_iff s t = ground arith

slash_assoc : (base r : Text) → (base ++ codes "/") ++ r ≡ base ++ (b'/' ∷ r)
slash_assoc base r = append_assoc base (codes "/") r

Below-has_prefix :
    (path base : Text)
    → ((text_is path base || has_prefix path (base ++ codes "/")) ≡ true) ↔ Below base path
Below-has_prefix path base = (to_below, from_below)
  where
    to_below : (text_is path base || has_prefix path (base ++ codes "/")) ≡ true → Below base path
    to_below e = elim (Bool-cases (text_is path base)) [
      | inl same ↦ inl ((text_is_iff path base).0 same)
      | inr other ↦
          let (r, q) = has_prefix_inv path (base ++ codes "/") (ground arith) in
          inr (r, q ∙ slash_assoc base r)
    ]

    from_below : Below base path → (text_is path base || has_prefix path (base ++ codes "/")) ≡ true
    from_below (inl same) = ground arith
    from_below (inr (r, q)) =
        let under : has_prefix path (base ++ codes "/") ≡ true =
          rw (q, ← slash_assoc base r) (has_prefix_append (base ++ codes "/") r) in
        ground arith

-- A static pattern other than "/", one without ":" and "*", matches itself and what lies below it,
-- and no path that merely begins with the same letters.
pub path_matches_static_pattern_iff :
    (path pattern : Text)
    → contains_byte pattern b':' ≡ false
    → contains_byte pattern b'*' ≡ false
    → pattern ≢ codes "/"
    → (path_matches_static_pattern path pattern ≡ true) ↔ Below pattern path
unfolding path_matches_static_pattern
path_matches_static_pattern_iff path pattern colon star root =
    ground (arith, Below-has_prefix path pattern)

take-append : (s t : Text) → take (length s) (s ++ t) ≡ s
take-append [] t = refl
take-append (c ∷ s) t = ap (c ∷◌) (take-append s t)

has_suffix_append : (s p : Text) → has_suffix (s ++ p) p ≡ true
unfolding has_suffix
has_suffix_append s p = rw (reverse-append s p) (has_prefix_append (reverse p) (reverse s))

wildcard_base : (base : Text) → take (length (base ++ codes "/*") - 2) (base ++ codes "/*") ≡ base
wildcard_base base =
    let e : length (base ++ codes "/*") - 2 ≡ length base =
      omega (arith, length-append base (codes "/*")) in
    rw e (take-append base (codes "/*"))

not_global : (base : Text) → base ≢ [] → base ++ codes "/*" ≢ codes "/*"
not_global [] ne e = ne refl
not_global (c ∷ base) ne e =
    absurd (omega (arith, ap (λ (t : Text). length t) e, length-append base (codes "/*")))

-- A wildcard pattern, a base that is not empty and "/*", matches its base and what lies below it.
pub path_matches_wildcard_pattern_iff :
    (path base : Text)
    → base ≢ []
    → (path_matches_wildcard_pattern path (base ++ codes "/*") ≡ true) ↔ Below base path
unfolding path_matches_wildcard_pattern
path_matches_wildcard_pattern_iff path base ne = rw (wildcard_base base) (
    ground
      (arith, Below-has_prefix path base, has_suffix_append base (codes "/*"), not_global base ne))

-- The segments of a pattern against those of a path: a parameter takes one segment, any other
-- segment takes itself.
pub data SegmentsMatch : List Text → List Text → Type 0 where
  done : SegmentsMatch [] []
  param :
      {name req : Text} {pats reqs : List Text}
      → SegmentsMatch pats reqs
      → SegmentsMatch ((b':' ∷ name) ∷ pats) (req ∷ reqs)
  literal :
      {pat req : Text} {pats reqs : List Text}
      → pat ≡ req
      → SegmentsMatch pats reqs
      → SegmentsMatch (pat ∷ pats) (req ∷ reqs)

segment_sound :
    (pat req : Text) (pats reqs : List Text)
    → (has_prefix pat (codes ":") || text_is pat req) ≡ true
    → SegmentsMatch pats reqs
    → SegmentsMatch (pat ∷ pats) (req ∷ reqs)
segment_sound pat req pats reqs e m = elim (Bool-cases (text_is pat req)) [
  | inl same ↦ literal ((text_is_iff pat req).0 same) m
  | inr other ↦ let (name, q) = has_prefix_inv pat (codes ":") (ground arith) in rw q (param m)
]

segments_match_sound :
    (reqs pats : List Text) → segments_match reqs pats ≡ true → SegmentsMatch pats reqs
unfolding segments_match
segments_match_sound [] [] e = done
segments_match_sound [] (pat ∷ pats) e = cc
segments_match_sound (req ∷ reqs) [] e = cc
segments_match_sound (req ∷ reqs) (pat ∷ pats) e =
    segment_sound pat req pats reqs (ground arith) (segments_match_sound reqs pats (ground arith))

segments_match_complete :
    {reqs pats : List Text} → SegmentsMatch pats reqs → segments_match reqs pats ≡ true
unfolding segments_match has_prefix
segments_match_complete done = refl
segments_match_complete (param m) = segments_match_complete m
segments_match_complete (literal {pat} {req} {pats} {reqs} e m) =
    ground (arith, (text_is_iff pat req).1 e, segments_match_complete m)

-- A parameter pattern matches the paths with as many segments, where each segment of the pattern
-- begins with ":" or is the segment of the path; a parameter pattern contains ":".
pub path_matches_param_pattern_iff :
    (path pattern : Text)
    → contains_byte pattern b':' ≡ true
    → (path_matches_param_pattern path pattern ≡ true)
      ↔ SegmentsMatch (segments_of pattern) (segments_of path)
unfolding path_matches_param_pattern
path_matches_param_pattern_iff path pattern colon =
    rw colon
      (segments_match_sound (segments_of path) (segments_of pattern), segments_match_complete)

segments_match_star :
    (reqs pats : List Text)
    → segments_match reqs (pats ++ codes "*" ∷ []) ≡ true
    → (rs : List Text) × (reqs ≡ rs ++ codes "*" ∷ [])
unfolding segments_match has_prefix
segments_match_star [] [] e = cc
segments_match_star (req ∷ []) [] e =
    ([], ap (λ (t : Text). t ∷ []) (sym ((text_is_iff (codes "*") req).0 (ground arith))))
segments_match_star (req ∷ r ∷ reqs) [] e = absurd (ground arith)
segments_match_star [] (pat ∷ pats) e = cc
segments_match_star (req ∷ reqs) (pat ∷ pats) e =
    let (rs, q) = segments_match_star reqs pats (ground arith) in (req ∷ rs, ap (req ∷◌) q)

-- A pattern with a parameter and a last segment "*" and no "(" matches only paths whose last
-- segment is the text "*".
pub param_pattern_star :
    (path pattern : Text) (pats : List Text)
    → contains_byte pattern b':' ≡ true
    → contains_byte pattern b'(' ≡ false
    → segments_of pattern ≡ pats ++ codes "*" ∷ []
    → matches_type (classify_middleware_type pattern) path pattern ≡ true
    → (rs : List Text) × (segments_of path ≡ rs ++ codes "*" ∷ [])
unfolding classify_middleware_type path_matches_param_pattern
param_pattern_star path pattern pats colon paren cut e =
    segments_match_star (segments_of path) pats (
      rw (← cut)
        (let h : path_matches_param_pattern path pattern ≡ true = ground arith in ground arith))

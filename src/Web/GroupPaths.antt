-- ===== src/Web/GroupPaths.antt =====
-- web/group.go, normalizePath: the paths that a group cannot register.
use fyer_webframe.Base.{
  ℕ, ◌≡◌, refl, sym, ap, ◌∙◌, Bool, true, false, ◌&&◌, not, [], ◌∷◌, ◌++◌, Option, none, some,
  arith, if◌then◌else◌, length, ltb, of_some, none≢some, ◌==◌, Option-cases, inl, inr,
}
use mathlib.Core.Path.{subst}
use mathlib.Core.List.{reverse, reverse-append}
use fyer_webframe.Base.Text.{Text, codes, has_prefix, has_suffix}
use fyer_webframe.Middleware.Chain.{HandlerFunc}
use fyer_webframe.Routing.Node.{Engine}
use fyer_webframe.Web.Router.{
  Router, Refusal, trailing_slash, refusal, refused_or, add_handler, handled_by,
}
use fyer_webframe.Routing.Radix.{add}
use fyer_webframe.Web.Groups.{
  normalize_path, normalize_from, with_slash, with_trailing_slash, added_at, add_grouped,
}

has_prefix-append_right : (a b p : Text) → has_prefix a p ≡ true → has_prefix (a ++ b) p ≡ true
unfolding has_prefix
has_prefix-append_right a b [] e = refl
has_prefix-append_right [] b (c ∷ p) e = cc
has_prefix-append_right (d ∷ a) b (c ∷ p) e = ground (arith, has_prefix-append_right a b p)

has_suffix-cons : (c : ℕ) (s p : Text) → has_suffix s p ≡ true → has_suffix (c ∷ s) p ≡ true
unfolding has_suffix
has_suffix-cons c s p e =
    rw (reverse-append (c ∷ []) s) (has_prefix-append_right (reverse s) (c ∷ []) (reverse p) e)

has_suffix_slash : (s : Text) → has_suffix (s ++ codes "/") (codes "/") ≡ true
unfolding has_suffix has_prefix
has_suffix_slash s = rw (reverse-append s (codes "/")) refl

if-holds :
    (P : Text → Type 0) (b : Bool) (x y : Text)
    → (b ≡ true → P x)
    → (b ≡ false → P y)
    → P (if b then x else y)
if-holds P true x y f g = f refl
if-holds P false x y f g = g refl

refusal-trailing :
    (p : Text)
    → has_prefix p (codes "/") ≡ true
    → ltb 1 (length p) ≡ true
    → has_suffix p (codes "/") ≡ true
    → refusal p ≡ some trailing_slash
unfolding refusal
refusal-trailing [] slash long last = absurd (ground arith)
refusal-trailing (c ∷ s) slash long last = ground arith

with_slash-slash :
    (s t : Text)
    → with_slash s ≡ some t
    → (has_prefix t (codes "/") ≡ true)
      × (has_suffix s (codes "/") ≡ true → has_suffix t (codes "/") ≡ true)
unfolding has_prefix
with_slash-slash [] t e = absurd (none≢some e)
with_slash-slash (c ∷ s) t e =
    subst
      (λ x.
        (has_prefix x (codes "/") ≡ true)
        × (has_suffix (c ∷ s) (codes "/") ≡ true → has_suffix x (codes "/") ≡ true))
      (of_some e)
      (if-holds
        (λ x.
          (has_prefix x (codes "/") ≡ true)
          × (has_suffix (c ∷ s) (codes "/") ≡ true → has_suffix x (codes "/") ≡ true))
        (c == b'/') (c ∷ s) (b'/' ∷ c ∷ s) (λ q. (ground arith, λ z. z))
        (λ q. (refl, has_suffix-cons b'/' (c ∷ s) (codes "/"))))

with_trailing_slash-slash :
    (relative : Text) (o : Option Text) (p : Text)
    → ltb 1 (length relative) ≡ true
    → has_suffix relative (codes "/") ≡ true
    → with_trailing_slash relative o ≡ some p
    → ((t : Text) → o ≡ some t → has_prefix t (codes "/") ≡ true)
    → (has_prefix p (codes "/") ≡ true) × (has_suffix p (codes "/") ≡ true)
with_trailing_slash-slash relative none p long last e first = absurd (none≢some e)
with_trailing_slash-slash relative (some t) p long last e first =
    subst (λ x. (has_prefix x (codes "/") ≡ true) × (has_suffix x (codes "/") ≡ true)) (of_some e)
      (if-holds (λ x. (has_prefix x (codes "/") ≡ true) × (has_suffix x (codes "/") ≡ true))
        (ltb 1 (length relative)
          && has_suffix relative (codes "/")
          && not (has_suffix t (codes "/")))
        (t ++ codes "/") t
        (λ q.
          (has_prefix-append_right t (codes "/") (codes "/") (first t refl), has_suffix_slash t))
        (λ q. (first t refl, ground arith)))

with_slash-length :
    (c : ℕ) (s t : Text)
    → with_slash (c ∷ s) ≡ some t
    → ltb 1 (length (c ∷ s)) ≡ true
    → ltb 1 (length t) ≡ true
with_slash-length c s t e long =
    subst (λ x. ltb 1 (length x) ≡ true) (of_some e)
      (if-holds (λ x. ltb 1 (length x) ≡ true) (c == b'/') (c ∷ s) (b'/' ∷ c ∷ s) (λ q. long)
        (λ q. ground arith))

normalize_path-slash :
    (join_paths : Text → Text → Text) (base : Text) (c : ℕ) (s p : Text)
    → ltb 1 (length (c ∷ s)) ≡ true
    → has_suffix (c ∷ s) (codes "/") ≡ true
    → normalize_path join_paths base (c ∷ s) ≡ some p
    → (has_prefix p (codes "/") ≡ true) × (has_suffix p (codes "/") ≡ true)
unfolding normalize_path
normalize_path-slash join_paths base c s p long last e = elim (Option-cases (with_slash (c ∷ s))) [
  | inl q ↦ absurd (none≢some (ap (normalize_from join_paths base) (sym q) ∙ e))
  | inr (t, q) ↦
      with_trailing_slash-slash t (with_slash (join_paths base t)) p
        (with_slash-length c s t q long) ((with_slash-slash (c ∷ s) t q).1 last)
        (ap (normalize_from join_paths base) (sym q) ∙ e)
        (λ u f. (with_slash-slash (join_paths base t) u f).0)
]

add_handler-refused :
    {S : Type 0} (engine : Engine) (method path : Text) (h : HandlerFunc S) (r : Router S)
    (e : Refusal)
    → refusal path ≡ some e
    → add_handler engine method path h r ≡ (r, some e)
unfolding add_handler
add_handler-refused engine method path h r e q =
    ap
      (λ x.
        refused_or x r
          (handled_by method path h r (add engine method path (some h) r.radix_router)))
      q

-- A group refuses every path of more than one byte that ends in "/": its functions panic, since
-- the slash is kept, and nothing is registered. The path that normalizePath makes has more than
-- one byte.
pub add_grouped-trailing_slash :
    {S : Type 0} (engine : Engine) (join_paths : Text → Text → Text) (base method : Text) (c : ℕ)
    (s p : Text) (h : HandlerFunc S) (r : Router S)
    → ltb 1 (length (c ∷ s)) ≡ true
    → has_suffix (c ∷ s) (codes "/") ≡ true
    → normalize_path join_paths base (c ∷ s) ≡ some p
    → ltb 1 (length p) ≡ true
    → add_grouped engine join_paths base method (c ∷ s) h r ≡ (r, some trailing_slash)
unfolding add_grouped
add_grouped-trailing_slash engine join_paths base method c s p h r long last e wide =
    let (slash, final) = normalize_path-slash join_paths base c s p long last e in
    ap (added_at engine method h r) e
    ∙ add_handler-refused engine method p h r trailing_slash (refusal-trailing p slash wide final)

-- ===== src/Web/Legacy.antt =====
-- web/router.go, the type node and the part of addHandler behind the call of Handle: the tree that
-- the router keeps beside the routing tree. A node is a value, the pointer to its parent is left
-- out, and `current` is the place of the recursion; nobody reads the fields that stay as they are
-- made.
use fyer_webframe.Base.{
  ◌≡◌, refl, ◌∙◌, Bool, true, false, ◌==◌, List, [], ◌∷◌, Option, none, some, if◌then◌else◌, ite,
  arith, of_some, Option-cases, Bool-cases, inl, inr, none≢some, sym, ap,
}
use mathlib.Core.Path.{subst}
use fyer_webframe.Base.Text.{Text, text_dec, codes, contains_byte, split, trim}

mutual
  pub data Node (H : Type 0) : Type 0 where
    node : Text → Option H → Bool → Bool → Bool → Children H → Node H

  pub data Children (H : Type 0) : Type 0 where
    no_child : Children H
    child : Text → Node H → Children H → Children H

module _ {H : Type 0} where
  abbrev pub handler : Node H → Option H
  handler (node path h is_param is_regex has_param_child cs) = h

  abbrev pub children : Node H → Children H
  children (node path h is_param is_regex has_param_child cs) = cs

  abbrev pub set_handler : H → Node H → Node H
  set_handler h (node path g is_param is_regex has_param_child cs) =
      node path (some h) is_param is_regex has_param_child cs

  unfoldable pub child_at : Text → Children H → Option (Node H)
  child_at k no_child = none
  child_at k (child j c cs) = ite (text_dec j k) (some c) (child_at k cs)

  unfoldable pub put_child : Text → Node H → Children H → Children H
  put_child k c no_child = child k c no_child
  put_child k c (child j d cs) = ite (text_dec j k) (child k c cs) (child j d (put_child k c cs))

-- How a segment enters the tree: the key of its child, and whether it is a parameter.
pub data Segment : Type 0 where
  star : Segment
  param : Text → Segment
  plain : Text → Segment
  empty_segment : Segment

unfoldable pub classify : Text → Segment
classify [] = empty_segment
classify (c ∷ s) =
    ite (text_dec (c ∷ s) (codes "*")) star (if c == b':' then param s else plain (c ∷ s))

-- The key that a segment goes by.
abbrev pub key_of : Segment → Text
key_of empty_segment = []
key_of star = codes "*"
key_of (param name) = name
key_of (plain name) = name

abbrev pub is_star : Segment → Bool
is_star star = true
is_star s = false

module _ {H : Type 0} where
  abbrev pub made : Text → Bool → Bool → Node H
  made path is_param is_regex = node path none is_param is_regex false no_child

  abbrev pub child_or : Node H → Option (Node H) → Node H
  child_or new none = new
  child_or new (some c) = c

  abbrev pub marked_param : Node H → Node H
  marked_param (node path h is_param is_regex has_param_child cs) =
      node path h is_param is_regex true cs

  abbrev pub put_under : Text → Node H → Node H → Node H
  put_under key c (node path h is_param is_regex has_param_child cs) =
      node path h is_param is_regex has_param_child (put_child key c cs)

  abbrev pub entered : Text → Node H → Option (Node H) → Option (Node H)
  entered key n none = none
  entered key n (some c) = some (put_under key c n)

  -- The child under `key` is changed by `change`, and made as `new` where there is none.
  abbrev pub enter : Text → Node H → (Node H → Option (Node H)) → Node H → Option (Node H)
  enter key new change n = entered key n (change (child_or new (child_at key (children n))))

  abbrev pub on_last : List Text → H → Node H → Node H
  on_last [] h n = set_handler h n
  on_last (seg ∷ rest) h n = n

  -- One round of the loop; none is the panic of an index into an empty segment, and `walk` does the
  -- other rounds.
  abbrev pub by_segment : H → Segment → (Node H → Option (Node H)) → Node H → Option (Node H)
  by_segment h empty_segment walk n = none
  by_segment h star walk n =
      enter (codes "*") (made (codes "*") false false) (λ c. some (set_handler h c)) n
  by_segment h (param name) walk n =
      enter name (made name true (contains_byte name b'(')) walk (marked_param n)
  by_segment h (plain name) walk n = enter name (made name false false) walk n

  -- The loop over the segments.
  unfoldable pub add_segments : H → List Text → Node H → Option (Node H)
  add_segments h [] n = some n
  add_segments h (seg ∷ rest) n =
      by_segment h (classify seg) (λ c. add_segments h rest (on_last rest h c)) n

  -- The handlers' part of addHandler on the tree of a method, which is made where there is none.
  abbrev pub root_or : Option (Node H) → Node H
  root_or none = made (codes "/") false false
  root_or (some n) = n

  unfoldable pub add_route : Text → H → Option (Node H) → Option (Node H)
  add_route path h root =
      ite (text_dec path (codes "/")) (some (set_handler h (root_or root)))
        (add_segments h (split b'/' (trim b'/' path)) (root_or root))

  abbrev pub walk_child : (Node H → Option H) → Option (Node H) → Option H
  walk_child walk none = none
  walk_child walk (some c) = walk c

  unfoldable pub handler_at : List Text → Node H → Option H
  handler_at [] n = handler n
  handler_at (seg ∷ rest) n =
      walk_child (if is_star (classify seg) then handler else handler_at rest)
        (child_at (key_of (classify seg)) (children n))

  child_at-put_child :
      (key : Text) (c : Node H) (cs : Children H) → child_at key (put_child key c cs) ≡ some c
  unfolding child_at put_child
  child_at-put_child key c no_child = ground arith
  child_at-put_child key c (child j d cs) = ground (arith, child_at-put_child key c cs)

  child_at-put_under :
      (key : Text) (c n : Node H) → child_at key (children (put_under key c n)) ≡ some c
  child_at-put_under key c (node path h p r q cs) = child_at-put_child key c cs

  enter-child_at :
      (key : Text) (new : Node H) (change : Node H → Option (Node H)) (n m : Node H)
      → enter key new change n ≡ some m
      → (b : Node H) × (c : Node H) × (change b ≡ some c) × (child_at key (children m) ≡ some c)
  enter-child_at key new change n m e =
      let b = child_or new (child_at key (children n)) in
      elim (Option-cases (change b)) [
        | inl q ↦ absurd (none≢some (ap (entered key n) (sym q) ∙ e))
        | inr (c, q) ↦ (
          b,
          c,
          q,
          subst (λ o. child_at key (children o) ≡ some c) (of_some (ap (entered key n) (sym q) ∙ e))
              (child_at-put_under key c n),
        )
      ]

  handler-set_handler : (h : H) (n : Node H) → handler (set_handler h n) ≡ some h
  handler-set_handler h (node path g p r q cs) = refl

  handler_at_cons :
      (seg : Text) (rest : List Text) (m c : Node H) (t : Option H)
      → child_at (key_of (classify seg)) (children m) ≡ some c
      → (if is_star (classify seg) then handler c else handler_at rest c) ≡ t
      → handler_at (seg ∷ rest) m ≡ t
  unfolding handler_at
  handler_at_cons seg rest m c t e f = elim (Bool-cases (is_star (classify seg))) [
    | inl q ↦ rw (e, q) (rw q at f)
    | inr q ↦ rw (e, q) (rw q at f)
  ]

  by_segment-handler_at :
      (h : H) (seg : Text) (rest : List Text) (s : Segment) (n m : Node H)
      (walk : Node H → Option (Node H))
      → classify seg ≡ s
      → ((b c : Node H) → walk b ≡ some c → handler_at rest c ≡ some h)
      → by_segment h s walk n ≡ some m
      → handler_at (seg ∷ rest) m ≡ some h
  by_segment-handler_at h seg rest empty_segment n m walk q found e = absurd (none≢some e)
  by_segment-handler_at h seg rest star n m walk q found e =
      let (b, c, f, g) =
        enter-child_at (codes "*") (made (codes "*") false false) (λ c. some (set_handler h c)) n m
          e in
      handler_at_cons seg rest m c (some h) (rw q g)
        (rw q (subst (λ o. handler o ≡ some h) (of_some f) (handler-set_handler h b)))
  by_segment-handler_at h seg rest (param name) n m walk q found e =
      let (b, c, f, g) =
        enter-child_at name (made name true (contains_byte name 40)) walk (marked_param n) m e in
      handler_at_cons seg rest m c (some h) (rw q g) (rw q (found b c f))
  by_segment-handler_at h seg rest (plain name) n m walk q found e =
      let (b, c, f, g) = enter-child_at name _ walk n m e in
      handler_at_cons seg rest m c (some h) (rw q g) (rw q (found b c f))

  -- Behind a round of the loop that does not panic, the walk finds what it put there.
  pub handler_at-add_segments :
      (h : H) (segs : List Text) (n m : Node H)
      → add_segments h segs (on_last segs h n) ≡ some m
      → handler_at segs m ≡ some h
  unfolding add_segments handler_at
  handler_at-add_segments h [] n m e =
      subst (λ o. handler o ≡ some h) (of_some e) (handler-set_handler h n)
  handler_at-add_segments h (seg ∷ rest) n m e =
      by_segment-handler_at h seg rest (classify seg) n m _ refl
        (λ b c f. handler_at-add_segments h rest b c f) e

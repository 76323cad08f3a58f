-- ===== src/Routing/Insert.antt =====
-- web/router/node.go, Insert: a path with its handler goes into the tree segment by segment. A
-- panic keeps the tree as it stands at that moment, since the nodes above are made already.
use fyer_webframe.Base.{
  ℕ, suc, ◌+◌, Bool, true, false, not, ◌&&◌, ◌||◌, List, [], ◌∷◌, ◌++◌, Option, none, some, ite,
  ltb, ◌==◌, if◌then◌else◌, take, drop,
}
use fyer_webframe.Base.Text.{Text, text_dec, codes, index_byte, last_index_byte, split, trim}
use fyer_webframe.Routing.Node.{
  Engine, Node, node, Children, no_child, child, Siblings, no_sibling, sibling, Link, null, to,
  info, handler, children, param_children, regex_children, wildcard_child, set_handler, plain_info,
  leaf, child_lookup, child_put,
}

pub data Panic : Type 0 where
  duplicate_route : Panic
  many_wildcards : Panic
  wildcard_not_last : Panic
  missing_parenthesis : Panic
  misplaced_parentheses : Panic
  conflicting_regex : Panic
  invalid_regex : Panic
  conflicting_params : Panic
  duplicate_router : Panic

-- What a segment of a path asks for.
pub data Kind : Type 0 where
  wildcard_segment : Kind
  static_segment : Kind
  param_segment : Text → Kind
  regex_segment : Text → Text → Kind
  bad_segment : Panic → Kind

abbrev pub param_kind : Text → Option ℕ → Option ℕ → Kind
param_kind name none _ = param_segment name
param_kind name (some start) none = bad_segment missing_parenthesis
param_kind name (some start) (some end) =
    if ltb start end
    then regex_segment (take start name) (drop (suc start) (take end name))
    else bad_segment misplaced_parentheses

unfoldable pub segment_kind : Text → Kind
segment_kind [] = static_segment
segment_kind (c ∷ s) = ite (text_dec (c ∷ s) (codes "*")) wildcard_segment (
    if c == b':' then param_kind s (index_byte s b'(') (last_index_byte s b')') else static_segment)

-- The child that the walk enters, and where it hangs.
pub data Slot : Type 0 where
  at_wildcard : Slot
  at_static : Text → Slot
  at_param : Text → Slot
  at_regex : Text → Text → Slot

pub data Step (H : Type 0) : Type 0 where
  panics : Panic → Step H
  enters : Slot → Node H → Step H

abbrev pub anchored : Text → Text
anchored s = b'^' ∷ (s ++ (b'$' ∷ []))

abbrev pub is_last : List Text → Bool
is_last [] = true
is_last (_ ∷ _) = false

module _ {H : Type 0} where
  abbrev pub is_set : Option H → Bool
  is_set none = false
  is_set (some h) = true

  abbrev pub no_children : Children H → Bool
  no_children no_child = true
  no_children (child _ _ _) = false

  abbrev pub param_node : Text → Text → Node H
  param_node path name = leaf (record {
    path = path;
    handler = none;
    is_param = true;
    param_name = name;
    is_regex = false;
    pattern = [];
  })

  abbrev pub regex_node : Text → Text → Text → Node H
  regex_node path name pat = leaf (record {
    path = path;
    handler = none;
    is_param = true;
    param_name = name;
    is_regex = true;
    pattern = pat;
  })

  -- An existing child: at the last segment its handler must still be free.
  abbrev pub reuse : Bool → Slot → Node H → Step H
  reuse last slot c = if last && is_set (handler c) then panics duplicate_router else enters slot c

  abbrev pub enter_wildcard : Bool → Link H → Step H
  enter_wildcard last null = enters at_wildcard (leaf (plain_info (codes "*")))
  enter_wildcard last (to c) = reuse last at_wildcard c

  abbrev pub enter_static : Bool → Text → Option (Node H) → Step H
  enter_static last seg none = enters (at_static seg) (leaf (plain_info seg))
  enter_static last seg (some c) = reuse last (at_static seg) c

  -- Another parameter name at this place already ends a route.
  unfoldable pub other_param_ends : Text → Children H → Bool
  other_param_ends name no_child = false
  other_param_ends name (child k c cs) =
      ite (text_dec k name) false (is_set (handler c)) || other_param_ends name cs

  abbrev pub enter_param : Bool → Text → Text → Option (Node H) → Step H
  enter_param last seg name none = enters (at_param name) (param_node seg name)
  enter_param last seg name (some c) =
      if last && is_set (handler c) && no_children (children c)
      then panics duplicate_router
      else enters (at_param name) c

  unfoldable pub regex_conflict : Text → Text → Siblings H → Bool
  regex_conflict name pat no_sibling = false
  regex_conflict name pat (sibling c cs) =
      ite (text_dec (info c).param_name name) (ite (text_dec (info c).pattern pat) false true) false
      || regex_conflict name pat cs

  abbrev pub same_regex : Text → Text → Node H → Bool
  same_regex name pat c =
      ite (text_dec (info c).param_name name) (ite (text_dec (info c).pattern pat) true false) false

  unfoldable pub regex_lookup : Text → Text → Siblings H → Option (Node H)
  regex_lookup name pat no_sibling = none
  regex_lookup name pat (sibling c cs) =
      if same_regex name pat c then some c else regex_lookup name pat cs

  unfoldable pub regex_put : Text → Text → Node H → Siblings H → Siblings H
  regex_put name pat n no_sibling = sibling n no_sibling
  regex_put name pat n (sibling c cs) =
      if same_regex name pat c then sibling n cs else sibling c (regex_put name pat n cs)

  abbrev pub enter_regex : Bool → Text → Text → Text → Option (Node H) → Step H
  enter_regex last seg name pat none = enters (at_regex name pat) (regex_node seg name pat)
  enter_regex last seg name pat (some c) = reuse last (at_regex name pat) c

  -- One round of the loop, up to the choice of the child.
  unfoldable pub enter : Engine → Bool → Text → Kind → Node H → Step H
  enter engine last seg wildcard_segment n = enter_wildcard last (wildcard_child n)
  enter engine last seg (param_segment name) n =
      if last && other_param_ends name (param_children n)
      then panics conflicting_params
      else enter_param last seg name (child_lookup name (param_children n))
  enter engine last seg (regex_segment name str) n =
      if regex_conflict name (anchored str) (regex_children n)
      then panics conflicting_regex
      else if not (engine.compiles (anchored str))
      then panics invalid_regex
      else enter_regex last seg name (anchored str)
          (regex_lookup name (anchored str) (regex_children n))
  enter engine last seg (bad_segment p) n = panics p
  enter engine last seg static_segment n = enter_static last seg (child_lookup seg (children n))

  -- The child, after the walk below it, back in its place.
  unfoldable pub put_slot : Slot → Node H → Node H → Node H
  put_slot at_wildcard c (node i cs ps rs w) = node i cs ps rs (to c)
  put_slot (at_static k) c (node i cs ps rs w) = node i (child_put k c cs) ps rs w
  put_slot (at_param k) c (node i cs ps rs w) = node i cs (child_put k c ps) rs w
  put_slot (at_regex k p) c (node i cs ps rs w) = node i cs ps (regex_put k p c rs) w

  abbrev pub after_enter :
      Step H → (Node H → Node H × Option Panic) → Node H → Node H × Option Panic
  after_enter (panics p) below n = (n, some p)
  after_enter (enters slot c) below n = let r = below c in (put_slot slot r.0 n, r.1)

  -- The last segment's node takes the handler.
  abbrev pub finish : List Text → Option H → Node H → Node H
  finish [] h c = set_handler h c
  finish (_ ∷ _) h c = c

  -- The loop over the segments; the node is `current`.
  unfoldable pub insert_segments : Engine → Option H → List Text → Node H → Node H × Option Panic
  insert_segments engine h [] n = (n, none)
  insert_segments engine h (seg ∷ rest) n =
      let skip = insert_segments engine h rest n in
      let go =
        after_enter (enter engine (is_last rest) seg (segment_kind seg) n)
          (λ c. insert_segments engine h rest (finish rest h c)) n in
      ite (text_dec seg []) skip go

-- The number of wildcard segments.
unfoldable pub wildcard_count : List Text → ℕ
wildcard_count [] = 0
wildcard_count (seg ∷ rest) = ite (text_dec seg (codes "*")) 1 0 + wildcard_count rest

-- A wildcard segment stands before the last segment.
unfoldable pub wildcard_inside : List Text → Bool
wildcard_inside [] = false
wildcard_inside (seg ∷ rest) =
    ite (text_dec seg (codes "*")) (not (is_last rest)) false || wildcard_inside rest

abbrev pub path_segments : Text → List Text
path_segments path = split b'/' (trim b'/' path)

module _ {H : Type 0} where
  abbrev pub insert_root : Option H → Node H → Node H × Option Panic
  insert_root h n =
      if is_set (handler n) then (n, some duplicate_route) else (set_handler h n, none)

  unfoldable pub insert : Engine → Text → Option H → Node H → Node H × Option Panic
  insert engine path h n =
      let segments = path_segments path in
      ite (text_dec path (codes "/")) (insert_root h n) (
        if ltb 1 (wildcard_count segments)
        then (n, some many_wildcards)
        else if wildcard_inside segments
        then (n, some wildcard_not_last)
        else insert_segments engine h segments n)

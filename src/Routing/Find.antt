-- ===== src/Routing/Find.antt =====
-- web/router/node.go, Find: the walk down the tree that a request makes. A choice is final: the
-- walk never comes back to a node that it has left. `order` is the order in which `range` visits a
-- map of parameter children.
use fyer_webframe.Base.{
  Bool, true, false, not, ◌||◌, List, [], ◌∷◌, Option, none, some, ite, if◌then◌else◌,
}
use fyer_webframe.Base.Text.{Text, text_dec, codes, join}
use fyer_webframe.Base.Map.{Map, insert}
use fyer_webframe.Routing.Node.{
  Engine, Node, Siblings, no_sibling, sibling, Link, null, to, info, handler, children,
  param_children, regex_children, wildcard_child, child_lookup, entries,
}
use fyer_webframe.Routing.Insert.{path_segments, is_set, no_children}

-- Where a segment leads.
pub data Choice (H : Type 0) : Type 0 where
  into : Node H → Choice H
  binding : Text → Node H → Choice H
  rest_of_path : Node H → Choice H
  no_match : Choice H

module _ {H : Type 0} where
  unfoldable pub first_regex : Engine → Text → Siblings H → Option (Node H)
  first_regex engine seg no_sibling = none
  first_regex engine seg (sibling c cs) =
      if engine.match_string (info c).pattern seg then some c else first_regex engine seg cs

  abbrev pub is_null : Link H → Bool
  is_null null = true
  is_null (to _) = false

  -- The look at the next segment before a parameter node is taken.
  unfoldable pub can_match_later : Engine → List Text → Node H → Bool
  can_match_later engine [] c = true
  can_match_later engine (next ∷ _) c =
      is_set (child_lookup next (children c))
      || is_set (first_regex engine next (regex_children c))
      || not (no_children (param_children c))
      || not (is_null (wildcard_child c))

  unfoldable pub first_param : Engine → List Text → Map (Node H) → Option (Text × Node H)
  first_param engine rest [] = none
  first_param engine rest ((k, c) ∷ cs) =
      if can_match_later engine rest c then some (k, c) else first_param engine rest cs

  abbrev pub choose_wildcard : Link H → Choice H
  choose_wildcard null = no_match
  choose_wildcard (to c) = rest_of_path c

  abbrev pub choose_param : Option (Text × Node H) → Choice H → Choice H
  choose_param none other = other
  choose_param (some (k, c)) other = binding k c

  abbrev pub choose_regex : Option (Node H) → Choice H → Choice H
  choose_regex none other = other
  choose_regex (some c) other = binding (info c).param_name c

  abbrev pub choose_static : Option (Node H) → Choice H → Choice H
  choose_static none other = other
  choose_static (some c) other = into c

  -- After the last segment.
  abbrev pub find_end_wildcard : Link H → Map Text → Option H × Map Text
  find_end_wildcard null params = (none, params)
  find_end_wildcard (to c) params = (handler c, insert (codes "*") [] params)

  abbrev pub find_end_handler : Option H → Link H → Map Text → Option H × Map Text
  find_end_handler (some h) w params = (some h, params)
  find_end_handler none w params = find_end_wildcard w params

  unfoldable pub find_end : Node H → Map Text → Option H × Map Text
  find_end n params = find_end_handler (handler n) (wildcard_child n) params

  abbrev pub follow :
      Choice H
      → (Node H → Map Text → Option H × Map Text)
      → Text
      → List Text
      → Map Text
      → Option H × Map Text
  follow (into c) walk seg rest params = walk c params
  follow (binding k c) walk seg rest params = walk c (insert k seg params)
  follow (rest_of_path c) walk seg rest params =
      (handler c, insert (codes "*") (join b'/' (seg ∷ rest)) params)
  follow no_match walk seg rest params = (none, params)

module _ {H : Type 0} (engine : Engine) (order : Map (Node H) → Map (Node H)) where
  -- One round of the loop: static, regular expression, parameter, wildcard.
  unfoldable pub choose : Text → List Text → Node H → Choice H
  choose seg rest n = choose_static (child_lookup seg (children n)) (
      choose_regex (first_regex engine seg (regex_children n)) (
        choose_param (first_param engine rest (order (entries (param_children n))))
          (choose_wildcard (wildcard_child n))))

  unfoldable pub find_segments : List Text → Node H → Map Text → Option H × Map Text
  find_segments [] n params = find_end n params
  find_segments (seg ∷ rest) n params =
      let skip = find_segments rest n params in
      let go = follow (choose seg rest n) (find_segments rest) seg rest params in
      ite (text_dec seg []) skip go

  -- The handler, nil when nothing was found, and the parameters.
  unfoldable pub find : Text → Node H → Map Text → Option H × Map Text
  find path n params =
      let found = find_segments (path_segments path) n params in
      ite (text_dec path (codes "/")) (handler n, params) found

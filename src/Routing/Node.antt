-- ===== src/Routing/Node.antt =====
-- web/router/node.go, the types: a node of the routing tree with its children. A node is reachable
-- from the root along one path only, so the tree is a value and a write through the current
-- pointer is a new tree. A handler is any value of `H`; `none` is a nil handler.
use fyer_webframe.Base.{◌≡◌, refl, Bool, false, [], ◌∷◌, Option, none, some, ite, arith}
use fyer_webframe.Base.Text.{Text, text_dec}
use fyer_webframe.Base.Map.{Map}

-- Package regexp: a compiled expression is its source, which its method String returns.
pub record Engine : Type 0 where
  pub compiles : Text → Bool
  pub match_string : Text → Text → Bool

pub record Info (H : Type 0) : Type 0 where
  pub path : Text
  pub handler : Option H
  pub is_param : Bool
  pub param_name : Text
  pub is_regex : Bool
  pub pattern : Text

mutual
  pub data Node (H : Type 0) : Type 0 where
    node : Info H → Children H → Children H → Siblings H → Link H → Node H

  -- map[string]*Node
  pub data Children (H : Type 0) : Type 0 where
    no_child : Children H
    child : Text → Node H → Children H → Children H

  -- []*Node
  pub data Siblings (H : Type 0) : Type 0 where
    no_sibling : Siblings H
    sibling : Node H → Siblings H → Siblings H

  -- *Node
  pub data Link (H : Type 0) : Type 0 where
    null : Link H
    to : Node H → Link H

module _ {H : Type 0} where
  abbrev pub info : Node H → Info H
  info (node i _ _ _ _) = i

  abbrev pub handler : Node H → Option H
  handler n = (info n).handler

  abbrev pub children : Node H → Children H
  children (node _ cs _ _ _) = cs

  abbrev pub param_children : Node H → Children H
  param_children (node _ _ ps _ _) = ps

  abbrev pub regex_children : Node H → Siblings H
  regex_children (node _ _ _ rs _) = rs

  abbrev pub wildcard_child : Node H → Link H
  wildcard_child (node _ _ _ _ w) = w

  abbrev pub set_handler : Option H → Node H → Node H
  set_handler h (node i cs ps rs w) = node (record i { handler = h }) cs ps rs w

  abbrev pub plain_info : Text → Info H
  plain_info path = record {
    path = path;
    handler = none;
    is_param = false;
    param_name = [];
    is_regex = false;
    pattern = [];
  }

  abbrev pub leaf : Info H → Node H
  leaf i = node i no_child no_child no_sibling null

  -- NewNode.
  abbrev pub new_node : Node H
  new_node = leaf (plain_info [])

  unfoldable pub child_lookup : Text → Children H → Option (Node H)
  child_lookup k no_child = none
  child_lookup k (child j n cs) = ite (text_dec j k) (some n) (child_lookup k cs)

  unfoldable pub child_put : Text → Node H → Children H → Children H
  child_put k n no_child = child k n no_child
  child_put k n (child j m cs) = ite (text_dec j k) (child k n cs) (child j m (child_put k n cs))

  -- The entries that a range over the map visits, in some order.
  abbrev pub entries : Children H → Map (Node H)
  entries no_child = []
  entries (child k n cs) = (k, n) ∷ entries cs

  pub child_lookup-child_put :
      (k j : Text) (n : Node H) (cs : Children H)
      → child_lookup j (child_put k n cs) ≡ ite (text_dec k j) (some n) (child_lookup j cs)
  unfolding child_lookup child_put
  child_lookup-child_put k j n no_child = refl
  child_lookup-child_put k j n (child i m cs) = ground (arith, child_lookup-child_put k j n cs)

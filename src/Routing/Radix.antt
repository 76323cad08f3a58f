-- ===== src/Routing/Radix.antt =====
-- web/router/radix.go: one routing tree for each HTTP method.
use fyer_webframe.Base.{ℕ, ◌+◌, ◌≡◌, [], ◌∷◌, Option, none, some, ite, arith, if◌then◌else◌}
use fyer_webframe.Base.Text.{Text, text_dec}
use fyer_webframe.Base.Map.{Map, lookup, insert as put, lookup-insert}
use fyer_webframe.Routing.Node.{
  Engine, Node, node, Children, no_child, child, Siblings, no_sibling, sibling, Link, null, to,
  new_node,
}
use fyer_webframe.Routing.Insert.{Panic, is_set, insert}
use fyer_webframe.Routing.Find.{find}

abbrev pub RadixTree : Type 0 → Type 0
RadixTree H = Map (Node H)

-- NewRadixTree
abbrev pub new_radix_tree : {H : Type 0} → RadixTree H
new_radix_tree = []

module _ {H : Type 0} where
  abbrev pub root_of : Option (Node H) → Node H
  root_of none = new_node
  root_of (some root) = root

  -- Add: the tree of the method, made where there is none, takes the route; a panic of Insert goes
  -- on, with the tree as it leaves it.
  unfoldable pub add : Engine → Text → Text → Option H → RadixTree H → RadixTree H × Option Panic
  add engine method path h trees =
      let inserted = insert engine path h (root_of (lookup method trees)) in
      (put method inserted.0 trees, inserted.1)

  abbrev pub find_root :
      Engine
      → (Map (Node H) → Map (Node H))
      → Text
      → Option (Node H)
      → Map Text
      → Option H × Map Text
  find_root engine order path none params = (none, params)
  find_root engine order path (some root) params = find engine order path root params

  -- RadixTree.Find
  unfoldable pub find_method :
      Engine
      → (Map (Node H) → Map (Node H))
      → Text
      → Text
      → RadixTree H
      → Map Text
      → Option H × Map Text
  find_method engine order method path trees params =
      find_root engine order path (lookup method trees) params

  unfoldable mutual
    -- countHandlers
    pub count_handlers : Node H → ℕ
    count_handlers (node i cs ps rs w) =
        (if is_set i.handler then 1 else 0)
        + count_children cs
        + count_children ps
        + count_siblings rs
        + count_link w

    pub count_children : Children H → ℕ
    count_children no_child = 0
    count_children (child k c cs) = count_handlers c + count_children cs

    pub count_siblings : Siblings H → ℕ
    count_siblings no_sibling = 0
    count_siblings (sibling c cs) = count_handlers c + count_siblings cs

    pub count_link : Link H → ℕ
    count_link null = 0
    count_link (to c) = count_handlers c

  -- Routes
  unfoldable pub routes : RadixTree H → ℕ
  routes [] = 0
  routes ((method, root) ∷ trees) = count_handlers root + routes trees

  -- After Add, Find on the same method walks the tree that Insert leaves, and Find on another
  -- method answers as before, whether or not Insert panicked.
  pub find_method-add :
      (engine : Engine) (order : Map (Node H) → Map (Node H)) (method path : Text) (h : Option H)
      (trees : RadixTree H) (asked wanted : Text) (params : Map Text)
      → find_method engine order asked wanted (add engine method path h trees).0 params
        ≡ ite
            (text_dec method asked)
            (find engine order wanted
              (insert engine path h (root_of (lookup method trees))).0
              params)
            (find_method engine order asked wanted trees params)
  unfolding find_method add
  find_method-add engine order method path h trees asked wanted params = ground (
    arith,
    lookup-insert method asked (insert engine path h (root_of (lookup method trees))).0 trees,
  )

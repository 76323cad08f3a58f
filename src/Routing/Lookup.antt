-- ===== src/Routing/Lookup.antt =====
-- web/router/node.go: what Find answers for a static route, right after its registration and after
-- any later ones.
use fyer_webframe.Base.{
  ◌≡◌, ◌≢◌, ◌⊎◌, inl, inr, refl, ◌∙◌, List, [], ◌∷◌, Option, none, some, ite, arith, All,
  Option-cases,
}
use mathlib.Core.Logic.{if_pos, if_neg}
use fyer_webframe.Base.Text.{Text, text_dec, codes, split_cons, trim}
use fyer_webframe.Base.Map.{Map}
use fyer_webframe.Routing.Node.{Engine, Node, node, children, child_lookup}
use fyer_webframe.Routing.Insert.{insert, insert_root, finish, insert_segments, path_segments}
use fyer_webframe.Routing.Find.{find_segments, choose, find_end, find}
use fyer_webframe.Routing.Static.{
  IsStatic, static_handler, place-static, place-static_handler_ne, place,
}

-- The segments that a path walks; the root path walks none.
abbrev pub route_segments : Text → List Text
route_segments path = ite (text_dec path (codes "/")) [] (path_segments path)

-- A path that holds no parameter, regular expression, wildcard or doubled slash.
abbrev pub IsStaticPath : Text → Type 0
IsStaticPath path = All IsStatic (route_segments path)

abbrev pub IsFull : List Text → Type 0
IsFull = All (λ seg. seg ≢ [])

-- A registration of another path, with no doubled slash.
abbrev pub IsOther : {H : Type 0} → Text → Text × Option H → Type 0
IsOther path (other, _) =
    IsFull (route_segments other) × (route_segments path ≢ route_segments other)

pub static-IsFull : (segs : List Text) → All IsStatic segs → IsFull segs
static-IsFull [] st = tt
static-IsFull (seg ∷ segs) (s, st) = (s.0, static-IsFull segs st)

module _ {H : Type 0} (engine : Engine) where
  module _ (order : Map (Node H) → Map (Node H)) where
    find_segments-static :
        (h : H) (segs : List Text) (n : Node H) (params : Map Text)
        → IsFull segs
        → static_handler segs n ≡ some h
        → find_segments engine order segs n params ≡ (some h, params)
    unfolding find_segments static_handler choose find_end
    find_segments-static h [] n params full e = ground arith
    find_segments-static h (seg ∷ rest) n params (ne, full) e =
        elim (Option-cases (child_lookup seg (children n))) [
          | inl q ↦ ground arith
          | inr (c, q) ↦ ground (arith, find_segments-static h rest c params full)
        ]

    -- Find, where the tree has the path as a static route.
    pub find-static :
        (h : H) (path : Text) (n : Node H) (params : Map Text)
        → IsFull (route_segments path)
        → static_handler (route_segments path) n ≡ some h
        → find engine order path n params ≡ (some h, params)
    unfolding find static_handler
    find-static h path n params full e = elim (text_dec path (codes "/")) [
      | yes q ↦ ground arith
      | no q ↦ rw (if_neg _ q) (
          find_segments-static h (path_segments path) n params (rw (if_neg _ q) at full)
            (rw (if_neg _ q) at e))
    ]

  -- A path that is not the root has a segment, so only the last one takes the handler.
  finish_path : (path : Text) (h : Option H) (n : Node H) → finish (path_segments path) h n ≡ n
  finish_path path h n = let (p, ps, e) = split_cons b'/' (trim b'/' path) in rw e refl

  insert_root-place :
      (h : Option H) (n : Node H)
      → (insert_root h n ≡ place engine h [] n)
        ⊎ (((insert_root h n).0 ≡ n) × ((insert_root h n).1 ≢ none))
  unfolding insert_segments
  insert_root-place h (node i cs ps rs w) = ground arith

  -- A registration is the walk over its segments, or is refused before the walk.
  pub insert-place :
      (path : Text) (h : Option H) (n : Node H)
      → (insert engine path h n ≡ place engine h (route_segments path) n)
        ⊎ (((insert engine path h n).0 ≡ n) × ((insert engine path h n).1 ≢ none))
  unfolding insert
  insert-place path h n = elim (text_dec path (codes "/")) [
    | yes q ↦ rw (if_pos _ q, if_pos _ q) (insert_root-place h n)
    | no q ↦ rw (if_neg _ q, if_neg _ q, finish_path path h n) (ground arith)
  ]

  pub insert-static_handler_self :
      (path : Text) (h : Option H) (n : Node H)
      → IsStaticPath path
      → (insert engine path h n).1 ≡ none
      → static_handler (route_segments path) (insert engine path h n).0 ≡ h
  insert-static_handler_self path h n st ok = elim (insert-place path h n) [
    | inl e ↦ rw e (place-static engine h (route_segments path) n st (rw e at ok))
    | inr (_, bad) ↦ absurd (bad ok)
  ]

  pub insert-static_handler :
      (path : Text) (h : Option H) (segs : List Text) (n : Node H)
      → IsFull (route_segments path)
      → segs ≢ route_segments path
      → static_handler segs (insert engine path h n).0 ≡ static_handler segs n
  insert-static_handler path h segs n full ne = elim (insert-place path h n) [
    | inl e ↦ rw e (place-static_handler_ne engine h (route_segments path) segs n full ne)
    | inr (e, _) ↦ rw e
  ]

  -- Registrations in order; a panic keeps what it left of the tree.
  unfoldable pub insert_all : List (Text × Option H) → Node H → Node H
  insert_all [] n = n
  insert_all ((path, h) ∷ regs) n = insert_all regs (insert engine path h n).0

  pub insert_all-static_handler :
      (path : Text) (regs : List (Text × Option H)) (n : Node H)
      → All (IsOther path) regs
      → static_handler (route_segments path) (insert_all regs n)
        ≡ static_handler (route_segments path) n
  unfolding insert_all
  insert_all-static_handler path [] n others = refl
  insert_all-static_handler path ((other, h) ∷ regs) n ((full, ne), others) =
      insert_all-static_handler path regs (insert engine other h n).0 others
      ∙ insert-static_handler other h (route_segments path) n full ne

  -- Whatever other paths are registered later, with or without a panic, a static route keeps its
  -- handler: once Insert took the path without a panic, Find on that path answers with its handler
  -- and leaves the parameters as they are. The path has no ":", no "*" and no doubled slash and
  -- names at least one segment, and the later paths are not empty, have no doubled slash and,
  -- other than "/", other segments.
  pub find-insert_all_static :
      (order : Map (Node H) → Map (Node H)) (path : Text) (h : H) (n : Node H)
      (regs : List (Text × Option H)) (params : Map Text)
      → IsStaticPath path
      → (insert engine path (some h) n).1 ≡ none
      → All (IsOther path) regs
      → find engine order path (insert_all regs (insert engine path (some h) n).0) params
        ≡ (some h, params)
  find-insert_all_static order path h n regs params st ok others =
      find-static order h path _ params (static-IsFull (route_segments path) st) (
        insert_all-static_handler path regs _ others
        ∙ insert-static_handler_self path (some h) n st ok)

-- ===== src/Routing/Duplicate.antt =====
-- web/router/node.go: a second registration of a static route.
use fyer_webframe.Base.{◌≡◌, ◌≢◌, inl, inr, ◌∙◌, List, [], ◌∷◌, Option, none, some, arith, All}
use mathlib.Core.Logic.{if_pos, if_neg}
use fyer_webframe.Base.Text.{Text, text_dec, codes, split_cons, trim}
use fyer_webframe.Base.Map.{Map}
use fyer_webframe.Routing.Node.{Engine, Node, node, handler, children, child_lookup}
use fyer_webframe.Routing.Insert.{insert, insert_root, duplicate_router}
use fyer_webframe.Routing.Find.{find}
use fyer_webframe.Routing.Static.{
  IsStatic, static_handler, place_static_cons, child_lookup-put_slot, place,
}
use fyer_webframe.Routing.Lookup.{
  route_segments, IsStaticPath, static-IsFull, insert-place, insert_all, IsOther,
  insert_all-static_handler, insert-static_handler_self, find-static,
}

module _ {H : Type 0} where
  static_handler_cons :
      (h : H) (seg : Text) (rest : List Text) (n : Node H)
      → static_handler (seg ∷ rest) n ≡ some h
      → (c : Node H) × (child_lookup seg (children n) ≡ some c) × (static_handler rest c ≡ some h)
  unfolding static_handler
  static_handler_cons h seg rest n e = ground arith

module _ {H : Type 0} (engine : Engine) where
  last_segment_duplicate :
      (h : H) (h' : Option H) (seg : Text) (n c : Node H)
      → IsStatic seg
      → child_lookup seg (children n) ≡ some c
      → handler c ≡ some h
      → place engine h' (seg ∷ []) n ≡ (n, some duplicate_router)
  last_segment_duplicate h h' seg n c s e f = place_static_cons engine h' seg [] n s ∙ rw (e, f)

  place-static_duplicate :
      (h : H) (h' : Option H) (seg : Text) (rest : List Text) (n : Node H)
      → All IsStatic (seg ∷ rest)
      → static_handler (seg ∷ rest) n ≡ some h
      → ((place engine h' (seg ∷ rest) n).1 ≢ none)
        × (static_handler (seg ∷ rest) (place engine h' (seg ∷ rest) n).0 ≡ some h)
  unfolding static_handler
  place-static_duplicate h h' seg [] n (s, st) e =
      let (c, q, f) = static_handler_cons h seg [] n e in
      rw (last_segment_duplicate h h' seg n c s q f) (λ bad. cc, e)
  place-static_duplicate h h' seg (x ∷ rest) n (s, st) e =
      let (c, q, f) = static_handler_cons h seg (x ∷ rest) n e in
      let (bad, kept) = place-static_duplicate h h' x rest c st f in
      rw (place_static_cons engine h' seg (x ∷ rest) n s, q)
        (bad, rw (child_lookup-put_slot engine seg (place engine h' (x ∷ rest) c).0 n) kept)

  insert_root-duplicate :
      (h : H) (h' : Option H) (n : Node H)
      → handler n ≡ some h
      → ((insert_root h' n).1 ≢ none) × (handler (insert_root h' n).0 ≡ some h)
  insert_root-duplicate h h' (node i cs ps rs w) e = ground arith

  insert_at_root :
      (h : Option H) (path : Text) (n : Node H)
      → path ≡ codes "/"
      → insert engine path h n ≡ insert_root h n
  unfolding insert
  insert_at_root h path n q = ground arith

  insert-static_duplicate :
      (path : Text) (h : H) (h' : Option H) (n : Node H)
      → IsStaticPath path
      → static_handler (route_segments path) n ≡ some h
      → ((insert engine path h' n).1 ≢ none)
        × (static_handler (route_segments path) (insert engine path h' n).0 ≡ some h)
  unfolding static_handler
  insert-static_duplicate path h h' n st e = elim (text_dec path (codes "/")) [
    | yes q ↦
        rw (insert_at_root h' path n q, if_pos _ q)
          (insert_root-duplicate h h' n (rw (if_pos _ q) at e))
    | no q ↦ elim (insert-place engine path h' n) [
      | inl walk ↦
          let (p, ps, cut) = split_cons b'/' (trim b'/' path) in
          rw (walk, if_neg _ q, cut)
            (place-static_duplicate h h' p ps n (rw (if_neg _ q, cut) at st)
              (rw (if_neg _ q, cut) at e))
      | inr (same, bad) ↦ (bad, rw same e)
    ]
  ]

  -- A static route that was registered without a panic cannot be registered again, whatever other
  -- paths were registered in between: the second registration panics, and Find still answers with
  -- the first handler. The path has no ":", no "*" and no doubled slash and names at least one
  -- segment, and the paths in between are not empty, have no doubled slash and, other than "/",
  -- other segments.
  pub find-insert_static_duplicate :
      (order : Map (Node H) → Map (Node H)) (path : Text) (h : H) (h' : Option H) (n : Node H)
      (regs : List (Text × Option H)) (params : Map Text)
      → IsStaticPath path
      → (insert engine path (some h) n).1 ≡ none
      → All (IsOther path) regs
      → let m = insert engine path h' (insert_all engine regs (insert engine path (some h) n).0) in
        (m.1 ≢ none) × (find engine order path m.0 params ≡ (some h, params))
  find-insert_static_duplicate order path h h' n regs params st ok others =
      let before =
        insert_all-static_handler engine path regs _ others
        ∙ insert-static_handler_self engine path (some h) n st ok in
      let (bad, kept) =
        insert-static_duplicate path h h' (insert_all engine regs (insert engine path (some h) n).0)
          st before in
      (
        bad,
        find-static engine order h path
            (insert engine path h' (insert_all engine regs (insert engine path (some h) n).0)).0
            params (static-IsFull (route_segments path) st) kept,
      )

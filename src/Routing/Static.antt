-- ===== src/Routing/Static.antt =====
-- Static routes of the routing tree: what a registration makes of them.
use fyer_webframe.Base.{
  ◌≡◌, ◌≢◌, ◌⊎◌, inl, inr, refl, Bool, ◌&&◌, List, [], ◌∷◌, Option, none, some, arith, All,
  Bool-cases,
}
use fyer_webframe.Base.Text.{Text}
use fyer_webframe.Routing.Node.{
  Engine, Node, node, handler, children, leaf, plain_info, child_lookup, child_lookup-child_put,
}
use fyer_webframe.Routing.Insert.{
  Panic, Kind, static_segment, wildcard_segment, bad_segment, param_segment, regex_segment,
  segment_kind, Slot, at_wildcard, at_static, at_param, at_regex, Step, panics, enters, enter,
  put_slot, after_enter, finish, insert_segments, is_set, is_last, duplicate_router, enter_static,
}
use fyer_webframe.Routing.Origin.{IsFresh, Origin, Entry, enter-Entry}

-- A segment that is matched literally.
abbrev pub IsStatic : Text → Type 0
IsStatic seg = (seg ≢ []) × (segment_kind seg ≡ static_segment)

module _ {H : Type 0} where
  -- The handler at the end of a path that goes through static children only.
  abbrev pub static_child : List Text → (Node H → Option H) → Option (Node H) → Option H
  static_child rest walk none = none
  static_child rest walk (some c) = walk c

  unfoldable pub static_handler : List Text → Node H → Option H
  static_handler [] n = handler n
  static_handler (seg ∷ rest) n =
      static_child rest (static_handler rest) (child_lookup seg (children n))

  module _ (engine : Engine) where
    -- The walk from a child that was just entered.
    abbrev pub place : Option H → List Text → Node H → Node H × Option Panic
    place h rest c = insert_segments engine h rest (finish rest h c)

    insert_segments_cons :
        (h : Option H) (seg : Text) (rest : List Text) (n : Node H)
        → seg ≢ []
        → insert_segments engine h (seg ∷ rest) n
          ≡ after_enter (enter engine (is_last rest) seg (segment_kind seg) n) (place h rest) n
    unfolding insert_segments
    insert_segments_cons h seg rest n ne = ground arith

    -- What the loop does with a static segment.
    static_entry :
        (last : Bool) (seg : Text) (o : Option (Node H))
        → (enter_static last seg o ≡ panics duplicate_router)
          ⊎ ((c : Node H) × (enter_static last seg o ≡ enters (at_static seg) c)
              × ((o ≡ some c) ⊎ ((o ≡ none) × (c ≡ leaf (plain_info seg)))))
    static_entry last seg none = inr (leaf (plain_info seg), refl, inr (refl, refl))
    static_entry last seg (some c) = elim (Bool-cases (last && is_set (handler c))) [
      | inl e ↦ inl (rw e)
      | inr e ↦ inr (c, rw e, inl refl)
    ]

    place_nil_handler : (h : Option H) (n : Node H) → handler (place h [] n).0 ≡ h
    unfolding insert_segments
    place_nil_handler h (node i cs ps rs w) = refl

    pub place_static_cons :
        (h : Option H) (seg : Text) (rest : List Text) (n : Node H)
        → IsStatic seg
        → place h (seg ∷ rest) n
          ≡ after_enter
              (enter_static (is_last rest) seg (child_lookup seg (children n)))
              (place h rest)
              n
    unfolding enter
    place_static_cons h seg rest n (ne, kind) = rw (insert_segments_cons h seg rest n ne, kind)

    pub child_lookup-put_slot :
        (seg : Text) (c n : Node H)
        → child_lookup seg (children (put_slot (at_static seg) c n)) ≡ some c
    unfolding put_slot
    child_lookup-put_slot seg c (node i cs ps rs w) =
        ground (arith, child_lookup-child_put seg seg c cs)

    pub place-static :
        (h : Option H) (segs : List Text) (n : Node H)
        → All IsStatic segs
        → (place h segs n).1 ≡ none
        → static_handler segs (place h segs n).0 ≡ h
    unfolding static_handler
    place-static h [] n st ok = place_nil_handler h n
    place-static h (seg ∷ rest) n (s, st) ok =
        elim (static_entry (is_last rest) seg (child_lookup seg (children n))) [
          | inl p ↦
              let bad : some duplicate_router ≡ none =
                rw (place_static_cons h seg rest n s, p) at ok in
              cc
          | inr (c, e, _) ↦
              rw
                (
                  place_static_cons h seg rest n s,
                  e,
                  child_lookup-put_slot seg (place h rest c).0 n,
                )
                (place-static h rest c st (rw (place_static_cons h seg rest n s, e) at ok))
        ]

    place_nil_children : (h : Option H) (n : Node H) → children (place h [] n).0 ≡ children n
    unfolding insert_segments
    place_nil_children h (node i cs ps rs w) = refl

    handler-put_slot : (slot : Slot) (c n : Node H) → handler (put_slot slot c n) ≡ handler n
    unfolding put_slot
    handler-put_slot at_wildcard c (node i cs ps rs w) = refl
    handler-put_slot (at_static k) c (node i cs ps rs w) = refl
    handler-put_slot (at_param k) c (node i cs ps rs w) = refl
    handler-put_slot (at_regex k p) c (node i cs ps rs w) = refl

    after_enter_handler :
        (s : Step H) (below : Node H → Node H × Option Panic) (n : Node H)
        → handler (after_enter s below n).0 ≡ handler n
    after_enter_handler (panics p) below n = refl
    after_enter_handler (enters slot c) below n = handler-put_slot slot _ n

    static_handler-fresh :
        (path : List Text) (c : Node H) → IsFresh c → static_handler path c ≡ none
    unfolding static_handler child_lookup
    static_handler-fresh [] c (i, e, f) = rw f e
    static_handler-fresh (x ∷ path) c (i, e, f) = rw (f, child_lookup)

    -- The child at `slot` replaced by one that answers alike off the path.
    static_handler-put_slot :
        (slot : Slot) (c d n : Node H) (x : Text) (other : List Text)
        → Origin slot c n
        → (slot ≡ at_static x → static_handler other d ≡ static_handler other c)
        → static_handler (x ∷ other) (put_slot slot d n) ≡ static_handler (x ∷ other) n
    unfolding static_handler put_slot
    static_handler-put_slot at_wildcard c d (node i cs ps rs w) x other o same = refl
    static_handler-put_slot (at_param k) c d (node i cs ps rs w) x other o same = refl
    static_handler-put_slot (at_regex k p) c d (node i cs ps rs w) x other o same = refl
    static_handler-put_slot (at_static k) c d (node i cs ps rs w) x other (inl o) same =
        ground (arith, child_lookup-child_put k x d cs)
    static_handler-put_slot (at_static k) c d (node i cs ps rs w) x other (inr (o, f)) same =
        ground (arith, child_lookup-child_put k x d cs, static_handler-fresh other c f)

    after_enter-static_handler :
        (s : Step H) (below : Node H → Node H × Option Panic) (n : Node H) (x : Text)
        (other : List Text)
        → Entry n s
        → ((c : Node H)
            → s ≡ enters (at_static x) c
            → static_handler other (below c).0 ≡ static_handler other c)
        → static_handler (x ∷ other) (after_enter s below n).0 ≡ static_handler (x ∷ other) n
    after_enter-static_handler s below n x other (inl (p, e)) same = rw e
    after_enter-static_handler s below n x other (inr (slot, c, e, o)) same =
        rw e (static_handler-put_slot slot c (below c).0 n x other o (λ q. same c (rw (e, q))))

    enter_at_static :
        (last : Bool) (seg x : Text) (k : Kind) (c n : Node H)
        → enter engine last seg k n ≡ enters (at_static x) c
        → seg ≡ x
    unfolding enter
    enter_at_static last seg x static_segment c n e = ground arith
    enter_at_static last seg x (bad_segment p) c n e = cc
    enter_at_static last seg x wildcard_segment c n e = ground arith
    enter_at_static last seg x (param_segment name) c n e = ground arith
    enter_at_static last seg x (regex_segment name str) c n e = ground arith

    -- A static segment's walk keeps the static paths apart from its own.
    pub place-static_handler_ne :
        (h : Option H) (segs other : List Text) (n : Node H)
        → All (λ seg. seg ≢ []) segs
        → other ≢ segs
        → static_handler other (place h segs n).0 ≡ static_handler other n
    unfolding static_handler
    place-static_handler_ne h [] [] n full ne = absurd (ne refl)
    place-static_handler_ne h [] (x ∷ other) n full ne = rw (place_nil_children h n)
    place-static_handler_ne h (seg ∷ rest) [] n full ne =
        rw (insert_segments_cons h seg rest n full.0) (after_enter_handler _ (place h rest) n)
    place-static_handler_ne h (seg ∷ rest) (x ∷ other) n full ne =
        rw (insert_segments_cons h seg rest n full.0) (
          after_enter-static_handler _ (place h rest) n x other
            (enter-Entry engine (is_last rest) seg (segment_kind seg) n)
            (λ c e.
              place-static_handler_ne h rest other c full.1
                (λ q. ne (cc (enter_at_static (is_last rest) seg x (segment_kind seg) c n e)))))

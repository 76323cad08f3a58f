-- ===== src/Routing/Origin.antt =====
-- Where the child that a segment leads to comes from, on every branch of Insert's loop.
use fyer_webframe.Base.{
  ◌≡◌, ◌⊎◌, inl, inr, refl, Bool, true, false, not, ◌&&◌, Option, none, some, if◌then◌else◌,
  Option-cases,
}
use fyer_webframe.Base.Text.{Text}
use fyer_webframe.Routing.Node.{
  Engine, Info, Node, node, Link, null, to, handler, children, leaf, param_children, regex_children,
  wildcard_child, child_lookup,
}
use fyer_webframe.Routing.Insert.{
  Panic, Kind, wildcard_segment, static_segment, param_segment, regex_segment, bad_segment, Slot,
  at_wildcard, at_static, at_param, at_regex, Step, panics, enters, enter, is_set, duplicate_router,
  enter_static, enter_param, enter_regex, regex_lookup, reuse, anchored, other_param_ends,
  regex_conflict, no_children, conflicting_params, conflicting_regex, invalid_regex,
}

module _ {H : Type 0} where
  -- A node that was just made: no handler and no children.
  abbrev pub IsFresh : Node H → Type 0
  IsFresh c = (i : Info H) × (i.handler ≡ none) × (c ≡ leaf i)

  -- What hangs in a slot.
  abbrev pub linked : Link H → Option (Node H)
  linked null = none
  linked (to c) = some c

  abbrev pub occupant : Slot → Node H → Option (Node H)
  occupant at_wildcard n = linked (wildcard_child n)
  occupant (at_static k) n = child_lookup k (children n)
  occupant (at_param k) n = child_lookup k (param_children n)
  occupant (at_regex k p) n = regex_lookup k p (regex_children n)

  abbrev pub Origin : Slot → Node H → Node H → Type 0
  Origin slot c n = (occupant slot n ≡ some c) ⊎ ((occupant slot n ≡ none) × IsFresh c)

  abbrev pub Entry : Node H → Step H → Type 0
  Entry n s =
      ((p : Panic) × (s ≡ panics p))
      ⊎ ((slot : Slot) × (c : Node H) × (s ≡ enters slot c) × Origin slot c n)

  guard-Entry :
      (t : Bool) (p : Panic) (s : Step H) (n : Node H)
      → Entry n s
      → Entry n (if t then panics p else s)
  guard-Entry true p s n e = inl (p, refl)
  guard-Entry false p s n e = e

  found-Entry : (slot : Slot) (c n : Node H) → occupant slot n ≡ some c → Entry n (enters slot c)
  found-Entry slot c n e = inr (slot, c, refl, inl e)

  fresh-Entry :
      (slot : Slot) (i : Info H) (n : Node H)
      → i.handler ≡ none
      → occupant slot n ≡ none
      → Entry n (enters slot (leaf i))
  fresh-Entry slot i n h e = inr (slot, leaf i, refl, inr (e, (i, h, refl)))

  reuse-Entry :
      (last : Bool) (slot : Slot) (c n : Node H)
      → occupant slot n ≡ some c
      → Entry n (reuse last slot c)
  reuse-Entry last slot c n e =
      guard-Entry (last && is_set (handler c)) duplicate_router _ n (found-Entry slot c n e)

  static-Entry :
      (last : Bool) (seg : Text) (n : Node H)
      → Entry n (enter_static last seg (child_lookup seg (children n)))
  static-Entry last seg n = elim (Option-cases (child_lookup seg (children n))) [
    | inl e ↦ rw e (fresh-Entry (at_static seg) _ n refl e)
    | inr (c, e) ↦ rw e (reuse-Entry last (at_static seg) c n e)
  ]

  param-Entry :
      (last : Bool) (seg name : Text) (n : Node H)
      → Entry n (enter_param last seg name (child_lookup name (param_children n)))
  param-Entry last seg name n = elim (Option-cases (child_lookup name (param_children n))) [
    | inl e ↦ rw e (fresh-Entry (at_param name) _ n refl e)
    | inr (c, e) ↦ rw e (
        guard-Entry (last && is_set (handler c) && no_children (children c)) duplicate_router _ n
          (found-Entry (at_param name) c n e))
  ]

  regex-Entry :
      (last : Bool) (seg name pat : Text) (n : Node H)
      → Entry n (enter_regex last seg name pat (regex_lookup name pat (regex_children n)))
  regex-Entry last seg name pat n = elim (Option-cases (regex_lookup name pat (regex_children n))) [
    | inl e ↦ rw e (fresh-Entry (at_regex name pat) _ n refl e)
    | inr (c, e) ↦ rw e (reuse-Entry last (at_regex name pat) c n e)
  ]

  -- Each segment panics, or leads to the occupant of a slot, or to a fresh node for a free slot.
  pub enter-Entry :
      (engine : Engine) (last : Bool) (seg : Text) (k : Kind) (n : Node H)
      → Entry n (enter engine last seg k n)
  unfolding enter
  enter-Entry engine last seg static_segment n = static-Entry last seg n
  enter-Entry engine last seg (bad_segment p) n = inl (p, refl)
  enter-Entry engine last seg wildcard_segment (node i cs ps rs null) =
      fresh-Entry at_wildcard _ _ refl refl
  enter-Entry engine last seg wildcard_segment (node i cs ps rs (to c)) =
      reuse-Entry last at_wildcard c _ refl
  enter-Entry engine last seg (param_segment name) n =
      guard-Entry (last && other_param_ends name (param_children n)) conflicting_params _ n
        (param-Entry last seg name n)
  enter-Entry engine last seg (regex_segment name str) n =
      guard-Entry (regex_conflict name (anchored str) (regex_children n)) conflicting_regex _ n (
        guard-Entry (not (engine.compiles (anchored str))) invalid_regex _ n
          (regex-Entry last seg name (anchored str) n))

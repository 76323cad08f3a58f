-- ===== src/Routing/Tests.antt =====
-- Runs of the routing tree, and its theorems at concrete trees.
use fyer_webframe.Base.{◌≡◌, ◌≢◌, refl, List, [], ◌∷◌, Option, none, some, true, ℕ, arith}
use fyer_webframe.Base.Text.{
  Text, codes, text_dec, index_byte, last_index_byte, split, trim, trim_left, join,
}
use fyer_webframe.Base.Map.{Map, insert as bind}
use fyer_webframe.Routing.Node.{Engine, Node, new_node, child_lookup, child_put}
use fyer_webframe.Routing.Insert.{
  conflicting_params, duplicate_router, many_wildcards, wildcard_not_last, segment_kind,
  other_param_ends, regex_conflict, regex_lookup, regex_put, enter, put_slot, insert_segments,
  wildcard_count, wildcard_inside, insert,
}
use fyer_webframe.Routing.Find.{
  first_regex, can_match_later, first_param, choose, find_end, find_segments, find,
}
use fyer_webframe.Routing.Lookup.{insert_all, find-insert_all_static}
use fyer_webframe.Routing.Duplicate.{find-insert_static_duplicate}

-- What a run opens.
unfoldable pub routing : Unit {0}
unfolding text_dec index_byte last_index_byte split trim trim_left join bind child_lookup child_put
    segment_kind other_param_ends regex_conflict regex_lookup regex_put enter put_slot
    insert_segments wildcard_count wildcard_inside insert first_regex can_match_later first_param
    choose find_end find_segments find insert_all
routing = tt

-- Every expression compiles, and matches every text.
abbrev pub lax : Engine
lax = record { compiles = λ _. true; match_string = λ _ _. true }

abbrev pub as_listed : Map (Node ℕ) → Map (Node ℕ)
as_listed m = m

abbrev routes : List (Text × Option ℕ)
routes =
    (codes "/users/:id", some 1)
    ∷ (codes "/users/me", some 2)
    ∷ (codes "/files/*", some 3)
    ∷ (codes "/posts/:n([0-9]+)", some 4)
    ∷ (codes "/", some 5)
    ∷ []

abbrev table : Node ℕ
table = insert_all lax routes new_node

abbrev ask : Text → Option ℕ × Map Text
ask path = find lax as_listed path table []

answers :
    (ask (codes "/users/7") ≡ (some 1, (codes "id", codes "7") ∷ []))
    × (ask (codes "/users/me") ≡ (some 2, []))
    × (ask (codes "/files/a/b") ≡ (some 3, (codes "*", codes "a/b") ∷ []))
    × (ask (codes "/files") ≡ (some 3, (codes "*", []) ∷ []))
    × (ask (codes "/posts/12") ≡ (some 4, (codes "n", codes "12") ∷ []))
    × (ask (codes "/") ≡ (some 5, []))
    × (ask (codes "/none") ≡ (none, []))
unfolding routing
answers = (refl, refl, refl, refl, refl, refl, refl)

refusals :
    ((insert lax (codes "/users/me") (some 9) table).1 ≡ some duplicate_router)
    × ((insert lax (codes "/users/:name") (some 9) table).1 ≡ some conflicting_params)
    × ((insert lax (codes "/*/*") (some 9) table).1 ≡ some many_wildcards)
    × ((insert lax (codes "/*/a") (some 9) table).1 ≡ some wildcard_not_last)
unfolding routing
refusals = (refl, refl, refl, refl)

find-insert_all_static_example :
    find lax as_listed
      (codes "/users/me")
      (insert_all lax
        ((codes "/users/:id", some 1) ∷ (codes "/users", some 8) ∷ [])
        (insert lax (codes "/users/me") (some 2) new_node).0)
      []
    ≡ (some 2, [])
unfolding routing
find-insert_all_static_example =
    find-insert_all_static lax as_listed (codes "/users/me") 2 new_node
      ((codes "/users/:id", some 1) ∷ (codes "/users", some 8) ∷ []) [] (ground arith) refl
      (ground arith)

find-insert_static_duplicate_example :
    let m = insert {H = ℕ} lax (codes "/users/me") (some 9) (
      insert_all lax
        ((codes "/users/:id", some 1) ∷ [])
        (insert lax (codes "/users/me") (some 2) new_node).0) in
    (m.1 ≢ none) × (find lax as_listed (codes "/users/me") m.0 [] ≡ (some 2, []))
unfolding routing
find-insert_static_duplicate_example =
    find-insert_static_duplicate lax as_listed (codes "/users/me") 2 (some 9) new_node
      ((codes "/users/:id", some 1) ∷ []) [] (ground arith) refl (ground arith)

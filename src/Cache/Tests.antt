-- ===== src/Cache/Tests.antt =====
-- Runs of the cache, and its theorems at concrete states.
use mathlib.Core.List.{Memᴰ}
use mathlib.Core.List.Perm
use fyer_webframe.Base.{◌≤◌, ◌≡◌, inr, refl, [], ◌∷◌, none, some, length, arith}
use fyer_webframe.Base.Text.{Text, codes, text_dec}
use fyer_webframe.Base.Map.{lookup, insert as bind, delete as unbind}
use fyer_webframe.Cache.{
  Codec, MemoryCache, ok, err, cache_miss, new_memory_cache, unlink, unlink_all, delete_key,
  delete_keys, evict, expired_keys, delete_expired, get, set, link, link_all, set_with_tags,
  collect_keys, drop_links, drop_key, drop_keys, delete_by_tags,
}
use fyer_webframe.Cache.Tags.{tagged}
use fyer_webframe.Cache.Entries.{delete_by_tags_keeps}
use fyer_webframe.Cache.History.{Step, Reach, Reach-length, Reach-get-delete_by_tags}
use fyer_webframe.Cache.Reads.{get-set, get-set_expired, delete_by_tags_retagged}

-- What a run opens.
caching : Unit {0}
unfolding text_dec lookup bind unbind new_memory_cache unlink unlink_all delete_key delete_keys
    evict expired_keys delete_expired get set link link_all set_with_tags collect_keys drop_links
    drop_key drop_keys delete_by_tags
caching = tt

-- A text is its own encoding.
abbrev plain : Codec Text
plain = record { marshal = λ t. some t; unmarshal = λ t. some t }

abbrev with_ann : MemoryCache
with_ann =
    (set_with_tags plain [] 0 (codes "u1") (codes "ann") 0 (codes "users" ∷ [])
      (new_memory_cache 2)).0

abbrev with_both : MemoryCache
with_both =
    (set_with_tags plain (codes "u1" ∷ []) 1 (codes "p1") (codes "hi") 10 (codes "posts" ∷ [])
      with_ann).0

history : Reach plain (new_memory_cache 2) with_both
unfolding caching
history =
    Reach.next
      (Reach.next Reach.here
        (Step.sets_with_tags [] 0 (codes "u1") (codes "ann") 0 (codes "users" ∷ []) (Perm.refl [])))
      (Step.sets_with_tags (codes "u1" ∷ []) 1 (codes "p1") (codes "hi") 10 (codes "posts" ∷ [])
        (Perm.refl (codes "u1" ∷ [])))

-- A third entry evicts the one that is visited first.
eviction :
    let c = (set plain (codes "u1" ∷ codes "p1" ∷ []) 2 (codes "x") [] 0 with_both).0 in
    (length c.data_of ≡ 2) × (lookup (codes "u1") c.data_of ≡ none)
unfolding caching
eviction = (refl, refl)

Reach-length_example : length with_both.data_of ≤ 2
Reach-length_example = Reach-length plain 2 with_both (ground arith) history

Reach-get-delete_by_tags_example :
    (get plain 5 (codes "p1") (delete_by_tags (codes "posts" ∷ []) with_both)).1 ≡ err cache_miss
unfolding caching
Reach-get-delete_by_tags_example =
    Reach-get-delete_by_tags plain 2 with_both (codes "posts" ∷ []) (codes "p1") (codes "posts") 5
      history (codes "posts" ∷ [], refl, Memᴰ.head refl) (Memᴰ.head refl)

untouched :
    (tag : Text)
    → Memᴰ tag (codes "posts" ∷ [])
    → tagged with_both.tag_to_keys tag (codes "u1") ≡ none
unfolding caching
untouched tag (Memᴰ.head e) = rw e refl
untouched tag (Memᴰ.tail m) = elim m [ ]

delete_by_tags_keeps_example :
    lookup (codes "u1") (delete_by_tags (codes "posts" ∷ []) with_both).data_of
    ≡ lookup (codes "u1") with_both.data_of
delete_by_tags_keeps_example =
    delete_by_tags_keeps with_both (codes "posts" ∷ []) (codes "u1") untouched

get-set_example :
    get plain 9 (codes "k") (set plain [] 1 (codes "k") (codes "v") 10 with_ann).0
    ≡ ((set plain [] 1 (codes "k") (codes "v") 10 with_ann).0, ok (codes "v"))
get-set_example =
    get-set plain [] 1 (codes "k") (codes "v") 10 with_ann (codes "v") 9 refl refl
      (inr (ground arith))

get-set_expired_example :
    let r = get plain 12 (codes "k") (set plain [] 1 (codes "k") (codes "v") 10 with_ann).0 in
    (r.1 ≡ err cache_miss) × (lookup (codes "k") r.0.data_of ≡ none)
get-set_expired_example =
    get-set_expired plain [] 1 (codes "k") (codes "v") 10 with_ann (codes "v") 12 refl
      (ground arith) (ground arith)

abbrev unbounded_ann : MemoryCache
unbounded_ann =
    (set_with_tags plain [] 0 (codes "u1") (codes "ann") 0 (codes "users" ∷ [])
      (new_memory_cache 0)).0

delete_by_tags_retagged_example :
    lookup
      (codes "u1")
      (delete_by_tags
        (codes "users" ∷ [])
        (set_with_tags plain [] 3
          (codes "u1")
          (codes "bob")
          0
          (codes "staff" ∷ [])
          unbounded_ann).0).data_of
    ≡ none
unfolding caching
delete_by_tags_retagged_example =
    delete_by_tags_retagged plain [] 3 (codes "u1") (codes "bob") 0 (codes "users")
      (codes "staff" ∷ []) unbounded_ann refl refl

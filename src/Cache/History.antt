-- ===== src/Cache/History.antt =====
-- orm/memory.go: any history of operations on a new cache.
use mathlib.Core.List.{Memᴰ}
use fyer_webframe.Base.{
  ℕ, ◌≤◌, ◌<◌, ◌≡◌, inl, inr, refl, ◌∙◌, List, [], ◌∷◌, arith, Option-cases, Bool-cases, length,
  ltb, leb, ◌&&◌,
}
use fyer_webframe.Base.Text.{Text}
use fyer_webframe.Base.Map.{lookup, insert, length-insert-le}
use fyer_webframe.Cache.{
  Codec, Item, MemoryCache, Outcome, ok, err, cache_miss, new_memory_cache, delete_key, delete_keys,
  delete_by_tags, collect_keys, is_expired, delete_expired, get, set, set_with_tags, tag_key,
  make_room, tag_after, evict, clear,
}
use fyer_webframe.Cache.Invalidation.{
  IsLinked, HasTag, delete_keys-IsLinked, tag_key-IsLinked, delete_by_tags-IsLinked,
}
use fyer_webframe.Cache.Bound.{
  Visits, IsBounded, delete_keys-IsBounded, delete_keys-max, drop_keys-max, drop_keys-le,
  make_room-lt, make_room-max,
}
use fyer_webframe.Cache.Entries.{delete_by_tags_removes}

-- What holds of a cache with the bound `max` between two operations.
pub record Inv (max : ℕ) (c : MemoryCache) : Type 0 where
  pub same_max : c.max_entries ≡ max
  pub bounded : IsBounded c
  pub linked : IsLinked c

untagged-IsLinked : (c : MemoryCache) → c.key_to_tags ≡ [] → IsLinked c
unfolding lookup
untagged-IsLinked c e key tag (tags, q, m) = ground arith

delete_by_tags-max :
    (tags : List Text) (c : MemoryCache) → (delete_by_tags tags c).max_entries ≡ c.max_entries
unfolding delete_by_tags
delete_by_tags-max tags c = drop_keys-max _ _

delete_by_tags-le :
    (tags : List Text) (c : MemoryCache) → length (delete_by_tags tags c).data_of ≤ length c.data_of
unfolding delete_by_tags
delete_by_tags-le tags c =
    drop_keys-le (collect_keys tags c.tag_to_keys).0
      (record c { tag_to_keys = (collect_keys tags c.tag_to_keys).1 })

delete_keys-Inv :
    (max : ℕ) (ks : List Text) (c : MemoryCache) → Inv max c → Inv max (delete_keys ks c)
delete_keys-Inv max ks c v = record {
  same_max = delete_keys-max ks c ∙ v.same_max;
  bounded = delete_keys-IsBounded ks c v.bounded;
  linked = delete_keys-IsLinked ks c v.linked;
}

delete_key-Inv : (max : ℕ) (k : Text) (c : MemoryCache) → Inv max c → Inv max (delete_key k c)
unfolding delete_keys
delete_key-Inv max k c v = delete_keys-Inv max (k ∷ []) c v

make_room-IsLinked :
    (visited : List Text) (c : MemoryCache) → IsLinked c → IsLinked (make_room visited c)
unfolding evict
make_room-IsLinked visited c linked =
    elim (Bool-cases (ltb 0 c.max_entries && leb c.max_entries (length c.data_of))) [
      | inl e ↦ rw e (delete_keys-IsLinked _ c linked)
      | inr e ↦ rw e linked
    ]

write_item-Inv :
    (max : ℕ) (visited : List Text) (key : Text) (i : Item) (c : MemoryCache)
    → Visits visited c
    → Inv max c
    → Inv max
        (let roomy = make_room visited c in record roomy { data_of = insert key i roomy.data_of })
write_item-Inv max visited key i c order v = record {
  same_max = make_room-max visited c ∙ v.same_max;
  bounded = λ h. omega (
    arith,
    make_room-lt visited c order v.bounded h,
    length-insert-le key i (make_room visited c).data_of,
  );
  linked = make_room-IsLinked visited c v.linked;
}

module _ {V : Type 0} (codec : Codec V) where
  get-Inv :
      (max now : ℕ) (key : Text) (c : MemoryCache) → Inv max c → Inv max (get codec now key c).0
  unfolding get
  get-Inv max now key c v = elim (Option-cases (lookup key c.data_of)) [
    | inl e ↦ rw e v
    | inr (i, e) ↦ rw e (elim (Bool-cases (is_expired now i)) [
      | inl old ↦ rw old (delete_key-Inv max key c v)
      | inr new ↦ rw new v
    ])
  ]

  set-Inv :
      (max : ℕ) (visited : List Text) (now : ℕ) (key : Text) (value : V) (ttl : ℕ) (c : MemoryCache)
      → Visits visited c
      → Inv max c
      → Inv max (set codec visited now key value ttl c).0
  unfolding set
  set-Inv max visited now key value ttl c order v = elim (Option-cases (codec.marshal value)) [
    | inl e ↦ rw e v
    | inr (bytes, e) ↦ rw e (write_item-Inv max visited key _ c order v)
  ]

  tag_key-Inv :
      (max : ℕ) (key : Text) (tags : List Text) (c : MemoryCache)
      → Inv max c
      → Inv max (tag_key key tags c)
  tag_key-Inv max key [] c v = v
  tag_key-Inv max key (t ∷ ts) c v = record {
    same_max = v.same_max;
    bounded = v.bounded;
    linked = tag_key-IsLinked key (t ∷ ts) c v.linked;
  }

  tag_after-Inv :
      (max : ℕ) (key : Text) (tags : List Text) (r : MemoryCache × Outcome (Unit {0}))
      → Inv max r.0
      → Inv max (tag_after key tags r).0
  tag_after-Inv max key tags (c, ok u) v = tag_key-Inv max key tags c v
  tag_after-Inv max key tags (c, err e) v = v

  delete_by_tags-Inv :
      (max : ℕ) (tags : List Text) (c : MemoryCache) → Inv max c → Inv max (delete_by_tags tags c)
  delete_by_tags-Inv max tags c v = record {
    same_max = delete_by_tags-max tags c ∙ v.same_max;
    bounded =
        rw (delete_by_tags-max tags c) (λ h. omega (arith, delete_by_tags-le tags c, v.bounded h));
    linked = delete_by_tags-IsLinked tags c v.linked;
  }

  -- One operation. Get and SetWithTags lock twice: what they do under the second lock, when another
  -- goroutine came between, is the step deletes or links.
  pub data Step (c : MemoryCache) : MemoryCache → Type 0 where
    gets : (now : ℕ) (key : Text) → Step c (get codec now key c).0
    sets :
        (visited : List Text) (now : ℕ) (key : Text) (value : V) (ttl : ℕ)
        → Visits visited c
        → Step c (set codec visited now key value ttl c).0
    sets_with_tags :
        (visited : List Text) (now : ℕ) (key : Text) (value : V) (ttl : ℕ) (tags : List Text)
        → Visits visited c
        → Step c (set_with_tags codec visited now key value ttl tags c).0
    links : (key : Text) (tags : List Text) → Step c (tag_key key tags c)
    deletes : (key : Text) → Step c (delete_key key c)
    deletes_by_tags : (tags : List Text) → Step c (delete_by_tags tags c)
    deletes_expired : (now : ℕ) → Step c (delete_expired now c)
    clears : Step c (clear c)

  Step-Inv : {max : ℕ} {c d : MemoryCache} → Step c d → Inv max c → Inv max d
  unfolding set_with_tags delete_expired clear
  Step-Inv {max} {c} (gets now key) v = get-Inv max now key c v
  Step-Inv {max} {c} (sets visited now key value ttl order) v =
      set-Inv max visited now key value ttl c order v
  Step-Inv {max} {c} (sets_with_tags visited now key value ttl tags order) v =
      tag_after-Inv max key tags _ (set-Inv max visited now key value ttl c order v)
  Step-Inv {max} {c} (links key tags) v = tag_key-Inv max key tags c v
  Step-Inv {max} {c} (deletes key) v = delete_key-Inv max key c v
  Step-Inv {max} {c} (deletes_by_tags tags) v = delete_by_tags-Inv max tags c v
  Step-Inv {max} {c} (deletes_expired now) v = delete_keys-Inv max _ c v
  Step-Inv {max} {c} clears v = record {
    same_max = v.same_max;
    bounded = λ h. omega arith;
    linked = untagged-IsLinked (clear c) refl;
  }

  -- Any history of operations.
  pub data Reach (c : MemoryCache) : MemoryCache → Type 0 where
    here : Reach c c
    next : {d e : MemoryCache} → Reach c d → Step d e → Reach c e

  Reach-Inv : {max : ℕ} {c d : MemoryCache} → Reach c d → Inv max c → Inv max d
  Reach-Inv here v = v
  Reach-Inv (next r s) v = Step-Inv s (Reach-Inv r v)

new_memory_cache-Inv : (max : ℕ) → Inv max (new_memory_cache max)
unfolding new_memory_cache
new_memory_cache-Inv max = record {
  same_max = refl;
  bounded = λ h. omega arith;
  linked = untagged-IsLinked (new_memory_cache max) refl;
}

-- In every history of a new cache with a positive bound, the number of entries stays within the
-- bound.
pub Reach-length :
    {V : Type 0} (codec : Codec V) (max : ℕ) (c : MemoryCache)
    → 0 < max
    → Reach codec (new_memory_cache max) c
    → length c.data_of ≤ max
Reach-length codec max c pos r =
    let v = Reach-Inv codec r (new_memory_cache-Inv max) in omega (arith, v.same_max, v.bounded)

-- In every history of a new cache, DeleteByTags leaves no key that has one of the tags: the next
-- Get of such a key is a miss, at any time.
pub Reach-get-delete_by_tags :
    {V : Type 0} (codec : Codec V) (max : ℕ) (c : MemoryCache) (tags : List Text) (key tag : Text)
    (now : ℕ)
    → Reach codec (new_memory_cache max) c
    → HasTag c key tag
    → Memᴰ tag tags
    → (get codec now key (delete_by_tags tags c)).1 ≡ err cache_miss
unfolding get
Reach-get-delete_by_tags codec max c tags key tag now r h m =
    let v = Reach-Inv codec r (new_memory_cache-Inv max) in
    rw (delete_by_tags_removes c tags key tag v.linked h m)

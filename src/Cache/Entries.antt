-- ===== src/Cache/Entries.antt =====
-- orm/memory.go: which entries an operation removes, and which it leaves.
use mathlib.Core.List.{Memᴰ}
use fyer_webframe.Base.{
  ◌≡◌, ◌≢◌, ◌⊎◌, inl, inr, refl, sym, ◌∙◌, List, [], ◌∷◌, ◌++◌, none, some, arith,
}
use fyer_webframe.Base.Text.{Text}
use fyer_webframe.Base.Map.{Map, lookup, delete, keys, lookup-delete}
use fyer_webframe.Cache.{
  KeySet, MemoryCache, drop_key, drop_keys, delete_by_tags, collect_keys, keys_of,
}
use fyer_webframe.Cache.Tags.{tagged, collect_keys-Memᴰ}
use fyer_webframe.Cache.Invalidation.{IsLinked, HasTag}

drop_keys-none :
    (ks : List Text) (c : MemoryCache) (key : Text)
    → lookup key c.data_of ≡ none
    → lookup key (drop_keys ks c).data_of ≡ none
unfolding drop_keys drop_key
drop_keys-none [] c key e = e
drop_keys-none (k ∷ ks) c key e =
    drop_keys-none ks (drop_key k c) key (ground (arith, lookup-delete k key c.data_of))

pub drop_keys_dropped :
    (ks : List Text) (c : MemoryCache) (key : Text)
    → Memᴰ key ks
    → lookup key (drop_keys ks c).data_of ≡ none
unfolding drop_keys drop_key
drop_keys_dropped [] c key m = elim m [ ]
drop_keys_dropped (k ∷ ks) c key (Memᴰ.head e) =
    drop_keys-none ks (drop_key k c) key (ground (arith, lookup-delete k key c.data_of))
drop_keys_dropped (k ∷ ks) c key (Memᴰ.tail m) = drop_keys_dropped ks (drop_key k c) key m

drop_keys_kept :
    (ks : List Text) (c : MemoryCache) (key : Text)
    → ¬ Memᴰ key ks
    → lookup key (drop_keys ks c).data_of ≡ lookup key c.data_of
unfolding drop_keys drop_key
drop_keys_kept [] c key absent = refl
drop_keys_kept (k ∷ ks) c key absent =
    let other : k ≢ key = λ e. absent (Memᴰ.head (sym e)) in
    drop_keys_kept ks (drop_key k c) key (λ m. absent (Memᴰ.tail m))
    ∙ ground (arith, lookup-delete k key c.data_of)

-- In a cache whose tags are linked, DeleteByTags removes every key that has one of the tags.
pub delete_by_tags_removes :
    (c : MemoryCache) (tags : List Text) (key tag : Text)
    → IsLinked c
    → HasTag c key tag
    → Memᴰ tag tags
    → lookup key (delete_by_tags tags c).data_of ≡ none
unfolding delete_by_tags
delete_by_tags_removes c tags key tag linked h m =
    drop_keys_dropped (collect_keys tags c.tag_to_keys).0 _ key
      (collect_keys-Memᴰ tags c.tag_to_keys tag key m (linked key tag h))

-- A key that is collected stands in the set of one of the tags.
keys-Memᴰ : (key : Text) (ks : KeySet) → Memᴰ key (keys ks) → lookup key ks ≡ some tt
unfolding lookup
keys-Memᴰ key [] m = elim m [ ]
keys-Memᴰ key ((k, tt) ∷ ks) (Memᴰ.head e) = ground arith
keys-Memᴰ key ((k, tt) ∷ ks) (Memᴰ.tail m) = ground (arith, keys-Memᴰ key ks m)

append-Memᴰ : (a : Text) (s t : List Text) → Memᴰ a (s ++ t) → Memᴰ a s ⊎ Memᴰ a t
append-Memᴰ a [] t m = inr m
append-Memᴰ a (x ∷ s) t (Memᴰ.head e) = inl (Memᴰ.head e)
append-Memᴰ a (x ∷ s) t (Memᴰ.tail m) = elim (append-Memᴰ a s t m) [
  | inl h ↦ inl (Memᴰ.tail h)
  | inr h ↦ inr h
]

tagged_of_delete :
    (gone tag key : Text) (m : Map KeySet)
    → tagged (delete gone m) tag key ≡ some tt
    → tagged m tag key ≡ some tt
unfolding lookup
tagged_of_delete gone tag key m e = ground (arith, lookup-delete gone tag m)

collect_keys_only :
    (tags : List Text) (m : Map KeySet) (key : Text)
    → Memᴰ key (collect_keys tags m).0
    → (tag : Text) × Memᴰ tag tags × (tagged m tag key ≡ some tt)
unfolding collect_keys
collect_keys_only [] m key h = elim h [ ]
collect_keys_only (t ∷ ts) m key h =
    elim (append-Memᴰ key (keys (keys_of (lookup t m))) (collect_keys ts (delete t m)).0 h) [
      | inl here ↦ (t, Memᴰ.head refl, keys-Memᴰ key (keys_of (lookup t m)) here)
      | inr later ↦
          let (tag, listed, e) = collect_keys_only ts (delete t m) key later in
          (tag, Memᴰ.tail listed, tagged_of_delete t tag key m e)
    ]

-- DeleteByTags leaves the entry of a key that stands in no set of the tags.
pub delete_by_tags_keeps :
    (c : MemoryCache) (tags : List Text) (key : Text)
    → ((tag : Text) → Memᴰ tag tags → tagged c.tag_to_keys tag key ≡ none)
    → lookup key (delete_by_tags tags c).data_of ≡ lookup key c.data_of
unfolding delete_by_tags
delete_by_tags_keeps c tags key apart =
    drop_keys_kept (collect_keys tags c.tag_to_keys).0 _ key λ m.
      let (tag, listed, e) = collect_keys_only tags c.tag_to_keys key m in
      let never = apart tag listed in cc

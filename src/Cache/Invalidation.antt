-- ===== src/Cache/Invalidation.antt =====
-- orm/memory.go: every tag that a key was given leads back to it, so DeleteByTags misses no key.
use mathlib.Core.List.{Memᴰ}
use fyer_webframe.Base.{◌≡◌, ◌≢◌, ◌⊎◌, inl, inr, refl, sym, ◌∙◌, List, [], ◌∷◌, some, arith}
use mathlib.Core.Path.{subst}
use fyer_webframe.Base.Text.{Text, text_dec}
use fyer_webframe.Base.Map.{lookup, delete, lookup-insert, lookup-delete}
use fyer_webframe.Cache.{
  MemoryCache, tags_of, link_all, delete_key, delete_keys, drop_key, drop_keys, delete_by_tags,
  tag_key, collect_keys,
}
use fyer_webframe.Cache.Tags.{
  tagged, tagged-unlink_all, tagged-link_all_ne, tagged-link_all_self, tagged-drop_links,
  collect_keys-cases,
}

-- The key has the tag, as the cache remembers it.
abbrev pub HasTag : MemoryCache → Text → Text → Type 0
HasTag c key tag = (tags : List Text) × (lookup key c.key_to_tags ≡ some tags) × Memᴰ tag tags

-- Every tag of a key holds the key in its set.
abbrev pub IsLinked : MemoryCache → Type 0
IsLinked c = (key tag : Text) → HasTag c key tag → tagged c.tag_to_keys tag key ≡ some tt

-- The same but for some keys that are still to be dropped.
abbrev IsLinkedBut : List Text → MemoryCache → Type 0
IsLinkedBut ks c =
    (key tag : Text) → HasTag c key tag → Memᴰ key ks ⊎ (tagged c.tag_to_keys tag key ≡ some tt)

-- A key that is deleted from the tags had none of the others' tags.
HasTag-delete :
    (c d : MemoryCache) (k key tag : Text)
    → d.key_to_tags ≡ delete k c.key_to_tags
    → HasTag d key tag
    → (k ≢ key) × HasTag c key tag
HasTag-delete c d k key tag e (tags, q, m) =
    let gone = lookup-delete k key c.key_to_tags in
    (ground (arith, gone), (tags, ground (arith, gone), m))

pub delete_key-IsLinked : (k : Text) (c : MemoryCache) → IsLinked c → IsLinked (delete_key k c)
unfolding delete_key
delete_key-IsLinked k c linked key tag h =
    let (ne, h') = HasTag-delete c (delete_key k c) k key tag refl h in
    tagged-unlink_all k (tags_of (lookup k c.key_to_tags)) c.tag_to_keys tag key ne
    ∙ linked key tag h'

pub delete_keys-IsLinked :
    (ks : List Text) (c : MemoryCache) → IsLinked c → IsLinked (delete_keys ks c)
unfolding delete_keys
delete_keys-IsLinked [] c linked = linked
delete_keys-IsLinked (k ∷ ks) c linked =
    delete_keys-IsLinked ks (delete_key k c) (delete_key-IsLinked k c linked)

pub tag_key-IsLinked :
    (key : Text) (tags : List Text) (c : MemoryCache) → IsLinked c → IsLinked (tag_key key tags c)
tag_key-IsLinked key [] c linked j tag h = linked j tag h
tag_key-IsLinked key (t ∷ ts) c linked j tag (tags, q, m) =
    let written = lookup-insert key j (t ∷ ts) c.key_to_tags in
    elim (text_dec key j) [
      | yes e ↦
          subst (λ x. tagged (link_all key (t ∷ ts) c.tag_to_keys) tag x ≡ some tt) e
            (tagged-link_all_self key (t ∷ ts) c.tag_to_keys tag
              (subst (Memᴰ tag) (ground (arith, written)) m))
      | no e ↦
          tagged-link_all_ne key (t ∷ ts) c.tag_to_keys tag j e
          ∙ linked j tag (tags, ground (arith, written), m)
    ]

drop_key-IsLinkedBut :
    (k : Text) (ks : List Text) (c : MemoryCache)
    → IsLinkedBut (k ∷ ks) c
    → IsLinkedBut ks (drop_key k c)
unfolding drop_key
drop_key-IsLinkedBut k ks c linked key tag h =
    let (ne, h') = HasTag-delete c (drop_key k c) k key tag refl h in
    let kept = tagged-drop_links k (tags_of (lookup k c.key_to_tags)) c.tag_to_keys tag key ne in
    elim (linked key tag h') [
      | inl (Memᴰ.head e) ↦ absurd (ne (sym e))
      | inl (Memᴰ.tail m) ↦ inl m
      | inr e ↦ inr (kept ∙ e)
    ]

drop_keys-IsLinked :
    (ks : List Text) (c : MemoryCache) → IsLinkedBut ks c → IsLinked (drop_keys ks c)
unfolding drop_keys
drop_keys-IsLinked [] c linked key tag h = elim (linked key tag h) [
  | inl m ↦ elim m [ ]
  | inr e ↦ e
]
drop_keys-IsLinked (k ∷ ks) c linked key tag h =
    drop_keys-IsLinked ks (drop_key k c) (drop_key-IsLinkedBut k ks c linked) key tag h

pub delete_by_tags-IsLinked :
    (tags : List Text) (c : MemoryCache) → IsLinked c → IsLinked (delete_by_tags tags c)
unfolding delete_by_tags
delete_by_tags-IsLinked tags c linked =
    drop_keys-IsLinked (collect_keys tags c.tag_to_keys).0 _
      (λ key tag h. collect_keys-cases tags c.tag_to_keys tag key (linked key tag h))

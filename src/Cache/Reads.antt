-- ===== src/Cache/Reads.antt =====
-- orm/memory.go: what Get reads after Set, and the tags that a key keeps after it was tagged anew.
use fyer_webframe.Base.{
  ℕ, ◌+◌, ◌≤◌, ◌<◌, ◌≡◌, ◌⊎◌, inl, inr, refl, List, [], ◌∷◌, none, some, arith, Option-cases,
}
use mathlib.Core.List.{Memᴰ}
use fyer_webframe.Base.Text.{Text}
use fyer_webframe.Base.Map.{lookup, lookup-delete, lookup-insert_self}
use fyer_webframe.Cache.{
  Codec, MemoryCache, ok, err, cache_miss, unmarshalled, get, set, set_with_tags, delete_key,
  make_room, expires_at, delete_by_tags, collect_keys, tag_key,
}
use fyer_webframe.Cache.Tags.{tagged, tagged-link_all_keeps, collect_keys-Memᴰ}
use fyer_webframe.Cache.Entries.{drop_keys_dropped}

module _ {V : Type 0} (codec : Codec V) (visited : List Text) (now : ℕ) (key : Text) (value : V)
    (ttl : ℕ) (c : MemoryCache) where
  written-lookup :
      (bytes : Text)
      → codec.marshal value ≡ some bytes
      → lookup key (set codec visited now key value ttl c).0.data_of
        ≡ some (record { value = bytes; expiration = expires_at now ttl })
  unfolding set
  written-lookup bytes e = rw e (lookup-insert_self key _ _)

  -- Until the entry expires, Get reads the value that Set wrote, where encoding/json reads back
  -- what it wrote.
  pub get-set :
      (bytes : Text) (later : ℕ)
      → codec.marshal value ≡ some bytes
      → codec.unmarshal bytes ≡ some value
      → (ttl ≡ 0) ⊎ (later ≤ now + ttl)
      → get codec later key (set codec visited now key value ttl c).0
        ≡ ((set codec visited now key value ttl c).0, ok value)
  unfolding get
  get-set bytes later e d fresh = ground (arith, written-lookup bytes e)

  -- Read at another type, the entry is what encoding/json makes of its bytes there.
  pub get-set_bytes :
      {W : Type 0} (other : Codec W) (bytes : Text) (later : ℕ)
      → codec.marshal value ≡ some bytes
      → (ttl ≡ 0) ⊎ (later ≤ now + ttl)
      → (get other later key (set codec visited now key value ttl c).0).1
        ≡ unmarshalled (other.unmarshal bytes)
  unfolding get
  get-set_bytes other bytes later e fresh = ground (arith, written-lookup bytes e)

  -- After the entry that Set wrote has expired, Get misses and removes it.
  pub get-set_expired :
      (bytes : Text) (later : ℕ)
      → codec.marshal value ≡ some bytes
      → 0 < ttl
      → now + ttl < later
      → let r = get codec later key (set codec visited now key value ttl c).0 in
        (r.1 ≡ err cache_miss) × (lookup key r.0.data_of ≡ none)
  unfolding get delete_key
  get-set_expired bytes later e pos old = (
    ground (arith, written-lookup bytes e),
    ground (
      arith,
      written-lookup bytes e,
      lookup-delete key key (set codec visited now key value ttl c).0.data_of,
    ),
  )

tag_key-tagged :
    (key : Text) (tags : List Text) (t : Text) (c : MemoryCache)
    → tagged c.tag_to_keys t key ≡ some tt
    → tagged (tag_key key tags c).tag_to_keys t key ≡ some tt
tag_key-tagged key [] t c e = e
tag_key-tagged key (tag ∷ tags) t c e = tagged-link_all_keeps key (tag ∷ tags) c.tag_to_keys t e

delete_by_tags-tagged :
    (tags : List Text) (tag key : Text) (c : MemoryCache)
    → Memᴰ tag tags
    → tagged c.tag_to_keys tag key ≡ some tt
    → lookup key (delete_by_tags tags c).data_of ≡ none
unfolding delete_by_tags
delete_by_tags-tagged tags tag key c m t =
    drop_keys_dropped (collect_keys tags c.tag_to_keys).0 _ key
      (collect_keys-Memᴰ tags c.tag_to_keys tag key m t)

make_room_unbounded :
    (visited : List Text) (c : MemoryCache) → c.max_entries ≡ 0 → make_room visited c ≡ c
make_room_unbounded visited c e = ground arith

module _ {V : Type 0} (codec : Codec V) (visited : List Text) (now : ℕ) (key : Text) (value : V)
    (ttl : ℕ) (old : Text) (tags : List Text) (c : MemoryCache) where
  set_with_tags-tagged :
      c.max_entries ≡ 0
      → tagged c.tag_to_keys old key ≡ some tt
      → tagged (set_with_tags codec visited now key value ttl tags c).0.tag_to_keys old key
        ≡ some tt
  unfolding set_with_tags set
  set_with_tags-tagged unbounded t = elim (Option-cases (codec.marshal value)) [
    | inl e ↦ rw e t
    | inr (bytes, e) ↦
        rw e (tag_key-tagged key tags old _ (rw (make_room_unbounded visited c unbounded) t))
  ]

  -- In a cache without a bound, after SetWithTags wrote a key again with any other tags,
  -- DeleteByTags of a tag that the key had before still removes the entry.
  pub delete_by_tags_retagged :
      c.max_entries ≡ 0
      → tagged c.tag_to_keys old key ≡ some tt
      → lookup key
          (delete_by_tags
            (old ∷ [])
            (set_with_tags codec visited now key value ttl tags c).0).data_of
        ≡ none
  delete_by_tags_retagged unbounded t =
      delete_by_tags-tagged (old ∷ []) old key _ (Memᴰ.head refl) (set_with_tags-tagged unbounded t)

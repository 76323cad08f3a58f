-- ===== src/Cache.antt =====
-- orm/memory.go: the in-memory cache, whose operations are functions on its state. The time is an
-- argument, and `visited` is the order in which `range` visits the keys. A bound of 0 stands for
-- every bound that is not positive, and an expiration of 0 for none.
pub mod Entries
pub mod Bound
pub mod History
pub mod Reads
pub mod Tags
pub mod Invalidation
pub mod Tests
use fyer_webframe.Base.{
  ℕ, ◌+◌, ◌/◌, Bool, true, false, ◌&&◌, List, [], ◌∷◌, ◌++◌, Option, none, some, ltb, leb,
  if◌then◌else◌, length, take,
}
use fyer_webframe.Base.Text.{Text}
use fyer_webframe.Base.Map.{Map, lookup, insert, delete, keys}

-- encoding/json, at the type of the values.
pub record Codec (V : Type 0) : Type 0 where
  pub marshal : V → Option Text
  pub unmarshal : Text → Option V

pub record Item : Type 0 where
  pub value : Text
  pub expiration : ℕ

-- map[string]struct{}
abbrev pub KeySet : Type 0
KeySet = Map (Unit {0})

pub record MemoryCache : Type 0 where
  pub data_of : Map Item
  pub tag_to_keys : Map KeySet
  pub key_to_tags : Map (List Text)
  pub max_entries : ℕ

pub data CacheError : Type 0 where
  cache_miss : CacheError
  marshal_failed : CacheError
  unmarshal_failed : CacheError

-- NewMemoryCache, with its bound.
unfoldable pub new_memory_cache : ℕ → MemoryCache
new_memory_cache max = record {
  data_of = [];
  tag_to_keys = [];
  key_to_tags = [];
  max_entries = max;
}

-- The keys of a tag; reading a tag that is not there gives the empty map.
abbrev pub keys_of : Option KeySet → KeySet
keys_of none = []
keys_of (some ks) = ks

abbrev pub put_keys : Text → KeySet → Map KeySet → Map KeySet
put_keys tag [] m = delete tag m
put_keys tag (k ∷ ks) m = insert tag (k ∷ ks) m

-- One round of delete's loop: the key leaves a tag, and an empty tag leaves the map.
unfoldable pub unlink : Text → Text → Map KeySet → Map KeySet
unlink key tag m = put_keys tag (delete key (keys_of (lookup tag m))) m

unfoldable pub unlink_all : Text → List Text → Map KeySet → Map KeySet
unlink_all key [] m = m
unlink_all key (tag ∷ tags) m = unlink_all key tags (unlink key tag m)

abbrev pub tags_of : Option (List Text) → List Text
tags_of none = []
tags_of (some tags) = tags

-- delete
unfoldable pub delete_key : Text → MemoryCache → MemoryCache
delete_key key c = record c {
  data_of = delete key c.data_of;
  tag_to_keys = unlink_all key (tags_of (lookup key c.key_to_tags)) c.tag_to_keys;
  key_to_tags = delete key c.key_to_tags;
}

unfoldable pub delete_keys : List Text → MemoryCache → MemoryCache
delete_keys [] c = c
delete_keys (k ∷ ks) c = delete_keys ks (delete_key k c)

-- evict: a quarter of the entries, and at least one, in the order visited.
unfoldable pub evict : List Text → MemoryCache → MemoryCache
evict visited c =
    let quarter = length c.data_of / 4 in
    let to_delete = if ltb quarter 1 then 1 else quarter in delete_keys (take to_delete visited) c

abbrev pub is_expired : ℕ → Item → Bool
is_expired now i = ltb 0 i.expiration && ltb i.expiration now

unfoldable pub expired_keys : ℕ → Map Item → List Text
expired_keys now [] = []
expired_keys now ((k, i) ∷ m) =
    let rest = expired_keys now m in if is_expired now i then k ∷ rest else rest

-- deleteExpired
unfoldable pub delete_expired : ℕ → MemoryCache → MemoryCache
delete_expired now c = delete_keys (expired_keys now c.data_of) c

-- What a read or a write gives back.
pub data Outcome {ℓ} (A : Type ℓ) : Type ℓ where
  ok : A → Outcome A
  err : CacheError → Outcome A

abbrev pub unmarshalled {ℓ} : {V : Type ℓ} → Option V → Outcome V
unmarshalled none = err unmarshal_failed
unmarshalled (some v) = ok v

abbrev pub make_room : List Text → MemoryCache → MemoryCache
make_room visited c =
    if ltb 0 c.max_entries && leb c.max_entries (length c.data_of) then evict visited c else c

abbrev pub expires_at : ℕ → ℕ → ℕ
expires_at now ttl = if ltb 0 ttl then now + ttl else 0

module _ {V : Type 0} (codec : Codec V) where
  abbrev pub read_item : ℕ → Text → Option Item → MemoryCache → MemoryCache × Outcome V
  read_item now key none c = (c, err cache_miss)
  read_item now key (some i) c =
      if is_expired now i
      then (delete_key key c, err cache_miss)
      else (c, unmarshalled (codec.unmarshal i.value))

  -- Get
  unfoldable pub get : ℕ → Text → MemoryCache → MemoryCache × Outcome V
  get now key c = read_item now key (lookup key c.data_of) c

  abbrev pub store_bytes :
      List Text → ℕ → Text → ℕ → Option Text → MemoryCache → MemoryCache × Outcome (Unit {0})
  store_bytes visited now key ttl none c = (c, err marshal_failed)
  store_bytes visited now key ttl (some bytes) c =
      let roomy = make_room visited c in
      (
        record roomy {
          data_of =
              insert key (record { value = bytes; expiration = expires_at now ttl }) roomy.data_of;
        },
        ok tt,
      )

  -- Set
  unfoldable pub set : List Text → ℕ → Text → V → ℕ → MemoryCache → MemoryCache × Outcome (Unit {0})
  set visited now key value ttl c = store_bytes visited now key ttl (codec.marshal value) c

-- One tag takes the key.
unfoldable pub link : Text → Text → Map KeySet → Map KeySet
link key tag m = insert tag (insert key tt (keys_of (lookup tag m))) m

unfoldable pub link_all : Text → List Text → Map KeySet → Map KeySet
link_all key [] m = m
link_all key (tag ∷ tags) m = link_all key tags (link key tag m)

abbrev pub tag_key : Text → List Text → MemoryCache → MemoryCache
tag_key key [] c = c
tag_key key (tag ∷ tags) c = record c {
  key_to_tags = insert key (tag ∷ tags) c.key_to_tags;
  tag_to_keys = link_all key (tag ∷ tags) c.tag_to_keys;
}

abbrev pub tag_after :
    Text → List Text → MemoryCache × Outcome (Unit {0}) → MemoryCache × Outcome (Unit {0})
tag_after key tags (c, ok u) = (tag_key key tags c, ok u)
tag_after key tags (c, err e) = (c, err e)

-- SetWithTags
unfoldable pub set_with_tags :
    {V : Type 0}
    → Codec V
    → List Text
    → ℕ
    → Text
    → V
    → ℕ
    → List Text
    → MemoryCache
    → MemoryCache × Outcome (Unit {0})
set_with_tags codec visited now key value ttl tags c =
    tag_after key tags (set codec visited now key value ttl c)

-- The keys that the tags hold, and the map without those tags.
unfoldable pub collect_keys : List Text → Map KeySet → List Text × Map KeySet
collect_keys [] m = ([], m)
collect_keys (tag ∷ tags) m =
    let later = collect_keys tags (delete tag m) in
    (keys (keys_of (lookup tag m)) ++ later.0, later.1)

-- The key leaves the tags that are still there.
abbrev pub drop_link : Text → Text → Option KeySet → Map KeySet → Map KeySet
drop_link key tag none m = m
drop_link key tag (some ks) m = insert tag (delete key ks) m

unfoldable pub drop_links : Text → List Text → Map KeySet → Map KeySet
drop_links key [] m = m
drop_links key (tag ∷ tags) m = drop_links key tags (drop_link key tag (lookup tag m) m)

unfoldable pub drop_key : Text → MemoryCache → MemoryCache
drop_key key c = record c {
  data_of = delete key c.data_of;
  tag_to_keys = drop_links key (tags_of (lookup key c.key_to_tags)) c.tag_to_keys;
  key_to_tags = delete key c.key_to_tags;
}

unfoldable pub drop_keys : List Text → MemoryCache → MemoryCache
drop_keys [] c = c
drop_keys (k ∷ ks) c = drop_keys ks (drop_key k c)

-- DeleteByTags
unfoldable pub delete_by_tags : List Text → MemoryCache → MemoryCache
delete_by_tags tags c =
    let found = collect_keys tags c.tag_to_keys in
    drop_keys found.0 (record c { tag_to_keys = found.1 })

-- Clear
unfoldable pub clear : MemoryCache → MemoryCache
clear c = record c { data_of = []; tag_to_keys = []; key_to_tags = [] }

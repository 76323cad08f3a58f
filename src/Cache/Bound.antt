-- ===== src/Cache/Bound.antt =====
-- orm/memory.go: the states that a cache reaches, and what holds in all of them.
use mathlib.Core.List.{Memᴰ, Perm, mem-cons_self}
use mathlib.Core.HLevel.{⊥_prop}
use mathlib.Core.List.Perm
use mathlib.Core.Logic.{∥∥₁_elim}
use fyer_webframe.Base.{
  ℕ, zero, suc, ◌/◌, ◌≤◌, ◌<◌, ◌≡◌, ◌≢◌, refl, List, [], ◌∷◌, none, arith, if◌then◌else◌, length,
  take, ltb,
}
use fyer_webframe.Base.Text.{Text}
use fyer_webframe.Base.Map.{Map, lookup, keys, length-delete-le, length-delete-lt}
use fyer_webframe.Cache.{
  Item, MemoryCache, delete_key, delete_keys, drop_key, drop_keys, make_room, evict,
}

-- The order in which `range` visits the keys of a map.
abbrev pub Visits : List Text → MemoryCache → Type 0
Visits visited c = Perm visited (keys c.data_of)

-- The cache holds no more entries than its bound allows.
abbrev pub IsBounded : MemoryCache → Type 0
IsBounded c = 0 < c.max_entries → length c.data_of ≤ c.max_entries

pub delete_keys-max :
    (ks : List Text) (c : MemoryCache) → (delete_keys ks c).max_entries ≡ c.max_entries
unfolding delete_keys delete_key
delete_keys-max [] c = refl
delete_keys-max (k ∷ ks) c = delete_keys-max ks (delete_key k c)

delete_keys-le :
    (ks : List Text) (c : MemoryCache) → length (delete_keys ks c).data_of ≤ length c.data_of
unfolding delete_keys delete_key
delete_keys-le [] c = omega arith
delete_keys-le (k ∷ ks) c =
    omega (arith, delete_keys-le ks (delete_key k c), length-delete-le k c.data_of)

pub drop_keys-max :
    (ks : List Text) (c : MemoryCache) → (drop_keys ks c).max_entries ≡ c.max_entries
unfolding drop_keys drop_key
drop_keys-max [] c = refl
drop_keys-max (k ∷ ks) c = drop_keys-max ks (drop_key k c)

pub drop_keys-le :
    (ks : List Text) (c : MemoryCache) → length (drop_keys ks c).data_of ≤ length c.data_of
unfolding drop_keys drop_key
drop_keys-le [] c = omega arith
drop_keys-le (k ∷ ks) c =
    omega (arith, drop_keys-le ks (drop_key k c), length-delete-le k c.data_of)

keys-lookup : (k : Text) (m : Map Item) → Memᴰ k (keys m) → lookup k m ≢ none
unfolding lookup
keys-lookup k [] h = elim h [ ]
keys-lookup k ((j, i) ∷ m) (Memᴰ.head e) = ground arith
keys-lookup k ((j, i) ∷ m) (Memᴰ.tail h) = ground (arith, keys-lookup k m h)

keys-visited :
    (k : Text) (vs : List Text) (m : Map Item) → Perm (k ∷ vs) (keys m) → lookup k m ≢ none
keys-visited k vs m p e = ∥∥₁_elim (Perm.subset p k mem-cons_self) ⊥_prop (λ h. keys-lookup k m h e)

delete_taken-lt :
    (n : ℕ) (k : Text) (vs : List Text) (c : MemoryCache)
    → 0 < n
    → lookup k c.data_of ≢ none
    → length (delete_keys (take n (k ∷ vs)) c).data_of < length c.data_of
unfolding delete_keys delete_key
delete_taken-lt zero k vs c pos there = elim pos [ ]
delete_taken-lt (suc n) k vs c pos there =
    omega (arith, delete_keys-le (take n vs) (delete_key k c), length-delete-lt k c.data_of there)

no_keys : (m : Map Item) → [] ≡ keys m → length m ≡ 0
no_keys [] e = refl
no_keys ((k, i) ∷ m) e = cc

-- Eviction makes room when there is an entry.
evict-lt :
    (visited : List Text) (c : MemoryCache)
    → Visits visited c
    → 0 < length c.data_of
    → length (evict visited c).data_of < length c.data_of
unfolding evict
evict-lt [] c v h = absurd (omega (arith, no_keys c.data_of (Perm.nil-eq v)))
evict-lt (k ∷ vs) c v h =
    delete_taken-lt (if ltb (length c.data_of / 4) 1 then 1 else length c.data_of / 4) k vs c
      (ground arith) (keys-visited k vs c.data_of v)

pub delete_keys-IsBounded :
    (ks : List Text) (c : MemoryCache) → IsBounded c → IsBounded (delete_keys ks c)
delete_keys-IsBounded ks c b =
    rw (delete_keys-max ks c) (λ h. omega (arith, delete_keys-le ks c, b h))

pub evict-max :
    (visited : List Text) (c : MemoryCache) → (evict visited c).max_entries ≡ c.max_entries
unfolding evict
evict-max visited c = delete_keys-max _ c

-- After make_room there is a free place, where the cache is bounded.
pub make_room-lt :
    (visited : List Text) (c : MemoryCache)
    → Visits visited c
    → IsBounded c
    → 0 < (make_room visited c).max_entries
    → length (make_room visited c).data_of < (make_room visited c).max_entries
make_room-lt visited c v b = ground (arith, evict-lt visited c v, evict-max visited c)

pub make_room-max :
    (visited : List Text) (c : MemoryCache) → (make_room visited c).max_entries ≡ c.max_entries
make_room-max visited c = ground (arith, evict-max visited c)

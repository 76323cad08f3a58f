-- ===== src/QueryCache/Reads.antt =====
-- orm/selector.go, Get and GetMulti: when a read is answered from the cache, and when from the
-- database.
use fyer_webframe.Base.{
  ℕ, ◌+◌, ◌≤◌, ◌≡◌, ◌⊎◌, refl, sym, ap, ◌∙◌, Bool, true, false, not, ◌&&◌, List, [], ◌∷◌, ◌++◌,
  Option, none, some, arith, if◌then◌else◌,
}
use mathlib.Core.List.{Memᴰ}
use mathlib.Core.Path.{subst}
use fyer_webframe.Base.Text.{Text, codes}
use fyer_webframe.Cache.{
  Codec, MemoryCache, CacheError, Outcome, ok, err, cache_miss, unmarshalled, get, set,
  set_with_tags, tag_after, new_memory_cache,
}
use fyer_webframe.Cache.Invalidation.{HasTag}
use fyer_webframe.Cache.History.{Reach, Reach-get-delete_by_tags}
use fyer_webframe.Cache.Reads.{get-set_bytes}
use fyer_webframe.QueryCache.{
  Query, CacheManager, default_key_generator, config_of, own_key, generated, generate_key,
  should_cache, Selector, Database, context_of, ttl_of, tags_for, stored_with, cache_result,
  hit_or_query, uncached, with_key, select_cached, without_tags, get_tags, get_ttl,
  invalidate_cache, ModelCacheConfig,
}

-- The read goes through the cache.
abbrev pub IsCached : {A : Type 0} → Selector A → CacheManager A → Type 0
IsCached s cm = (s.use_cache && cm.enabled && should_cache cm (context_of s)) ≡ true

-- The keys of the table are those of the default generator.
abbrev pub config_generator :
    {A : Type 0} → Option (ModelCacheConfig A) → Option (Text → Query A → Text)
config_generator none = none
config_generator (some config) = config.key_generator

abbrev pub default_key : Text → Text → Text
default_key table sql = table ++ codes ":" ++ codes "query" ++ codes ":" ++ sql

module _ {A : Type 0} where
  -- The default key, which leaves the arguments out.
  abbrev pub HasDefaultKey : Text → CacheManager A → Type 0
  HasDefaultKey table cm =
      (cm.key_generator ≡ default_key_generator) × (config_generator (config_of table cm) ≡ none)

  generated-default :
      (cm : CacheManager A) (s : Selector A) (config : Option (ModelCacheConfig A))
      → cm.key_generator ≡ default_key_generator
      → config_generator config ≡ none
      → generated cm (context_of s) s.table config ≡ default_key s.table s.query.sql
  unfolding default_key_generator
  generated-default cm s none e own = ap (λ g. g s.table (codes "query") s.query) e
  generated-default cm s (some config) e own =
      ap (own_key cm (context_of s) s.table) own ∙ ap (λ g. g s.table (codes "query") s.query) e

  generate_key-default :
      (cm : CacheManager A) (s : Selector A)
      → HasDefaultKey s.table cm
      → generate_key cm (context_of s) ≡ default_key s.table s.query.sql
  unfolding generate_key
  generate_key-default cm s (e, own) = generated-default cm s (config_of s.table cm) e own

default_key-cons : (table sql : Text) → (d : ℕ) × (u : Text) × (default_key table sql ≡ d ∷ u)
default_key-cons [] sql = (b':', codes "query" ++ codes ":" ++ sql, refl)
default_key-cons (d ∷ table) sql = (d, default_key table sql, refl)

ok≢err : {V : Type 0} {v : V} {e : CacheError} → ¬ (ok v ≡ err e)
ok≢err e = cc

of_ok : {V : Type 0} {v w : V} → ok v ≡ ok w → v ≡ w
of_ok {v} {w} e = cc

tag_after-get :
    {W : Type 0} (codec : Codec W) (key : Text) (tags : List Text) (later : ℕ)
    (r : MemoryCache × Outcome (Unit {0}))
    → (get codec later key (tag_after key tags r).0).1 ≡ (get codec later key r.0).1
unfolding get
tag_after-get codec key [] later (c, ok u) = refl
tag_after-get codec key (tag ∷ tags) later (c, ok u) = ground arith
tag_after-get codec key tags later (c, err e) = refl

cache_result-answer :
    {A V St : Type 0} (codec : Codec V) (database : Database A St V) (visited : List Text)
    (now written : ℕ) (s : Selector A) (key : Text) (cm : CacheManager A) (r : St × Option V)
    → let after = cache_result codec database visited now written s key cm r in
      (after.1 ≡ r.0) × (after.2 ≡ r.1)
cache_result-answer codec database visited now written s key cm (st, none) = (refl, refl)
cache_result-answer codec database visited now written s key cm (st, some v) = (refl, refl)

-- What a read is answered with, where its entry is there: the value that it reads from it, or else
-- what the database answers.
abbrev pub reads_or_asks : {V St : Type 0} → Option V → St → St × Option V → St × Option V
reads_or_asks none st asked = asked
reads_or_asks (some v) st asked = (st, some v)

module _ {A V St : Type 0} (codec : Codec V) (database : Database A St V) (visited : List Text)
    (now written : ℕ) where
  with_key-cons :
      (s : Selector A) (key : Text) (d : ℕ) (u : Text) (cm : CacheManager A) (st : St)
      → key ≡ d ∷ u
      → with_key codec database visited now written s key cm st
        ≡ hit_or_query codec database visited now written s key cm st (get codec now key cm.cache)
  with_key-cons s key d u cm st e =
      subst
        (λ k.
          with_key codec database visited now written s k cm st
          ≡ hit_or_query codec database visited now written s k cm st (get codec now k cm.cache))
        (sym e) refl

  -- A read through the cache, where the key is the default one.
  select_cached-default :
      (s : Selector A) (cm : CacheManager A) (st : St)
      → IsCached s cm
      → HasDefaultKey s.table cm
      → let key = default_key s.table s.query.sql in
        select_cached codec database visited now written s cm st
        ≡ hit_or_query codec database visited now written s key cm st (get codec now key cm.cache)
  unfolding select_cached
  select_cached-default s cm st cached own =
      let key = default_key s.table s.query.sql in
      let (d, u, e) = default_key-cons s.table s.query.sql in
      ap
        (λ b.
          if b
          then with_key codec database visited now written s (generate_key cm (context_of s)) cm st
          else uncached codec database visited now written cm (database s.query st))
        cached
      ∙ ap (λ k. with_key codec database visited now written s k cm st)
          (generate_key-default cm s own)
      ∙ with_key-cons s key d u cm st e

  -- What another read finds of the entry, at its own type.
  stored_with-get :
      {W : Type 0} (other : Codec W) (tags : List Text) (key bytes : Text) (v : V) (ttl later : ℕ)
      (c : MemoryCache)
      → codec.marshal v ≡ some bytes
      → (ttl ≡ 0) ⊎ (later ≤ written + ttl)
      → (get other later key (stored_with codec database visited now written tags key v ttl c)).1
        ≡ unmarshalled (other.unmarshal bytes)
  unfolding set_with_tags
  stored_with-get other [] key bytes v ttl later c e fresh =
      get-set_bytes codec visited written key v ttl c other bytes later e fresh
  stored_with-get other (tag ∷ tags) key bytes v ttl later c e fresh =
      tag_after-get other key (tag ∷ tags) later (set codec visited written key v ttl c)
      ∙ get-set_bytes codec visited written key v ttl c other bytes later e fresh

  -- A read that the cache does not answer asks the database, and stores what it says.
  pub select_cached-miss :
      (s : Selector A) (cm : CacheManager A) (st : St)
      → IsCached s cm
      → HasDefaultKey s.table cm
      → let key = default_key s.table s.query.sql in
        (get codec now key cm.cache).1 ≡ err cache_miss
        → select_cached codec database visited now written s cm st
          ≡ cache_result codec database visited now written s key
              (record cm { cache = (get codec now key cm.cache).0 })
              (database s.query st)
  select_cached-miss s cm st cached own miss =
      let key = default_key s.table s.query.sql in
      select_cached-default s cm st cached own ∙ of_miss (get codec now key cm.cache) miss
    where
      of_miss :
          (r : MemoryCache × Outcome V)
          → r.1 ≡ err cache_miss
          → hit_or_query codec database visited now written s
              (default_key s.table s.query.sql)
              cm
              st
              r
            ≡ cache_result codec database visited now written s
                (default_key s.table s.query.sql)
                (record cm { cache = r.0 })
                (database s.query st)
      of_miss (c, ok v) q = absurd (ok≢err q)
      of_miss (c, err e) q = refl

  select_cached-there :
      (s : Selector A) (cm : CacheManager A) (st : St) (o : Option V)
      → IsCached s cm
      → HasDefaultKey s.table cm
      → (get codec now (default_key s.table s.query.sql) cm.cache).1 ≡ unmarshalled o
      → let after = select_cached codec database visited now written s cm st in
        let expected = reads_or_asks o st (database s.query st) in
        (after.1 ≡ expected.0) × (after.2 ≡ expected.1)
  select_cached-there s cm st o cached own there =
      let key = default_key s.table s.query.sql in
      subst
        (λ r.
          (r.1 ≡ (reads_or_asks o st (database s.query st)).0)
          × (r.2 ≡ (reads_or_asks o st (database s.query st)).1))
        (sym (select_cached-default s cm st cached own))
        (of_read (get codec now key cm.cache) o there)
    where
      of_read :
          (r : MemoryCache × Outcome V) (o : Option V)
          → r.1 ≡ unmarshalled o
          → let after =
              hit_or_query codec database visited now written s
                (default_key s.table s.query.sql)
                cm
                st
                r in
            (after.1 ≡ (reads_or_asks o st (database s.query st)).0)
            × (after.2 ≡ (reads_or_asks o st (database s.query st)).1)
      of_read (c, ok w) (some v) q = (refl, ap some (of_ok q))
      of_read (c, ok w) none q = absurd (ok≢err q)
      of_read (c, err e) (some v) q = absurd (ok≢err (sym q))
      of_read (c, err e) none q =
          cache_result-answer codec database visited now written s (default_key s.table s.query.sql)
            (record cm { cache = c }) (database s.query st)

module _ {A V St : Type 0} (codec : Codec V) (database : Database A St V) (visited : List Text)
    (now written : ℕ) where
  pub select_cached-hit :
      (s : Selector A) (cm : CacheManager A) (st : St) (v : V)
      → IsCached s cm
      → HasDefaultKey s.table cm
      → (get codec now (default_key s.table s.query.sql) cm.cache).1 ≡ ok v
      → let after = select_cached codec database visited now written s cm st in
        (after.1 ≡ st) × (after.2 ≡ some v)
  select_cached-hit s cm st v cached own hit =
      select_cached-there codec database visited now written s cm st (some v) cached own hit

-- The default key leaves the arguments of a query out: after a read through the cache that missed
-- and stored what the database answered, another read through the cache of the same table with the
-- same text of SQL, whatever its arguments are, finds the entry of the first until it expires. A
-- read of Get or GetMulti is answered with what encoding/json makes of the stored bytes at its own
-- type, without asking the database, and asks the database only where they cannot be read at that
-- type.
pub select_cached_same_sql :
    {A V W St : Type 0} (codec : Codec V) (database : Database A St V) (other_codec : Codec W)
    (other_database : Database A St W) (visited : List Text) (now written later : ℕ)
    (first other : Selector A) (cm : CacheManager A) (st done : St) (v : V) (bytes : Text)
    → IsCached first cm
    → IsCached other cm
    → HasDefaultKey first.table cm
    → other.table ≡ first.table
    → other.query.sql ≡ first.query.sql
    → (get codec now (default_key first.table first.query.sql) cm.cache).1 ≡ err cache_miss
    → database first.query st ≡ (done, some v)
    → codec.marshal v ≡ some bytes
    → (ttl_of codec database visited now written first cm ≡ 0)
      ⊎ (later ≤ written + ttl_of codec database visited now written first cm)
    → let after = select_cached codec database visited now written first cm st in
      let again =
        select_cached other_codec other_database visited later later other after.0 after.1 in
      let expected =
        reads_or_asks (other_codec.unmarshal bytes) after.1 (other_database other.query after.1) in
      (again.1 ≡ expected.0) × (again.2 ≡ expected.1)
unfolding get_tags get_ttl should_cache
select_cached_same_sql codec database other_codec other_database visited now written later first
      other cm st done v bytes cached cached_other own table sql miss answer wrote fresh =
    let key = default_key first.table first.query.sql in
    let c = (get codec now key cm.cache).0 in
    let stored : CacheManager _ = record cm {
      cache =
          stored_with codec database visited now written
            (tags_for codec database visited now written first cm) key v
            (ttl_of codec database visited now written first cm) c;
    } in
    let after_first : select_cached codec database visited now written first cm st
        ≡ (stored, done, some v) =
      select_cached-miss codec database visited now written first cm st cached own miss
      ∙ ap (cache_result codec database visited now written first key (record cm { cache = c }))
          answer in
    let same_key : default_key other.table other.query.sql ≡ key =
      ap (λ t. default_key t other.query.sql) table ∙ ap (default_key first.table) sql in
    subst
      (λ r.
        let again = select_cached other_codec other_database visited later later other r.0 r.1 in
        let expected =
          reads_or_asks (other_codec.unmarshal bytes) r.1 (other_database other.query r.1) in
        (again.1 ≡ expected.0) × (again.2 ≡ expected.1))
      (sym after_first)
      (select_cached-there other_codec other_database visited later later other stored done
        (other_codec.unmarshal bytes) cached_other (subst (λ t. HasDefaultKey t cm) (sym table) own)
        (ap (λ k. (get other_codec later k stored.cache).1) same_key
          ∙ stored_with-get codec database visited now written other_codec
              (tags_for codec database visited now written first cm) key bytes v
              (ttl_of codec database visited now written first cm) later c wrote fresh))

-- After InvalidateCache with tags, in any history of the cache, a read through the cache whose key has
-- one of the tags asks the database, and returns what it answers.
pub select_cached-invalidate_cache :
    {A V St : Type 0} (codec : Codec V) (database : Database A St V) (visited : List Text)
    (now written max : ℕ) (s : Selector A) (cm : CacheManager A) (st : St) (tag : Text)
    (tags : List Text) (table : Text)
    → Reach codec (new_memory_cache max) cm.cache
    → cm.enabled ≡ true
    → IsCached s cm
    → HasDefaultKey s.table cm
    → HasTag cm.cache (default_key s.table s.query.sql) tag
    → Memᴰ tag tags
    → let after =
        select_cached codec database visited now written s (invalidate_cache table tags cm).0 st in
      (after.1 ≡ (database s.query st).0) × (after.2 ≡ (database s.query st).1)
unfolding invalidate_cache should_cache
select_cached-invalidate_cache codec database visited now written max s cm st tag [] table reach
      enabled cached own has m =
    elim m [ ]
select_cached-invalidate_cache codec database visited now written max s cm st tag (t ∷ tags) table
      reach enabled cached own has m =
    let left = without_tags (t ∷ tags) cm in
    let key = default_key s.table s.query.sql in
    let gone : (invalidate_cache table (t ∷ tags) cm).0 ≡ left =
      ap (λ (r : CacheManager _ × Bool). r.0)
        (ap (λ b. if not b then (cm, true) else (left, false)) enabled) in
    let miss : (get codec now key left.cache).1 ≡ err cache_miss =
      Reach-get-delete_by_tags codec max cm.cache (t ∷ tags) key tag now reach has m in
    subst
      (λ x.
        let after = select_cached codec database visited now written s x st in
        (after.1 ≡ (database s.query st).0) × (after.2 ≡ (database s.query st).1))
      (sym gone)
      (subst (λ r. (r.1 ≡ (database s.query st).0) × (r.2 ≡ (database s.query st).1))
        (sym (select_cached-miss codec database visited now written s left st cached own miss))
        (cache_result-answer codec database visited now written s key _ (database s.query st)))

-- ===== src/QueryCache/Writes.antt =====
-- orm/updater.go and orm/inserter.go, Exec: what a statement does to cached results.
use fyer_webframe.Base.{
  ℕ, ◌≡◌, refl, sym, ap, ◌∙◌, Bool, true, false, not, ◌&&◌, List, [], ◌∷◌, Option, none, some,
  arith, if◌then◌else◌,
}
use mathlib.Core.List.{Memᴰ}
use mathlib.Core.Path.{subst}
use fyer_webframe.Base.Text.{Text}
use fyer_webframe.Base.Map.{lookup}
use fyer_webframe.Cache.{
  Codec, MemoryCache, ok, get, delete_by_tags, new_memory_cache, is_expired, read_item, Item,
}
use fyer_webframe.Cache.Tags.{tagged}
use fyer_webframe.Cache.Entries.{delete_by_tags_keeps}
use fyer_webframe.Cache.Invalidation.{HasTag}
use fyer_webframe.Cache.History.{Reach}
use fyer_webframe.QueryCache.{
  Query, CacheManager, Selector, Database, select_cached, without_tags, invalidate_cache, Statement,
  after_exec, exec, update_tags, exec_update, should_cache,
}
use fyer_webframe.QueryCache.Reads.{
  IsCached, HasDefaultKey, default_key, select_cached-hit, select_cached-invalidate_cache,
}

module _ {A St : Type 0} (execute : Query A → St → St × Bool) where
  after_exec-ok :
      (s : Statement A) (cm : CacheManager A) (r : St × Bool)
      → r.1 ≡ false
      → s.invalidates ≡ true
      → cm.enabled ≡ true
      → after_exec execute s cm r ≡ ((invalidate_cache s.table s.invalidate_with cm).0, r.0, false)
  after_exec-ok s cm (st, true) fine wants enabled = absurd (ground arith)
  after_exec-ok s cm (st, false) fine wants enabled =
      let changed : CacheManager A × St × Bool =
        ((invalidate_cache s.table s.invalidate_with cm).0, st, false) in
      let unchanged : CacheManager A × St × Bool = (cm, st, false) in
      subst (λ (b : Bool). (if b && cm.enabled then changed else unchanged) ≡ changed) (sym wants)
        (subst (λ (b : Bool). (if b then changed else unchanged) ≡ changed) (sym enabled) refl)

  -- After an insert or a delete that ran and was told a tag of a cached result, in any history of
  -- the cache, a read through the enabled cache with the default key of that result is answered by
  -- the database as the statement left it.
  pub select_cached-exec :
      {V : Type 0} (codec : Codec V) (database : Database A St V) (visited : List Text)
      (now written max : ℕ) (s : Selector A) (w : Statement A) (cm : CacheManager A) (st : St)
      (tag : Text)
      → Reach codec (new_memory_cache max) cm.cache
      → cm.enabled ≡ true
      → w.invalidates ≡ true
      → (execute w.query st).1 ≡ false
      → IsCached s cm
      → HasDefaultKey s.table cm
      → HasTag cm.cache (default_key s.table s.query.sql) tag
      → Memᴰ tag w.invalidate_with
      → let left = exec execute w cm st in
        let after = select_cached codec database visited now written s left.0 left.1 in
        (after.1 ≡ (database s.query (execute w.query st).0).0)
        × (after.2 ≡ (database s.query (execute w.query st).0).1)
  unfolding exec
  select_cached-exec codec database visited now written max s w cm st tag reach enabled wants fine
        cached own has m =
      let changed = (execute w.query st).0 in
      subst
        (λ left.
          let after = select_cached codec database visited now written s left.0 left.1 in
          (after.1 ≡ (database s.query changed).0) × (after.2 ≡ (database s.query changed).1))
        (sym (after_exec-ok w cm (execute w.query st) fine wants enabled))
        (select_cached-invalidate_cache codec database visited now written max s cm changed tag
          w.invalidate_with w.table reach enabled cached own has m)

if-same :
    {B C : Type 0} (b : Bool) (x y : B × C) (z w : B × C)
    → x.1 ≡ z.1
    → y.1 ≡ w.1
    → (if b then x else y).1 ≡ (if b then z else w).1
if-same true x y z w e f = e
if-same false x y z w e f = f

get-same_item :
    {V : Type 0} (codec : Codec V) (now : ℕ) (key : Text) (c d : MemoryCache)
    → lookup key d.data_of ≡ lookup key c.data_of
    → (get codec now key d).1 ≡ (get codec now key c).1
unfolding get
get-same_item codec now key c d e =
    ap (λ o. (read_item codec now key o d).1) e ∙ of_item (lookup key c.data_of)
  where
    of_item : (o : Option Item) → (read_item codec now key o d).1 ≡ (read_item codec now key o c).1
    of_item none = refl
    of_item (some i) = if-same (is_expired now i) _ _ _ _ refl refl

delete_by_tags-get :
    {V : Type 0} (codec : Codec V) (now : ℕ) (key tag : Text) (c : MemoryCache)
    → tagged c.tag_to_keys tag key ≡ none
    → (get codec now key (delete_by_tags (tag ∷ []) c)).1 ≡ (get codec now key c).1
delete_by_tags-get codec now key tag c apart =
    get-same_item codec now key c (delete_by_tags (tag ∷ []) c)
      (delete_by_tags_keeps c (tag ∷ []) key only)
  where
    only : (t : Text) → Memᴰ t (tag ∷ []) → tagged c.tag_to_keys t key ≡ none
    only t (Memᴰ.head e) = rw e apart
    only t (Memᴰ.tail m) = elim m [ ]

module _ {A St : Type 0} (execute : Query A → St → St × Bool) where
  -- An update without tags of its own deletes cached results by the name of the table, not by the
  -- tags of its model as insert and delete do: a cached result whose key is not tagged with the
  -- name of the table is read after the update as it was before, whether or not the update is to
  -- invalidate the cache.
  pub select_cached-exec_update :
      {V : Type 0} (codec : Codec V) (database : Database A St V) (visited : List Text)
      (now written : ℕ) (s : Selector A) (w : Statement A) (cm : CacheManager A) (st : St) (v : V)
      → w.invalidate_with ≡ []
      → IsCached s cm
      → HasDefaultKey s.table cm
      → tagged cm.cache.tag_to_keys w.table (default_key s.table s.query.sql) ≡ none
      → (get codec now (default_key s.table s.query.sql) cm.cache).1 ≡ ok v
      → let left = exec_update execute w cm st in
        (select_cached codec database visited now written s left.0 left.1).2 ≡ some v
  unfolding exec_update should_cache
  select_cached-exec_update codec database visited now written s w cm st v unnamed cached own apart
        hit =
      subst
        (λ tags.
          let left = updated tags (not r.1 && w.invalidates) in
          (select_cached codec database visited now written s left.0 left.1).2 ≡ some v)
        (ap (update_tags execute w) (sym unnamed)) (of_branch (not r.1 && w.invalidates))
    where
      r : St × Bool
      r = execute w.query st

      updated : List Text → Bool → CacheManager A × St × Bool
      updated tags b = if b then (without_tags tags cm, r.0, r.1) else (cm, r.0, r.1)

      of_branch :
          (b : Bool)
          → (select_cached codec database visited now written s
              (updated (w.table ∷ []) b).0
              (updated (w.table ∷ []) b).1).2
            ≡ some v
      of_branch true =
          (select_cached-hit codec database visited now written s (without_tags (w.table ∷ []) cm)
            r.0 v cached own
            (delete_by_tags-get codec now (default_key s.table s.query.sql) w.table cm.cache apart
              ∙ hit)).1
      of_branch false =
          (select_cached-hit codec database visited now written s cm r.0 v cached own hit).1

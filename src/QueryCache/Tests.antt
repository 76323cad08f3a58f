-- ===== src/QueryCache/Tests.antt =====
-- Runs of reads and writes through the cache, and the theorems on them at concrete queries.
use fyer_webframe.Base.{
  ℕ, ◌≡◌, refl, inr, Bool, true, false, List, [], ◌∷◌, ◌++◌, Option, none, some, arith,
}
use mathlib.Core.List.{Memᴰ}
use mathlib.Core.List.Perm
use fyer_webframe.Base.Text.{Text, codes, text_dec}
use fyer_webframe.Base.Map.{lookup, insert as put, delete as drop}
use fyer_webframe.Cache.{
  Codec, new_memory_cache, unlink, unlink_all, delete_key, delete_keys, evict, get, set, link,
  link_all, set_with_tags, collect_keys, drop_links, drop_key, drop_keys, delete_by_tags,
}
use fyer_webframe.Cache.History.{Step, Reach}
use fyer_webframe.QueryCache.{
  Query, CacheManager, ModelCacheConfig, new_cache_manager, set_model_cache_config, Selector,
  Statement, default_key_generator, all_met, should_cache, generate_key, get_ttl, get_tags,
  invalidate_cache, select_cached, exec, exec_update,
}
use fyer_webframe.QueryCache.Reads.{select_cached_same_sql}
use fyer_webframe.QueryCache.Writes.{select_cached-exec, select_cached-exec_update}

-- What a run opens.
querying : Unit {0}
unfolding text_dec lookup put drop new_memory_cache unlink unlink_all delete_key delete_keys evict
    get set link link_all set_with_tags collect_keys drop_links drop_key drop_keys delete_by_tags
    default_key_generator all_met should_cache generate_key get_ttl get_tags invalidate_cache
    select_cached exec exec_update
querying = tt

abbrev plain : Codec Text
plain = record { marshal = λ t. some t; unmarshal = λ t. some t }

-- A database whose state is its only text, answered behind the arguments.
abbrev answers : Query ℕ → Text → Text × Option Text
answers q st = (st, some (q.args ++ st))

-- A statement that replaces the text by its arguments.
abbrev replaces : Query ℕ → Text → Text × Bool
replaces q st = (q.args, false)

abbrev users : ModelCacheConfig ℕ
users = record {
  enabled = true;
  ttl = 100;
  tags = codes "people" ∷ [];
  key_generator = none;
  conditions = [];
}

abbrev manager : CacheManager ℕ
manager = set_model_cache_config (codes "users") users (new_cache_manager (new_memory_cache 0))

abbrev by_id : ℕ → Selector ℕ
by_id n = record {
  table = codes "users";
  query = record { sql = codes "SELECT * FROM `users` WHERE `id` = ?;"; args = n ∷ [] };
  use_cache = true;
  cache_ttl = 0;
  cache_tags = [];
  selector_any = none;
}

abbrev first : CacheManager ℕ × Text × Option Text
first = select_cached plain answers [] 5 6 (by_id 1) manager (codes "x")

-- The second user is answered with the first one.
collision : (select_cached plain answers [] 7 7 (by_id 2) first.0 first.1).2 ≡ some (1 ∷ codes "x")
unfolding querying
collision = refl

select_cached_same_sql_example :
    let again = select_cached plain answers [] 7 7 (by_id 2) first.0 first.1 in
    (again.1 ≡ first.1) × (again.2 ≡ some (1 ∷ codes "x"))
unfolding querying
select_cached_same_sql_example =
    select_cached_same_sql plain answers plain answers [] 5 6 7 (by_id 1) (by_id 2) manager
      (codes "x") (codes "x") (1 ∷ codes "x") (1 ∷ codes "x") refl refl (refl, refl) refl refl refl
      refl refl (inr (ground arith))

-- A codec that reads nothing from what `plain` wrote, as that of a list does from a struct.
abbrev listed : Codec (List Text)
listed = record { marshal = λ ts. none; unmarshal = λ t. none }

abbrev answers_all : Query ℕ → Text → Text × Option (List Text)
answers_all q st = (st, some ((q.args ++ st) ∷ []))

-- GetMulti behind Get finds nothing to read and asks the database.
multi_behind_get :
    (select_cached listed answers_all [] 7 7 (by_id 2) first.0 first.1).2
    ≡ some ((2 ∷ codes "x") ∷ [])
unfolding querying
multi_behind_get = refl

abbrev writes : List Text → Statement ℕ
writes tags = record {
  table = codes "users";
  query = record { sql = codes "UPDATE"; args = 9 ∷ [] };
  invalidates = true;
  invalidate_with = tags;
}

abbrev key : Text
key = codes "users:query:SELECT * FROM `users` WHERE `id` = ?;"

cached-Reach : Reach plain (new_memory_cache 0) first.0.cache
unfolding querying
cached-Reach =
    Reach.next (Reach.next Reach.here (Step.gets 5 key))
      (Step.sets_with_tags [] 6 key (1 ∷ codes "x") 100 (codes "people" ∷ []) (Perm.refl []))

-- A delete that names the tag: the next read asks the database.
select_cached-exec_example :
    let left = exec replaces (writes (codes "people" ∷ [])) first.0 first.1 in
    let after = select_cached plain answers [] 7 7 (by_id 1) left.0 left.1 in
    (after.1 ≡ 9 ∷ []) × (after.2 ≡ some (1 ∷ 9 ∷ []))
unfolding querying
select_cached-exec_example =
    select_cached-exec replaces plain answers [] 7 7 0 (by_id 1) (writes (codes "people" ∷ []))
      first.0 first.1 (codes "people") cached-Reach refl refl refl refl (refl, refl)
      (codes "people" ∷ [], refl, Memᴰ.head refl) (Memᴰ.head refl)

-- An update without tags deletes by the name of the table, which no result is tagged with.
select_cached-exec_update_example :
    let left = exec_update replaces (writes []) first.0 first.1 in
    (select_cached plain answers [] 7 7 (by_id 1) left.0 left.1).2 ≡ some (1 ∷ codes "x")
unfolding querying
select_cached-exec_update_example =
    select_cached-exec_update replaces plain answers [] 7 7 (by_id 1) (writes []) first.0 first.1
      (1 ∷ codes "x") refl refl (refl, refl) refl refl

-- ===== src/Sharding/Manager.antt =====
-- orm/internal/sharding/manager.go: the shards' connections. Each operation runs under the lock, but
-- GetShard is two critical sections. What database/sql and the provider answer to one call is the
-- call's argument `world`; the pool's limits are set on the connection and change nothing here.
use Prim.Native.Nat.{ℕ, suc, ◌+◌}
use fyer_webframe.Base.{Bool, true, false, List, [], ◌∷◌, Option, none, some, if◌then◌else◌, ◌==◌}
use fyer_webframe.Base.Text.{Text}
use fyer_webframe.Base.Map.{Map, lookup, insert, delete}
use fyer_webframe.Base.Int.{ℤ}
use fyer_webframe.Sharding.Router.{Router}

pub record ShardConfig : Type 0 where
  pub driver : Text
  pub dsn : Text
  pub max_idle_conn : ℤ
  pub max_open_conn : ℤ
  pub max_lifetime : ℤ
  pub options : Map Text

-- A *sql.DB: one that the manager opened, or one of the provider's.
pub data Db : Type 0 where
  own : ℕ → Db
  provided : ℕ → Db

pub record World : Type 0 where
  pub open_fails : Bool
  pub ping_fails : Bool
  pub close_fails : Db → Bool
  pub provider_db : Text → Option ℕ
  pub now : ℕ

pub record ShardStats : Type 0 where
  pub route_count : Map ℕ
  pub route_miss : ℕ
  pub fallback_count : ℕ
  pub last_access_time : Map ℕ

-- `opened` are the connections that the manager opened and nobody closed yet, and `next_db` is the
-- number of the one that sql.Open gives next.
pub record ShardedDb : Type 0 where
  pub shards : Map Db
  pub configs : Map ShardConfig
  pub router : Router
  pub default_shard : Text
  pub has_provider : Bool
  pub closed : Bool
  pub stats : ShardStats
  pub opened : List ℕ
  pub next_db : ℕ

pub data ManagerError : Type 0 where
  shard_not_found : ManagerError
  shard_already_exists : ManagerError
  no_default_shard : ManagerError
  manager_closed : ManagerError
  open_failed : ManagerError
  ping_failed : ManagerError
  close_failed : ManagerError
  provider_failed : ManagerError
  no_route : ManagerError

pub data Answer (A : Type 0) : Type 0 where
  ok : A → Answer A
  err : ManagerError → Answer A
  panics : Answer A

-- NewShardedDB
unfoldable pub new_sharded_db : Router → ShardedDb
new_sharded_db router = record {
  shards = [];
  configs = [];
  router = router;
  default_shard = [];
  has_provider = false;
  closed = false;
  stats = record { route_count = []; route_miss = 0; fallback_count = 0; last_access_time = [] };
  opened = [];
  next_db = 0;
}

-- WithDBProvider and WithDefaultShard
unfoldable pub with_db_provider : Bool → ShardedDb → ShardedDb
with_db_provider given m = record m { has_provider = given }

unfoldable pub with_default_shard : Text → ShardedDb → ShardedDb
with_default_shard name m = record m { default_shard = name }

-- db.Close: the connection is closed also where Close reports an error.
unfoldable pub forget : ℕ → List ℕ → List ℕ
forget n [] = []
forget n (k ∷ ks) = let rest = forget n ks in if k == n then rest else k ∷ rest

abbrev pub close_db : Db → ShardedDb → ShardedDb
close_db (own n) m = record m { opened = forget n m.opened }
close_db (provided n) m = m

-- sql.Open and Ping, and Close where Ping fails; the connection is stored under the name.
unfoldable pub open_shard : World → Text → ShardedDb → ShardedDb × Answer Db
open_shard world name m =
    let db = m.next_db in
    let started = record m { opened = db ∷ m.opened; next_db = suc db } in
    if world.open_fails
    then (m, err open_failed)
    else if world.ping_fails
    then (close_db (own db) started, err ping_failed)
    else (record started { shards = insert name (own db) m.shards }, ok (own db))

abbrev pub is_some : {A : Type 0} → Option A → Bool
is_some none = false
is_some (some a) = true

abbrev pub is_empty : Text → Bool
is_empty [] = true
is_empty (c ∷ cs) = false

abbrev pub added : ShardedDb × Answer Db → ShardedDb × Answer (Unit {0})
added (m, ok db) = (m, ok tt)
added (m, err e) = (m, err e)
added (m, panics) = (m, panics)

-- AddShard
unfoldable pub add_shard : World → Text → ShardConfig → ShardedDb → ShardedDb × Answer (Unit {0})
add_shard world name config m =
    let configured = record m { configs = insert name config m.configs } in
    if m.closed
    then (m, err manager_closed)
    else if is_some (lookup name m.shards)
    then (m, err shard_already_exists)
    else if is_empty config.dsn
    then (configured, ok tt)
    else added (open_shard world name configured)

abbrev pub remove_found : World → Text → Option Db → ShardedDb → ShardedDb × Answer (Unit {0})
remove_found world name none m = (m, err shard_not_found)
remove_found world name (some db) m =
    let rest = close_db db m in
    if world.close_fails db then (rest, err close_failed) else (
      record rest { shards = delete name rest.shards; configs = delete name rest.configs },
      ok tt,
    )

-- RemoveShard
unfoldable pub remove_shard : World → Text → ShardedDb → ShardedDb × Answer (Unit {0})
remove_shard world name m =
    if m.closed then (m, err manager_closed) else remove_found world name (lookup name m.shards) m

abbrev pub count_of : Option ℕ → ℕ
count_of none = 0
count_of (some n) = n

abbrev pub count_route : World → Text → ℕ → ShardedDb → ShardedDb
count_route world name n m = record m {
  stats = record m.stats {
    route_count = insert name n m.stats.route_count;
    last_access_time = insert name world.now m.stats.last_access_time;
  };
}

abbrev pub count_miss : ShardedDb → ShardedDb
count_miss m = record m { stats = record m.stats { route_miss = m.stats.route_miss + 1 } }

abbrev pub from_provider : Text → Option ℕ → ShardedDb → ShardedDb × Answer Db
from_provider name none m = (count_miss m, err provider_failed)
from_provider name (some n) m =
    (record m { shards = insert name (provided n) m.shards }, ok (provided n))

abbrev pub count_first : World → Text → ShardedDb × Answer Db → ShardedDb × Answer Db
count_first world name (m, ok db) = (count_route world name 1 m, ok db)
count_first world name (m, err e) = (m, err e)
count_first world name (m, panics) = (m, panics)

abbrev pub create_shard : World → Text → Option ShardConfig → ShardedDb → ShardedDb × Answer Db
create_shard world name none m =
    if m.has_provider
    then from_provider name (world.provider_db name) m
    else (count_miss m, err shard_not_found)
create_shard world name (some config) m = count_first world name (open_shard world name m)

abbrev pub recheck : World → Text → Option Db → ShardedDb → ShardedDb × Answer Db
recheck world name none m = create_shard world name (lookup name m.configs) m
recheck world name (some db) m = (m, ok db)

-- GetShard's second critical section, which looks again.
unfoldable pub get_shard_locked : World → Text → ShardedDb → ShardedDb × Answer Db
get_shard_locked world name m = recheck world name (lookup name m.shards) m

-- The statistics of a connection that was there.
unfoldable pub count_hit : World → Text → ShardedDb → ShardedDb
count_hit world name m = count_route world name (count_of (lookup name m.stats.route_count) + 1) m

abbrev pub get_found : World → Text → Option Db → ShardedDb → ShardedDb × Answer Db
get_found world name none m = get_shard_locked world name m
get_found world name (some db) m = (count_hit world name m, ok db)

-- GetShard, where nothing comes between its two critical sections.
unfoldable pub get_shard : World → Text → ShardedDb → ShardedDb × Answer Db
get_shard world name m = get_found world name (lookup name m.shards) m

-- GetDefaultShard
unfoldable pub get_default_shard : World → ShardedDb → ShardedDb × Answer Db
get_default_shard world m =
    if is_empty m.default_shard
    then (m, err no_default_shard)
    else get_shard world m.default_shard m

unfoldable pub close_dbs : Map Db → ShardedDb → ShardedDb
close_dbs [] m = m
close_dbs ((name, db) ∷ rest) m = close_dbs rest (close_db db m)

unfoldable pub any_fails : (Db → Bool) → Map Db → Bool
any_fails fails [] = false
any_fails fails ((name, db) ∷ rest) =
    let later = any_fails fails rest in if fails db then true else later

-- Close
unfoldable pub close : World → ShardedDb → ShardedDb × Answer (Unit {0})
close world m =
    let done = record (close_dbs m.shards m) { shards = []; closed = true } in
    if m.closed
    then (m, err manager_closed)
    else if any_fails world.close_fails m.shards
    then (done, err close_failed)
    else (done, ok tt)

-- ===== src/Sharding/Lifetime.antt =====
-- orm/internal/sharding/manager.go: the connections from NewShardedDB to Close, and after it.
use Prim.Native.Nat.{ℕ}
use fyer_webframe.Base.{◌≡◌, refl, Bool, true, false, [], none, some, if◌then◌else◌}
use mathlib.Core.List.{Memᴰ}
use fyer_webframe.Base.Text.{Text}
use fyer_webframe.Base.Map.{lookup}
use fyer_webframe.Sharding.Router.{Router}
use fyer_webframe.Sharding.Manager.{
  ShardConfig, own, World, ShardStats, ShardedDb, ok, err, manager_closed, new_sharded_db,
  with_db_provider, with_default_shard, open_shard, add_shard, remove_shard, get_shard_locked,
  get_shard, close_dbs, any_fails, close,
}
use fyer_webframe.Sharding.Connections.{
  IsHeld, add_shard-IsHeld, remove_shard-IsHeld, get_shard_locked-IsHeld, nothing-IsHeld,
  close-IsHeld, close_dbs-opened,
}

-- One critical section of some goroutine. Routing changes the router's cache and the statistics.
pub data Step (m : ShardedDb) : ShardedDb → Type 0 where
  adds :
      (world : World) (name : Text) (config : ShardConfig)
      → Step m (add_shard world name config m).0
  removes : (world : World) (name : Text) → Step m (remove_shard world name m).0
  creates : (world : World) (name : Text) → Step m (get_shard_locked world name m).0
  routes :
      (router : Router) (stats : ShardStats) → Step m (record m { router = router; stats = stats })
  gets_provider : (given : Bool) → Step m (with_db_provider given m)
  gets_default : (name : Text) → Step m (with_default_shard name m)
  closes : (world : World) → Step m (close world m).0

pub data Reach (m : ShardedDb) : ShardedDb → Type 0 where
  here : Reach m m
  next : {k l : ShardedDb} → Reach m k → Step k l → Reach m l

Step-IsHeld : {m k : ShardedDb} → Step m k → IsHeld m → IsHeld k
unfolding with_db_provider with_default_shard
Step-IsHeld {m} (adds world name config) held = add_shard-IsHeld world name config m held
Step-IsHeld {m} (removes world name) held = remove_shard-IsHeld world name m held
Step-IsHeld {m} (creates world name) held = get_shard_locked-IsHeld world name m held
Step-IsHeld (routes router stats) held = held
Step-IsHeld (gets_provider given) held = held
Step-IsHeld (gets_default name) held = held
Step-IsHeld {m} (closes world) held = close-IsHeld world m held

Reach-IsHeld : {m k : ShardedDb} → Reach m k → IsHeld m → IsHeld k
Reach-IsHeld here held = held
Reach-IsHeld (next r s) held = Step-IsHeld s (Reach-IsHeld r held)

new_sharded_db-IsHeld : (router : Router) → IsHeld (new_sharded_db router)
unfolding new_sharded_db
new_sharded_db-IsHeld router = nothing-IsHeld (new_sharded_db router) refl

-- In every interleaving of the critical sections, from a new manager on, each connection that the
-- manager opened and that was not closed stands under the name of a shard.
pub Reach-held :
    (router : Router) (m : ShardedDb) (n : ℕ)
    → Reach (new_sharded_db router) m
    → Memᴰ n m.opened
    → (name : Text) × (lookup name m.shards ≡ some (own n))
Reach-held router m n r h = Reach-IsHeld r (new_sharded_db-IsHeld router) n h

second_branch :
    {A B : Type 0} (t u : Bool) (x : A × B) (a : A) (y z : B)
    → t ≡ false
    → (if t then x else if u then (a, y) else (a, z)).0 ≡ a
second_branch true u x a y z e = cc
second_branch false true x a y z e = refl
second_branch false false x a y z e = refl

close-done :
    (world : World) (m : ShardedDb)
    → m.closed ≡ false
    → (close world m).0 ≡ record (close_dbs m.shards m) { shards = []; closed = true }
unfolding close
close-done world m e = second_branch m.closed (any_fails world.close_fails m.shards) _ _ _ _ e

-- When Close is called on a manager that is not closed, after any interleaving of critical
-- sections, all connections that the manager opened are closed and no shard is left, also where
-- closing reports errors.
pub Reach-close :
    (router : Router) (m : ShardedDb) (world : World)
    → Reach (new_sharded_db router) m
    → m.closed ≡ false
    → ((close world m).0.opened ≡ [])
      × ((close world m).0.shards ≡ [])
      × ((close world m).0.closed ≡ true)
Reach-close router m world r e =
    let none_left = close_dbs-opened m (Reach-IsHeld r (new_sharded_db-IsHeld router)) in
    rw (close-done world m e) (none_left, refl, refl)

-- Where the closed manager has the configuration of a shard that is not open, and database/sql
-- opens it, GetShard opens a connection, and another Close only answers ErrShardManagerClosed and
-- leaves it open.
pub get_shard_reopens :
    (world world' : World) (name : Text) (config : ShardConfig) (m : ShardedDb)
    → m.closed ≡ true
    → lookup name m.shards ≡ none
    → lookup name m.configs ≡ some config
    → world.open_fails ≡ false
    → world.ping_fails ≡ false
    → let reopened = get_shard world name m in
      (reopened.1 ≡ ok (own m.next_db))
      × Memᴰ m.next_db (close world' reopened.0).0.opened
      × ((close world' reopened.0).1 ≡ err manager_closed)
unfolding get_shard get_shard_locked open_shard close
get_shard_reopens world world' name config m closed absent configured opens pings =
    rw absent
      (rw absent (rw configured (rw opens (rw pings (rw closed (refl, Memᴰ.head refl, refl))))))

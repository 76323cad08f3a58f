-- ===== src/Sharding/Targets.antt =====
-- orm/internal/sharding/manager.go: the connection that Route answers with.
use fyer_webframe.Base.{
  ℕ, ◌≡◌, ◌⊎◌, inl, inr, refl, ap, ◌∙◌, Bool, true, false, [], Option, none, some, if◌then◌else◌,
}
use mathlib.Core.Path.{subst}
use fyer_webframe.Base.Text.{Text}
use fyer_webframe.Base.Map.{Map, lookup, lookup-insert_self}
use fyer_webframe.Sharding.Strategy.{Key}
use fyer_webframe.Sharding.Router.{Router, RouteResult, route_ok, route_err}
use fyer_webframe.Sharding.Manager.{
  ShardConfig, Db, own, provided, World, ShardedDb, Answer, ok, err, is_empty, open_shard,
  count_first, create_shard, from_provider, recheck, get_shard_locked, get_found, get_shard,
  get_default_shard, count_hit,
}
use fyer_webframe.Sharding.Dispatch.{Target, to_default, fall_back, to_shard, dispatched, route}

-- The default shard stays, and a connection that is given stands under the name.
record Gives (name : Text) (m : ShardedDb) (x : ShardedDb × Answer Db) : Type 0 where
  same_default : x.0.default_shard ≡ m.default_shard
  stands : (db : Db) → x.1 ≡ ok db → lookup name x.0.shards ≡ some db

if-Gives :
    {name : Text} {m : ShardedDb} (t : Bool) (x y : ShardedDb × Answer Db)
    → Gives name m x
    → Gives name m y
    → Gives name m (if t then x else y)
if-Gives true x y g h = g
if-Gives false x y g h = h

ok_inv : {A : Type 0} (a b : A) → ok a ≡ ok b → a ≡ b
ok_inv a b e = cc

open_shard-Gives :
    (world : World) (name : Text) (m : ShardedDb) → Gives name m (open_shard world name m)
unfolding open_shard
open_shard-Gives world name m =
    if-Gives world.open_fails _ _ (record { same_default = refl; stands = λ db e. cc })
      (if-Gives world.ping_fails _ _ (record { same_default = refl; stands = λ db e. cc })
        (record {
          same_default = refl;
          stands =
              λ db e. lookup-insert_self name (own m.next_db) m.shards ∙ ap some (ok_inv _ _ e);
        }))

count_first-Gives :
    (world : World) (name : Text) (m : ShardedDb) (x : ShardedDb × Answer Db)
    → Gives name m x
    → Gives name m (count_first world name x)
count_first-Gives world name m (k, ok db) g = record {
  same_default = g.same_default;
  stands = g.stands;
}
count_first-Gives world name m (k, err e) g = g
count_first-Gives world name m (k, Answer.panics) g = g

from_provider-Gives :
    (name : Text) (o : Option ℕ) (m : ShardedDb) → Gives name m (from_provider name o m)
from_provider-Gives name none m = record { same_default = refl; stands = λ db e. cc }
from_provider-Gives name (some n) m = record {
  same_default = refl;
  stands = λ db e. lookup-insert_self name (provided n) m.shards ∙ ap some (ok_inv _ _ e);
}

create_shard-Gives :
    (world : World) (name : Text) (o : Option ShardConfig) (m : ShardedDb)
    → Gives name m (create_shard world name o m)
create_shard-Gives world name none m =
    if-Gives m.has_provider _ _ (from_provider-Gives name (world.provider_db name) m)
      (record { same_default = refl; stands = λ db e. cc })
create_shard-Gives world name (some config) m =
    count_first-Gives world name m _ (open_shard-Gives world name m)

recheck-Gives :
    (world : World) (name : Text) (o : Option Db) (m : ShardedDb)
    → lookup name m.shards ≡ o
    → Gives name m (recheck world name o m)
recheck-Gives world name none m q = create_shard-Gives world name (lookup name m.configs) m
recheck-Gives world name (some db) m q = record {
  same_default = refl;
  stands = λ given e. q ∙ ap some (ok_inv _ _ e);
}

get_found-Gives :
    (world : World) (name : Text) (o : Option Db) (m : ShardedDb)
    → lookup name m.shards ≡ o
    → Gives name m (get_found world name o m)
unfolding get_shard_locked count_hit
get_found-Gives world name none m q = recheck-Gives world name _ m refl
get_found-Gives world name (some db) m q = record {
  same_default = refl;
  stands = λ given e. q ∙ ap some (ok_inv _ _ e);
}

get_shard-Gives :
    (world : World) (name : Text) (m : ShardedDb) → Gives name m (get_shard world name m)
unfolding get_shard
get_shard-Gives world name m = get_found-Gives world name _ m refl

get_default_shard-Gives :
    (world : World) (m : ShardedDb) → Gives m.default_shard m (get_default_shard world m)
unfolding get_default_shard
get_default_shard-Gives world m =
    if-Gives (is_empty m.default_shard) _ _ (record { same_default = refl; stands = λ db e. cc })
      (get_shard-Gives world m.default_shard m)

-- The connection of a target stands under the target's name or under the default shard's.
abbrev pub IsServed : Text → ShardedDb × Answer Target → Type 0
IsServed default x =
    (t : Target)
    → x.1 ≡ ok t
    → (lookup t.1 x.0.shards ≡ some t.0) ⊎ (lookup default x.0.shards ≡ some t.0)

to_default-IsServed :
    (a b name : Text) (m : ShardedDb) (x : ShardedDb × Answer Db)
    → Gives name m x
    → IsServed name (to_default a b x)
to_default-IsServed a b name m (k, ok db) g t e =
    inr (g.stands db refl ∙ ap (λ x. some x.0) (ok_inv _ t e))
to_default-IsServed a b name m (k, err x) g t e = cc
to_default-IsServed a b name m (k, Answer.panics) g t e = cc

fall_back-IsServed :
    (world : World) (a b : Text) (m : ShardedDb) → IsServed m.default_shard (fall_back world a b m)
fall_back-IsServed world a b m =
    to_default-IsServed a b m.default_shard _ _ (get_default_shard-Gives world _)

to_shard-IsServed :
    (world : World) (a b : Text) (m : ShardedDb) (x : ShardedDb × Answer Db)
    → Gives a m x
    → IsServed m.default_shard (to_shard world a b x)
to_shard-IsServed world a b m (k, ok db) g t e =
    subst (λ x. (lookup x.1 k.shards ≡ some x.0) ⊎ (lookup m.default_shard k.shards ≡ some x.0))
      (ok_inv _ t e) (inl (g.stands db refl))
to_shard-IsServed world a b m (k, err x) g t e =
    subst (λ name. IsServed name (fall_back world a b k)) g.same_default
      (fall_back-IsServed world a b k) t e
to_shard-IsServed world a b m (k, Answer.panics) g t e = cc

dispatched-IsServed :
    (world : World) (table : Text) (m : ShardedDb) (x : Router × RouteResult)
    → IsServed m.default_shard (dispatched world table m x)
dispatched-IsServed world table m (r, route_ok a b) =
    to_shard-IsServed world a b (record m { router = r }) _ (get_shard-Gives world a _)
dispatched-IsServed world table m (r, route_err e) =
    fall_back-IsServed world [] table (record m { router = r })
dispatched-IsServed world table m (r, RouteResult.route_panics) = λ t e. cc

if-IsServed :
    (name : Text) (c : Bool) (x y : ShardedDb × Answer Target)
    → IsServed name x
    → IsServed name y
    → IsServed name (if c then x else y)
if-IsServed name true x y g h = g
if-IsServed name false x y g h = h

-- When Route answers, the connection stands among the shards, under the database name that Route
-- answers with or under the name of the default shard.
pub route-IsServed :
    (world : World) (model : Text) (values : Map Key) (m : ShardedDb) (t : Target)
    → (route world model values m).1 ≡ ok t
    → (lookup t.1 (route world model values m).0.shards ≡ some t.0)
      ⊎ (lookup m.default_shard (route world model values m).0.shards ≡ some t.0)
unfolding route
route-IsServed world model values m =
    if-IsServed m.default_shard m.closed _ _ (λ t e. cc) (dispatched-IsServed world [] m _)

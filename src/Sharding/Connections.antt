-- ===== src/Sharding/Connections.antt =====
-- orm/internal/sharding/manager.go: no connection is lost.
use Prim.Native.Nat.{ℕ}
use mathlib.Core.List.{Memᴰ}
use fyer_webframe.Base.{
  ◌≡◌, ◌≢◌, inl, inr, refl, Bool, true, false, List, [], ◌∷◌, Option, none, some, arith,
  if◌then◌else◌, ◌==◌, Bool-cases,
}
use mathlib.Core.Path.{subst}
use fyer_webframe.Base.Text.{Text, text_dec}
use fyer_webframe.Base.Map.{Map, lookup, insert, delete, lookup-insert, lookup-delete}
use fyer_webframe.Sharding.Manager.{
  ShardConfig, Db, own, provided, World, ShardedDb, Answer, ok, err, forget, close_db, open_shard,
  is_some, is_empty, added, add_shard, remove_found, remove_shard, count_first, create_shard,
  from_provider, recheck, get_shard_locked, close_dbs, any_fails, close,
}

-- Every connection that the manager opened, and nobody closed, stands under the name of a shard.
abbrev pub IsHeld : ShardedDb → Type 0
IsHeld m = (n : ℕ) → Memᴰ n m.opened → (name : Text) × (lookup name m.shards ≡ some (own n))

forget-Memᴰ : (n k : ℕ) (ks : List ℕ) → Memᴰ k (forget n ks) → Memᴰ k ks × (k ≢ n)
unfolding forget
forget-Memᴰ n k [] m = elim m [ ]
forget-Memᴰ n k (j ∷ ks) m = elim (Bool-cases (j == n)) [
  | inl e ↦
      let dropped : forget n (j ∷ ks) ≡ forget n ks = rw e refl in
      let (there, ne) = forget-Memᴰ n k ks (subst (Memᴰ k) dropped m) in (Memᴰ.tail there, ne)
  | inr e ↦
      let kept : forget n (j ∷ ks) ≡ j ∷ forget n ks = rw e refl in
      elim (subst (Memᴰ k) kept m) [
        | Memᴰ.head q ↦ (Memᴰ.head q, λ p. ground arith)
        | Memᴰ.tail h ↦ let (there, ne) = forget-Memᴰ n k ks h in (Memᴰ.tail there, ne)
      ]
]

open_shard-IsHeld :
    (world : World) (name : Text) (m : ShardedDb)
    → lookup name m.shards ≡ none
    → IsHeld m
    → IsHeld (open_shard world name m).0
unfolding open_shard
open_shard-IsHeld world name m free held = elim (Bool-cases world.open_fails) [
  | inl a ↦ rw a held
  | inr a ↦ rw a (elim (Bool-cases world.ping_fails) [
    | inl b ↦ rw b λ n h.
        let (there, ne) = forget-Memᴰ m.next_db n (m.next_db ∷ m.opened) h in
        elim there [ Memᴰ.head e ↦ absurd (ne e) | Memᴰ.tail t ↦ held n t ]
    | inr b ↦ rw b λ n h. elim h [
      | Memᴰ.head e ↦ (name, ground (arith, lookup-insert name name (own m.next_db) m.shards))
      | Memᴰ.tail t ↦
          let (there, q) = held n t in
          (there, ground (arith, lookup-insert name there (own m.next_db) m.shards))
    ]
  ])
]

free_of : (name : Text) (o : Option Db) → is_some o ≡ false → o ≡ none
free_of name none e = refl
free_of name (some db) e = cc

added-shards : (x : ShardedDb × Answer Db) → IsHeld x.0 → IsHeld (added x).0
added-shards (m, ok db) h = h
added-shards (m, err e) h = h
added-shards (m, Answer.panics) h = h

-- A guard keeps it where both branches do.
if-IsHeld :
    {A : Type 0} (t : Bool) (x y : ShardedDb × Answer A)
    → IsHeld x.0
    → (t ≡ false → IsHeld y.0)
    → IsHeld (if t then x else y).0
if-IsHeld true x y h k = h
if-IsHeld false x y h k = k refl

pub add_shard-IsHeld :
    (world : World) (name : Text) (config : ShardConfig) (m : ShardedDb)
    → IsHeld m
    → IsHeld (add_shard world name config m).0
unfolding add_shard
add_shard-IsHeld world name config m held =
    let configured = record m { configs = insert name config m.configs } in
    if-IsHeld m.closed _ _ held λ a. if-IsHeld (is_some (lookup name m.shards)) _ _ held λ b.
      if-IsHeld (is_empty config.dsn) (configured, ok tt) _ held
        λ c. added-shards _ (open_shard-IsHeld world name configured (free_of name _ b) held)

close_db-IsHeld :
    (db : Db) (name : Text) (m : ShardedDb)
    → lookup name m.shards ≡ some db
    → IsHeld m
    → IsHeld (record (close_db db m) { shards = delete name m.shards })
close_db-IsHeld (own k) name m e held n h =
    let (there, ne) = forget-Memᴰ k n m.opened h in
    let (held_as, q) = held n there in
    (held_as, ground (arith, lookup-delete name held_as m.shards))
close_db-IsHeld (provided k) name m e held n h =
    let (held_as, q) = held n h in (held_as, ground (arith, lookup-delete name held_as m.shards))

closed_db-IsHeld : (db : Db) (m : ShardedDb) → IsHeld m → IsHeld (close_db db m)
closed_db-IsHeld (own k) m held n h = held n (forget-Memᴰ k n m.opened h).0
closed_db-IsHeld (provided k) m held n h = held n h

close_db-shards : (db : Db) (m : ShardedDb) → (close_db db m).shards ≡ m.shards
close_db-shards (own k) m = refl
close_db-shards (provided k) m = refl

remove_found-IsHeld :
    (world : World) (name : Text) (o : Option Db) (m : ShardedDb)
    → lookup name m.shards ≡ o
    → IsHeld m
    → IsHeld (remove_found world name o m).0
remove_found-IsHeld world name none m e held = held
remove_found-IsHeld world name (some db) m e held =
    if-IsHeld (world.close_fails db) _ _ (closed_db-IsHeld db m held)
      λ a n h. rw (close_db-shards db m) (close_db-IsHeld db name m e held n h)

pub remove_shard-IsHeld :
    (world : World) (name : Text) (m : ShardedDb) → IsHeld m → IsHeld (remove_shard world name m).0
unfolding remove_shard
remove_shard-IsHeld world name m held =
    if-IsHeld m.closed _ _ held λ a. remove_found-IsHeld world name _ m refl held

counted-IsHeld :
    (world : World) (name : Text) (x : ShardedDb × Answer Db)
    → IsHeld x.0
    → IsHeld (count_first world name x).0
counted-IsHeld world name (m, ok db) h = h
counted-IsHeld world name (m, err e) h = h
counted-IsHeld world name (m, Answer.panics) h = h

from_provider-IsHeld :
    (name : Text) (o : Option ℕ) (m : ShardedDb)
    → lookup name m.shards ≡ none
    → IsHeld m
    → IsHeld (from_provider name o m).0
from_provider-IsHeld name none m free held n h = held n h
from_provider-IsHeld name (some k) m free held n h =
    let (there, q) = held n h in
    (there, ground (arith, lookup-insert name there (provided k) m.shards))

create_shard-IsHeld :
    (world : World) (name : Text) (o : Option ShardConfig) (m : ShardedDb)
    → lookup name m.shards ≡ none
    → IsHeld m
    → IsHeld (create_shard world name o m).0
create_shard-IsHeld world name none m free held =
    if-IsHeld m.has_provider _ _ (from_provider-IsHeld name (world.provider_db name) m free held)
      λ a. held
create_shard-IsHeld world name (some config) m free held =
    counted-IsHeld world name _ (open_shard-IsHeld world name m free held)

recheck-IsHeld :
    (world : World) (name : Text) (o : Option Db) (m : ShardedDb)
    → lookup name m.shards ≡ o
    → IsHeld m
    → IsHeld (recheck world name o m).0
recheck-IsHeld world name none m e held = create_shard-IsHeld world name _ m e held
recheck-IsHeld world name (some db) m e held = held

pub get_shard_locked-IsHeld :
    (world : World) (name : Text) (m : ShardedDb)
    → IsHeld m
    → IsHeld (get_shard_locked world name m).0
unfolding get_shard_locked
get_shard_locked-IsHeld world name m held = recheck-IsHeld world name _ m refl held

-- Closing the connections of a map leaves open no connection of the map.
close_dbs-Memᴰ :
    (dbs : Map Db) (m : ShardedDb) (n : ℕ)
    → Memᴰ n (close_dbs dbs m).opened
    → Memᴰ n m.opened × ((name : Text) → lookup name dbs ≢ some (own n))
unfolding close_dbs lookup
close_dbs-Memᴰ [] m n h = (h, λ name e. cc)
close_dbs-Memᴰ ((key, own k) ∷ dbs) m n h =
    let (there, apart) = close_dbs-Memᴰ dbs (close_db (own k) m) n h in
    let (before, ne) = forget-Memᴰ k n m.opened there in
    (
      before,
      λ name e. elim (text_dec key name) [
        | yes q ↦ ground arith
        | no q ↦ apart name (ground arith)
      ],
    )
close_dbs-Memᴰ ((key, provided k) ∷ dbs) m n h =
    let (there, apart) = close_dbs-Memᴰ dbs m n h in
    (
      there,
      λ name e. elim (text_dec key name) [
        | yes q ↦ ground arith
        | no q ↦ apart name (ground arith)
      ],
    )

no_members : (ks : List ℕ) → ((n : ℕ) → ¬ Memᴰ n ks) → ks ≡ []
no_members [] h = refl
no_members (k ∷ ks) h = absurd (h k (Memᴰ.head refl))

-- What Close leaves open: nothing.
pub close_dbs-opened : (m : ShardedDb) → IsHeld m → (close_dbs m.shards m).opened ≡ []
close_dbs-opened m held = no_members _ λ n h.
    let (there, apart) = close_dbs-Memᴰ m.shards m n h in
    let (name, q) = held n there in apart name q

pub nothing-IsHeld : (m : ShardedDb) → m.opened ≡ [] → IsHeld m
nothing-IsHeld m e n h = elim (subst (Memᴰ n) e h) [ ]

pub close-IsHeld : (world : World) (m : ShardedDb) → IsHeld m → IsHeld (close world m).0
unfolding close
close-IsHeld world m held =
    let done = record (close_dbs m.shards m) { shards = []; closed = true } in
    let all = nothing-IsHeld done (close_dbs-opened m held) in
    if-IsHeld m.closed _ _ held
      λ a. if-IsHeld (any_fails world.close_fails m.shards) _ _ all λ b. all

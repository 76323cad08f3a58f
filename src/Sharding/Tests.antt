-- ===== src/Sharding/Tests.antt =====
-- Runs of the sharding, and its theorems at concrete strategies and routers.
use fyer_webframe.Base.{ℕ, ◌+◌, ◌*◌, ◌/◌, ◌%◌, ◌≡◌, refl, sym, [], ◌∷◌, some, arith, of_some}
use mathlib.Core.Path.{subst}
use fyer_webframe.Base.Text.{Text, codes, text_dec}
use fyer_webframe.Base.Map.{Map, lookup, insert as bind}
use fyer_webframe.Base.Int.{ℤ, pos, negsuc, to_int64, neg64, ltℤ, quot, rem}
use fyer_webframe.Sharding.Decimal.{digits, format_int, read_digits, parse_unsigned, parse_int}
use fyer_webframe.Sharding.Checksum.{xor_bits, crc_steps, crc_bytes, checksum}
use fyer_webframe.Sharding.Strategy.{
  BaseStrategy, Key, signed, text, named, unnamed, db_out_of_range, routed, get_shard_name,
  hash_route, find_range, range_key, range_route, mod_key, mod_route,
}
use fyer_webframe.Sharding.Names.{get_shard_name-injective}
use fyer_webframe.Sharding.Routes.{
  Reaches, IsPlace, least64, mod_route-Reaches, mod_route_least, mod_route_covers,
  hash_route-Reaches, range_route-IsPlace, route-format_int,
}
use fyer_webframe.Sharding.Router.{
  Strategy, date_strategy, at_time, hash_strategy, mod_strategy, ModelInfo, Router, route_ok,
  new_default_router, register_strategy, register_model_alias, get_model_info, clear_cache,
  get_cache_key, calculate_route,
}
use fyer_webframe.Sharding.RouteCache.{
  calculate_route_signed_collision, calculate_route_after_register,
}
use fyer_webframe.Sharding.Transparent.{
  IsSteady, IsTextual, calculate_routes, calculate_route_transparent,
}

-- What a run opens.
sharding : Unit {0}
unfolding text_dec lookup bind to_int64 neg64 ltℤ quot rem digits format_int read_digits
    parse_unsigned parse_int xor_bits crc_steps crc_bytes checksum get_shard_name hash_route
    find_range range_key range_route mod_key mod_route new_default_router register_strategy
    register_model_alias get_model_info clear_cache get_cache_key calculate_route calculate_routes
sharding = tt

-- The check value of CRC-32.
check_value : checksum (codes "123456789") ≡ 3421780262
unfolding sharding
check_value = refl

abbrev shards : BaseStrategy
shards = record {
  db_count = 3;
  db_prefix = codes "db_";
  table_count = 4;
  table_prefix = codes "user_";
  shard_key = codes "id";
  model_name = [];
}

runs :
    (mod_route shards (signed (codes "int") (negsuc 16)) ≡ routed (pos 2) (pos 1))
    × (mod_route shards (text (codes "17")) ≡ routed (pos 2) (pos 1))
    × (range_route shards (pos 10 ∷ pos 20 ∷ []) (text (codes "15")) ≡ routed (pos 1) (pos 0))
    × (get_shard_name shards (pos 2) (pos 1) ≡ named (codes "db_2") (codes "user_1"))
unfolding sharding
runs = (refl, refl, refl, refl)

get_shard_name-injective_example : (pos 2 ≡ pos 2) × (pos 1 ≡ pos 1)
unfolding sharding
get_shard_name-injective_example =
    get_shard_name-injective shards (pos 2) (pos 1) (pos 2) (pos 1) (codes "db_2") (codes "user_1")
      refl refl

mod_route-Reaches_example : Reaches shards (mod_route shards (text (codes "-17")))
unfolding sharding
mod_route-Reaches_example =
    mod_route-Reaches shards (text (codes "-17")) (negsuc 16) refl (ground arith) (λ e. cc)
      (ground arith) (ground arith)

mod_route_least_example :
    (d : ℕ) × (t : ℤ) × (mod_route shards (signed (codes "int64") least64) ≡ routed (negsuc d) t)
    × (get_shard_name shards (negsuc d) t ≡ unnamed db_out_of_range)
unfolding sharding
mod_route_least_example =
    mod_route_least shards (signed (codes "int64") least64) refl (ground arith) (ground arith)
      (ground arith)

mod_route_covers_example :
    mod_route shards (signed (codes "int") (pos (2 + 3 * 1))) ≡ routed (pos 2) (pos 1)
mod_route_covers_example = mod_route_covers shards (codes "int") 2 1 (ground arith) (ground arith)

hash_route-Reaches_example : Reaches shards (hash_route shards (text (codes "ann")))
hash_route-Reaches_example =
    hash_route-Reaches shards (text (codes "ann")) (codes "ann") refl (ground arith) (ground arith)
      (ground arith) (ground arith)

range_route-IsPlace_example :
    (i : ℕ) × IsPlace (pos 15) (pos 10 ∷ pos 20 ∷ []) i
    × (range_route shards (pos 10 ∷ pos 20 ∷ []) (text (codes "15"))
        ≡ routed (pos (i % (3 * 4) % 3)) (pos (i % (3 * 4) / 3)))
    × Reaches shards (range_route shards (pos 10 ∷ pos 20 ∷ []) (text (codes "15")))
unfolding sharding
range_route-IsPlace_example =
    range_route-IsPlace shards (pos 10 ∷ pos 20 ∷ []) (text (codes "15")) (pos 15) refl
      (ground arith) (ground arith) (ground arith)

route-format_int_example :
    (hash_route shards (text (format_int (negsuc 6)))
      ≡ hash_route shards (signed (codes "int") (negsuc 6)))
    × (range_route shards [] (text (format_int (negsuc 6)))
        ≡ range_route shards [] (signed (codes "int") (negsuc 6)))
    × (mod_route shards (text (format_int (negsuc 6)))
        ≡ mod_route shards (signed (codes "int") (negsuc 6)))
route-format_int_example = route-format_int shards [] (codes "int") (negsuc 6) (ground arith)

abbrev users : Router
users = register_strategy (codes "User") (mod_strategy shards) new_default_router

abbrev user_info : ModelInfo
user_info = record {
  strategy = mod_strategy shards;
  shard_key = codes "id";
  table_prefix = [];
  default_db_index = pos 0;
}

abbrev by_int : ℕ → Map Key
by_int n = (codes "id", signed (codes "int") (pos n)) ∷ []

abbrev by_text : Text → Map Key
by_text t = (codes "id", text t) ∷ []

-- The key 6 stands in database 0, and is sent to the shard of 5.
calculate_route_signed_collision_example :
    (calculate_route
      (codes "User")
      (by_int 6)
      (calculate_route (codes "User") (by_int 5) users).0).1
    ≡ route_ok (codes "db_2") (codes "user_1")
unfolding sharding
calculate_route_signed_collision_example =
    calculate_route_signed_collision (codes "User") user_info (by_int 5) (by_int 6) (codes "int")
      (pos 5) (pos 6) users (codes "db_2") (codes "user_1") (refl, refl) refl refl refl

uncached_six :
    (calculate_route (codes "User") (by_int 6) users).1 ≡ route_ok (codes "db_0") (codes "user_2")
unfolding sharding
uncached_six = refl

calculate_route_after_register_example :
    (calculate_route (codes "User") (by_text (codes "5")) (
      register_strategy
        (codes "User")
        (hash_strategy shards)
        (calculate_route (codes "User") (by_text (codes "5")) users).0)).1
    ≡ route_ok (codes "db_2") (codes "user_1")
unfolding sharding
calculate_route_after_register_example =
    calculate_route_after_register (codes "User") user_info (by_text (codes "5")) (text (codes "5"))
      users (codes "db_2") (codes "user_1") (hash_strategy shards) (codes "User:string:5")
      (refl, refl) refl refl refl (record user_info { strategy = hash_strategy shards })
      (refl, refl) refl

textual : (now : ℕ) (t : Text) → IsTextual (clear_cache users) (now, codes "User", by_text t)
unfolding sharding
textual now t = (
  (ground arith, (ground arith, (ground arith, (ground arith, tt)))),
  λ info key found there.
      let known : user_info ≡ info = of_some found in
      let at_id = subst (λ i. lookup i.shard_key (by_text t) ≡ some key) (sym known) there in
      (t, sym (of_some at_id)),
  λ info found.
      let known : user_info ≡ info = of_some found in
      subst (λ i. IsSteady i.strategy) known (λ first later db table. refl),
)

calculate_route_transparent_example :
    (calculate_route (codes "User") (by_text (codes "5")) (
      at_time 9 (
        calculate_routes
          ((3, codes "User", by_text (codes "5")) ∷ (4, codes "User", by_text (codes "6")) ∷ [])
          (clear_cache users)))).1
    ≡ (calculate_route (codes "User") (by_text (codes "5")) (at_time 9 (clear_cache users))).1
calculate_route_transparent_example =
    calculate_route_transparent users
      ((3, codes "User", by_text (codes "5")) ∷ (4, codes "User", by_text (codes "6")) ∷ []) 9
      (codes "User") (by_text (codes "5")) (textual 3 (codes "5"), (textual 4 (codes "6"), tt))
      (textual 9 (codes "5"))

-- A strategy that puts the month into the names of its tables: the cache keeps the month of the
-- first call.
abbrev monthly : Strategy
monthly =
    date_strategy (λ key. routed (pos 0) (pos 0)) (λ now db table. named (codes "db_0") (now ∷ []))
      (codes "id")

abbrev orders : Router
orders = register_strategy (codes "Order") monthly new_default_router

kept_month :
    let first = calculate_route (codes "Order") (by_text (codes "5")) (at_time 1 orders) in
    ((calculate_route (codes "Order") (by_text (codes "5")) (at_time 2 first.0)).1
      ≡ route_ok (codes "db_0") (1 ∷ []))
    × ((calculate_route (codes "Order") (by_text (codes "5")) (at_time 2 orders)).1
        ≡ route_ok (codes "db_0") (2 ∷ []))
unfolding sharding
kept_month = (refl, refl)

-- ===== src/Sharding/Strategy.antt =====
-- orm/internal/sharding/strategy.go: the names of the shards, and the routes by hash, range and
-- remainder. The counts of databases and tables are natural numbers; a division by zero panics.
use Prim.Native.Nat.{ℕ, suc, ◌*◌, ◌/◌, ◌%◌}
use fyer_webframe.Base.{
  Bool, not, ◌||◌, List, [], ◌∷◌, ◌++◌, Option, none, some, ◌==◌, if◌then◌else◌,
}
use fyer_webframe.Base.Text.{Text}
use fyer_webframe.Base.Int.{ℤ, pos, negsuc, to_int64, neg64, ltℤ, quot, rem}
use fyer_webframe.Sharding.Decimal.{decimal, format_int, parse_int}
use fyer_webframe.Sharding.Checksum.{checksum}

pub record BaseStrategy : Type 0 where
  pub db_count : ℕ
  pub db_prefix : Text
  pub table_count : ℕ
  pub table_prefix : Text
  pub shard_key : Text
  pub model_name : Text

-- A value of type interface{}: nil, a number of one of Go's integer types with that type's name, a
-- string, a []byte, a value of a type declared over an integer type or over string, or one of another
-- type.
pub data Key : Type 0 where
  nil_key : Key
  signed : Text → ℤ → Key
  unsigned : Text → ℕ → Key
  text : Text → Key
  bytes : Text → Key
  named_signed : Text → ℤ → Key
  named_unsigned : Text → ℕ → Key
  named_text : Text → Text → Key
  other : Text → Key

pub data StrategyError : Type 0 where
  invalid_shard_key : StrategyError
  invalid_date_format : StrategyError
  unsupported_key_type : StrategyError
  db_out_of_range : StrategyError
  table_out_of_range : StrategyError

-- What Route gives: two indices, an error, or a panic.
pub data Routed : Type 0 where
  routed : ℤ → ℤ → Routed
  unrouted : StrategyError → Routed
  route_panic : Routed

-- What GetShardName gives.
pub data Named : Type 0 where
  named : Text → Text → Named
  unnamed : StrategyError → Named

abbrev pub outside : ℤ → ℕ → Bool
outside i count = ltℤ i (pos 0) || not (ltℤ i (pos count))

-- BaseStrategy.GetShardName
unfoldable pub get_shard_name : BaseStrategy → ℤ → ℤ → Named
get_shard_name s db table =
    if outside db s.db_count
    then unnamed db_out_of_range
    else if outside table s.table_count
    then unnamed table_out_of_range
    else named (s.db_prefix ++ format_int db) (s.table_prefix ++ format_int table)

-- HashStrategy.Route: the text that is hashed.
abbrev pub hash_key : Key → Option Text
hash_key nil_key = none
hash_key (signed type z) = some (format_int z)
hash_key (unsigned type n) = some (decimal n)
hash_key (text s) = some s
hash_key (bytes s) = some s
hash_key (named_signed type z) = none
hash_key (named_unsigned type n) = none
hash_key (named_text type t) = none
hash_key (other type) = none

abbrev hash_shard : BaseStrategy → Option Text → Routed
hash_shard s none = unrouted unsupported_key_type
hash_shard s (some t) =
    let hash_code = checksum t in
    let dbs = s.db_count % 4294967296 in
    let tables = s.table_count % 4294967296 in
    if dbs == 0 || tables == 0
    then route_panic
    else routed (pos (hash_code % dbs)) (pos (hash_code / dbs % tables))

abbrev pub is_nil : Key → Bool
is_nil nil_key = Bool.true
is_nil k = Bool.false

-- HashStrategy.Route
unfoldable pub hash_route : BaseStrategy → Key → Routed
hash_route s key = if is_nil key then unrouted invalid_shard_key else hash_shard s (hash_key key)

-- RangeStrategy.Route: the place of the first boundary above the key, or the number of boundaries.
unfoldable pub find_range : ℤ → List ℤ → ℕ → ℕ
find_range key [] i = i
find_range key (r ∷ rs) i = let later = find_range key rs (suc i) in if ltℤ key r then i else later

abbrev pub magnitude : ℤ → ℕ
magnitude (pos n) = n
magnitude (negsuc n) = suc n

abbrev pub range_shard : BaseStrategy → ℕ → Routed
range_shard s i =
    let total_shards = magnitude (to_int64 (s.db_count * s.table_count)) in
    let shard_index = i % total_shards in
    if total_shards == 0
    then route_panic
    else routed (pos (shard_index % s.db_count)) (pos (shard_index / s.db_count))

-- The int64 that the switch on the key's type makes of it.
pub data IntKey : Type 0 where
  int_key : ℤ → IntKey
  no_key : StrategyError → IntKey

abbrev range_text : Option ℤ → IntKey
range_text none = no_key invalid_shard_key
range_text (some z) = int_key z

unfoldable pub range_key : Key → IntKey
range_key nil_key = no_key invalid_shard_key
range_key (signed type z) = int_key z
range_key (unsigned type n) = int_key (to_int64 n)
range_key (text t) = range_text (parse_int t)
range_key (bytes t) = no_key unsupported_key_type
range_key (named_signed type z) = no_key unsupported_key_type
range_key (named_unsigned type n) = no_key unsupported_key_type
range_key (named_text type t) = no_key unsupported_key_type
range_key (other type) = no_key unsupported_key_type

abbrev pub range_from : BaseStrategy → List ℤ → IntKey → Routed
range_from s ranges (int_key z) = range_shard s (find_range z ranges 0)
range_from s ranges (no_key e) = unrouted e

unfoldable pub range_route : BaseStrategy → List ℤ → Key → Routed
range_route s ranges key = range_from s ranges (range_key key)

-- ModStrategy.Route: a text that is no number is hashed.
abbrev mod_text : Text → Option ℤ → IntKey
mod_text t none = int_key (pos (checksum t))
mod_text t (some z) = int_key z

unfoldable pub mod_key : Key → IntKey
mod_key nil_key = no_key invalid_shard_key
mod_key (signed type z) = int_key z
mod_key (unsigned type n) = int_key (to_int64 n)
mod_key (text t) = mod_text t (parse_int t)
mod_key (bytes t) = no_key unsupported_key_type
mod_key (named_signed type z) = int_key z
mod_key (named_unsigned type n) = int_key (to_int64 n)
mod_key (named_text type t) = no_key unsupported_key_type
mod_key (other type) = no_key unsupported_key_type

abbrev pub mod_from : BaseStrategy → IntKey → Routed
mod_from s (int_key z) =
    let value = if ltℤ z (pos 0) then neg64 z else z in
    if s.db_count == 0 || s.table_count == 0
    then route_panic
    else routed (rem value s.db_count) (rem (quot value s.db_count) s.table_count)
mod_from s (no_key e) = unrouted e

unfoldable pub mod_route : BaseStrategy → Key → Routed
mod_route s key = mod_from s (mod_key key)

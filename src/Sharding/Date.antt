-- ===== src/Sharding/Date.antt =====
-- orm/internal/sharding/strategy.go: DateStrategy. Package time is the parameter Calendar. The years
-- of a time.Time are far inside an int64, so the sum of months does not wrap around.
use Prim.Native.Nat.{ℕ, ◌*◌, ◌/◌, ◌%◌, ◌<◌}
use native.Mathlib.Nat.{mod-lt, mod-eq_of_lt, div-lt_iff_lt-mul, mul-pos, mul_comm}
use fyer_webframe.Base.{
  ◌≡◌, ◌≢◌, refl, List, [], ◌∷◌, ◌++◌, Option, none, some, ite, arith, if◌then◌else◌, ◌==◌,
}
use fyer_webframe.Base.Text.{Text, codes, text_dec, contains_byte}
use fyer_webframe.Base.Int.{
  ℤ, pos, neg64, ltℤ, quot, rem, to_int64, ◌-ℤ◌, ◌+ℤ◌, times, IsInt64, half64, mod64,
}
use fyer_webframe.Sharding.Decimal.{format_int}
use fyer_webframe.Sharding.Checksum.{checksum}
use fyer_webframe.Sharding.Strategy.{
  BaseStrategy, Key, nil_key, signed, unsigned, text, bytes, named_signed, named_unsigned,
  named_text, other, StrategyError, invalid_shard_key, invalid_date_format, unsupported_key_type,
  db_out_of_range, table_out_of_range, Routed, routed, unrouted, route_panic, Named, named, unnamed,
  outside, magnitude,
}
use fyer_webframe.Sharding.Routes.{Reaches, least64, absolute}

-- Package time, and strings.ToLower: Parse by a layout, Unix, the days and weeks between two times
-- as Sub, Hours and the conversion to int give them, Year, Month and Format.
pub record Calendar (Time : Type 0) : Type 0 where
  pub parse : Text → Text → Option Time
  pub unix : ℤ → Time
  pub days : Time → Time → ℤ
  pub weeks : Time → Time → ℤ
  pub year : Time → ℤ
  pub month : Time → ℤ
  pub format : Time → Text → Text
  pub lower : Text → Text

pub record DateStrategy (Time : Type 0) : Type 0 where
  pub base : BaseStrategy
  pub date_format : Text
  pub start_time : Time

-- A key: a time.Time or another value.
pub data DateKey (Time : Type 0) : Type 0 where
  moment : Time → DateKey Time
  plain : Key → DateKey Time

pub data DateResult (Time : Type 0) : Type 0 where
  date : Time → DateResult Time
  no_date : StrategyError → DateResult Time

-- The way that DateFormat counts.
pub data Period : Type 0 where
  counted : ℤ → Period
  hashed : Text → Period

module _ {Time : Type 0} (calendar : Calendar Time) where
  unfoldable pub first_date : List Text → Text → DateResult Time
  first_date [] t = no_date invalid_date_format
  first_date (layout ∷ layouts) t = parsed (calendar.parse layout t) (first_date layouts t)
    where
      parsed : Option Time → DateResult Time → DateResult Time
      parsed none later = later
      parsed (some d) later = date d

  abbrev pub date_of_text : Text → DateResult Time
  date_of_text =
      first_date
        (codes "2006-01-02 15:04:05" ∷ codes "2006-01-02" ∷ codes "2006-01-02T15:04:05Z07:00" ∷ [])

  -- The switch on the key's type.
  unfoldable pub date_key : DateKey Time → DateResult Time
  date_key (moment d) = date d
  date_key (plain nil_key) = no_date invalid_shard_key
  date_key (plain (signed type z)) =
      ite (text_dec type (codes "int64")) (date (calendar.unix z)) (no_date unsupported_key_type)
  date_key (plain (unsigned type n)) = no_date unsupported_key_type
  date_key (plain (text t)) = date_of_text t
  date_key (plain (bytes t)) = date_of_text t
  date_key (plain (named_signed type z)) = no_date unsupported_key_type
  date_key (plain (named_unsigned type n)) = no_date unsupported_key_type
  date_key (plain (named_text type t)) = no_date unsupported_key_type
  date_key (plain (other type)) = no_date unsupported_key_type

  -- The switch on DateFormat.
  unfoldable pub date_period : DateStrategy Time → Time → Period
  date_period s d =
      let kind = calendar.lower s.date_format in
      let years = calendar.year d -ℤ calendar.year s.start_time in
      let months = calendar.month d -ℤ calendar.month s.start_time in
      ite (text_dec kind (codes "daily")) (counted (calendar.days d s.start_time)) (
        ite (text_dec kind (codes "weekly")) (counted (calendar.weeks d s.start_time)) (
          ite (text_dec kind (codes "monthly")) (counted (times 12 years +ℤ months)) (
            ite (text_dec kind (codes "yearly")) (counted years)
              (hashed (calendar.format d s.date_format)))))

-- The number of all shards, as an int.
abbrev total_shards : BaseStrategy → ℤ
total_shards s = to_int64 (s.db_count * s.table_count)

abbrev pub shard_at : BaseStrategy → ℤ → Routed
shard_at s shard_index = routed (rem shard_index s.db_count) (quot shard_index s.db_count)

unfoldable pub period_shard : BaseStrategy → Period → Routed
period_shard s (counted p) =
    let period = if ltℤ p (pos 0) then neg64 p else p in
    if magnitude (total_shards s) == 0
    then route_panic
    else shard_at s (rem period (magnitude (total_shards s)))
period_shard s (hashed t) =
    let total = s.db_count * s.table_count % 4294967296 in
    if total == 0 then route_panic else shard_at s (pos (checksum t % total))

module _ {Time : Type 0} (calendar : Calendar Time) (s : DateStrategy Time) where
  abbrev pub date_shard : DateResult Time → Routed
  date_shard (date d) = period_shard s.base (date_period calendar s d)
  date_shard (no_date e) = unrouted e

  -- DateStrategy.Route
  unfoldable pub date_route : DateKey Time → Routed
  date_route key = date_shard (date_key calendar key)

  -- DateStrategy.GetShardName; `now` is the time of the call.
  unfoldable pub date_shard_name : Time → ℤ → ℤ → Named
  date_shard_name now db table =
      let prefix = s.base.table_prefix in
      let table_name = if contains_byte prefix b'%' then calendar.format now prefix else prefix in
      if outside db s.base.db_count
      then unnamed db_out_of_range
      else if outside table s.base.table_count
      then unnamed table_out_of_range
      else named (s.base.db_prefix ++ format_int db) (table_name ++ format_int table)

shard_at-Reaches :
    (s : BaseStrategy) (i : ℕ)
    → 0 < s.db_count
    → i < s.db_count * s.table_count
    → Reaches s (shard_at s (pos i))
unfolding rem quot
shard_at-Reaches s i dbs h = (
  i % s.db_count,
  i / s.db_count,
  refl,
  mod-lt i dbs,
  (div-lt_iff_lt-mul dbs).1 (rw (mul_comm s.table_count s.db_count) h),
)

total_shards_lem :
    (s : BaseStrategy)
    → s.db_count * s.table_count < half64
    → magnitude (total_shards s) ≡ s.db_count * s.table_count
unfolding to_int64
total_shards_lem s small =
    let whole : s.db_count * s.table_count % mod64 ≡ s.db_count * s.table_count =
      mod-eq_of_lt (omega arith) in
    rw whole (ground arith)

counted-shard_at :
    (s : BaseStrategy) (p : ℤ) (n shards : ℕ)
    → (if ltℤ p (pos 0) then neg64 p else p) ≡ pos n
    → magnitude (total_shards s) ≡ shards
    → 0 < shards
    → period_shard s (counted p) ≡ shard_at s (pos (n % shards))
unfolding period_shard rem
counted-shard_at s p n shards a e h = rw a (rw e (ground arith))

-- DateStrategy sends every date to a shard that exists, where DateFormat counts it a number of
-- days, weeks, months or years that is an int64 other than the least, there is a database and a
-- table, and their product is an int64.
pub date_route-Reaches :
    {Time : Type 0} (calendar : Calendar Time) (s : DateStrategy Time) (key : DateKey Time)
    (d : Time) (p : ℤ)
    → date_key calendar key ≡ date d
    → date_period calendar s d ≡ counted p
    → IsInt64 p
    → p ≢ least64
    → 0 < s.base.db_count
    → 0 < s.base.table_count
    → s.base.db_count * s.base.table_count < half64
    → Reaches s.base (date_route calendar s key)
unfolding date_route
date_route-Reaches calendar s key d p is_date is_counted h ne dbs tables small =
    let (n, a) = absolute p h ne in
    let some_shard = mul-pos dbs tables in
    let shard = counted-shard_at s.base p n _ a (total_shards_lem s.base small) some_shard in
    rw is_date (rw is_counted (rw shard (shard_at-Reaches s.base _ dbs (mod-lt n some_shard))))

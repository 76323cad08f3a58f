-- ===== src/Sharding/Routes.antt =====
-- orm/internal/sharding/strategy.go: where the keys are routed to.
use Prim.Native.Nat.{ℕ, zero, suc, ◌+◌, ◌*◌, ◌-◌, ◌/◌, ◌%◌, ◌<◌}
use fyer_webframe.Base.{
  ◌≡◌, refl, ap, ◌∙◌, ◌≢◌, ◌⊎◌, inl, inr, true, false, List, [], ◌∷◌, ◌++◌, some, arith, Bool-cases,
  ltb, length, All, if◌then◌else◌,
}
use fyer_webframe.Base.Text.{Text}
use fyer_webframe.Base.Int.{
  ℤ, pos, negsuc, ltℤ, neg64, quot, rem, half64, mod64, IsInt64, to_int64, neg_of,
}
use fyer_webframe.Sharding.Decimal.{format_int, parse_int-format_int}
use fyer_webframe.Sharding.Checksum.{checksum}
use fyer_webframe.Sharding.Strategy.{
  BaseStrategy, Key, signed, text, int_key, unnamed, db_out_of_range, Routed, routed,
  get_shard_name, hash_key, hash_route, find_range, range_key, range_route, mod_key, mod_route,
  is_nil, range_shard, range_from,
}
use native.Mathlib.Nat.{
  mod-lt, div-lt_iff_lt-mul, div-eq_of_lt, mod-eq_of_lt, add-mul-mod_self_left, add-mul-div_left,
  mul-pos, mul_comm,
}

-- The route is a shard that exists.
abbrev pub Reaches : BaseStrategy → Routed → Type 0
Reaches s r = (d t : ℕ) × (r ≡ routed (pos d) (pos t)) × (d < s.db_count) × (t < s.table_count)

abbrev pub least64 : ℤ
least64 = negsuc 9223372036854775807

-- The absolute value, where it is an int64.
pub absolute :
    (z : ℤ) → IsInt64 z → z ≢ least64 → (n : ℕ) × ((if ltℤ z (pos 0) then neg64 z else z) ≡ pos n)
unfolding ltℤ neg64
absolute (pos n) h ne = (n, ground arith)
absolute (negsuc n) h ne = elim (Bool-cases (ltb (suc n) half64)) [
  | inl small ↦ (suc n, rw small refl)
  | inr big ↦ absurd (ne (ap negsuc (ground arith)))
]

-- ModStrategy routes every key whose number is an int64 other than the least to a shard that
-- exists, where there is a database and a table.
pub mod_route-Reaches :
    (s : BaseStrategy) (key : Key) (z : ℤ)
    → mod_key key ≡ int_key z
    → IsInt64 z
    → z ≢ least64
    → 0 < s.db_count
    → 0 < s.table_count
    → Reaches s (mod_route s key)
unfolding mod_route rem quot
mod_route-Reaches s key z e h ne dbs tables =
    let (n, a) = absolute z h ne in
    (
      n % s.db_count,
      n / s.db_count % s.table_count,
      rw e (rw a (ground arith)),
      mod-lt n dbs,
      mod-lt _ tables,
    )

neg_of-negsuc : (n : ℕ) → 0 < n → neg_of n ≡ negsuc (n - 1)
neg_of-negsuc zero h = absurd (omega arith)
neg_of-negsuc (suc n) h = ap negsuc (omega arith)

-- Unless the number of databases divides 2 ^ 63, ModStrategy gives the least int64 a negative
-- database index, and GetShardName refuses it, where there is a database and a table.
pub mod_route_least :
    (s : BaseStrategy) (key : Key)
    → mod_key key ≡ int_key least64
    → 0 < s.table_count
    → 0 < half64 % s.db_count
    → 0 < s.db_count
    → (d : ℕ) × (t : ℤ) × (mod_route s key ≡ routed (negsuc d) t)
      × (get_shard_name s (negsuc d) t ≡ unnamed db_out_of_range)
unfolding mod_route get_shard_name ltℤ neg64 rem quot
mod_route_least s key e tables rest dbs = (
  half64 % s.db_count - 1,
  rem (quot least64 s.db_count) s.table_count,
  rw e (ground (arith, neg_of-negsuc (half64 % s.db_count) rest)),
  refl,
)

-- Every shard has a key: under ModStrategy the number d + db_count * t goes to table t of database
-- d, for d below the number of databases and t below that of tables.
pub mod_route_covers :
    (s : BaseStrategy) (type : Text) (d t : ℕ)
    → d < s.db_count
    → t < s.table_count
    → mod_route s (signed type (pos (d + s.db_count * t))) ≡ routed (pos d) (pos t)
unfolding mod_route mod_key ltℤ rem quot
mod_route_covers s type d t dbs tables =
    let low = add-mul-mod_self_left d s.db_count t ∙ mod-eq_of_lt dbs in
    let high =
      add-mul-div_left d t {y = s.db_count} (omega arith) ∙ ap (λ n. n + t) (div-eq_of_lt dbs) in
    ground (arith, low, high, mod-eq_of_lt tables)

hash_key-is_nil : (key : Key) (t : Text) → hash_key key ≡ some t → is_nil key ≡ false
hash_key-is_nil Key.nil_key t e = cc
hash_key-is_nil (Key.signed _ _) t e = refl
hash_key-is_nil (Key.unsigned _ _) t e = refl
hash_key-is_nil (Key.text _) t e = refl
hash_key-is_nil (Key.bytes _) t e = refl
hash_key-is_nil (Key.named_signed _ _) t e = refl
hash_key-is_nil (Key.named_unsigned _ _) t e = refl
hash_key-is_nil (Key.named_text _ _) t e = refl
hash_key-is_nil (Key.other _) t e = refl

-- HashStrategy routes every key that it can hash to a shard that exists, where there are fewer
-- than 2 ^ 32 databases and tables, and at least one of each.
pub hash_route-Reaches :
    (s : BaseStrategy) (key : Key) (t : Text)
    → hash_key key ≡ some t
    → 0 < s.db_count
    → s.db_count < 4294967296
    → 0 < s.table_count
    → s.table_count < 4294967296
    → Reaches s (hash_route s key)
unfolding hash_route
hash_route-Reaches s key t e dbs dbs32 tables tables32 = (
  checksum t % s.db_count,
  checksum t / s.db_count % s.table_count,
  rw (hash_key-is_nil key t e)
      (rw e (rw (mod-eq_of_lt dbs32) (rw (mod-eq_of_lt tables32) (ground arith)))),
  mod-lt _ dbs,
  mod-lt _ tables,
)

-- The place of a key among the boundaries: the first boundary above it, or behind all of them.
abbrev pub IsPlace : ℤ → List ℤ → ℕ → Type 0
IsPlace z ranges i =
    (below above : List ℤ) × (ranges ≡ below ++ above)
    × (i ≡ length below)
    × All (λ r. ltℤ z r ≡ false) below
    × ((above ≡ []) ⊎ ((r : ℤ) × (rest : List ℤ) × (above ≡ r ∷ rest) × (ltℤ z r ≡ true)))

find_range-IsPlace :
    (z : ℤ) (ranges : List ℤ) (i : ℕ)
    → (k : ℕ) × (find_range z ranges i ≡ i + k) × IsPlace z ranges k
unfolding find_range
find_range-IsPlace z [] i = (0, omega arith, ([], [], refl, refl, tt, inl refl))
find_range-IsPlace z (r ∷ rs) i = elim (Bool-cases (ltℤ z r)) [
  | inl here ↦ (0, rw here (omega arith), ([], r ∷ rs, refl, refl, tt, inr (r, rs, refl, here)))
  | inr later ↦
      let (k, e, (below, above, q, n, under, over)) = find_range-IsPlace z rs (suc i) in
      (
        suc k,
        rw later (omega (arith, e)),
        (r ∷ below, above, ap (λ l. r ∷ l) q, ap suc n, (later, under), over),
      )
]

range_shard_lem :
    (s : BaseStrategy) (i : ℕ)
    → 0 < s.db_count * s.table_count
    → s.db_count * s.table_count < half64
    → range_shard s i ≡ (
        let shard = i % (s.db_count * s.table_count) in
        routed (pos (shard % s.db_count)) (pos (shard / s.db_count)))
unfolding to_int64
range_shard_lem s i h small =
    let whole : s.db_count * s.table_count % mod64 ≡ s.db_count * s.table_count =
      mod-eq_of_lt (omega arith) in
    rw whole (ground arith)

-- RangeStrategy finds the place of the key among the boundaries, the first boundary above it or
-- behind all of them, and sends it to the shard with that number, counted around through the
-- databases and then the tables; the shard exists, where there is a database and a table and their
-- product is an int64.
pub range_route-IsPlace :
    (s : BaseStrategy) (ranges : List ℤ) (key : Key) (z : ℤ)
    → range_key key ≡ int_key z
    → 0 < s.db_count
    → 0 < s.table_count
    → s.db_count * s.table_count < half64
    → (i : ℕ) × IsPlace z ranges i
      × (range_route s ranges key ≡ (
          let shard = i % (s.db_count * s.table_count) in
          routed (pos (shard % s.db_count)) (pos (shard / s.db_count))))
      × Reaches s (range_route s ranges key)
unfolding range_route to_int64
range_route-IsPlace s ranges key z e dbs tables small =
    let (i, counted, place) = find_range-IsPlace z ranges 0 in
    let shards = s.db_count * s.table_count in
    let at_i : find_range z ranges 0 ≡ i = omega (arith, counted) in
    let some_shard : 0 < shards = mul-pos dbs tables in
    let route =
      ap (range_from s ranges) e ∙ ap (range_shard s) at_i ∙ range_shard_lem s i some_shard small in
    (
      i,
      place,
      route,
      (
        i % shards % s.db_count,
        i % shards / s.db_count,
        route,
        mod-lt _ dbs,
        (div-lt_iff_lt-mul dbs).1 (rw (mul_comm s.table_count s.db_count) (mod-lt i some_shard)),
      ),
    )

-- A key is routed alike as a number of a signed type, in the range of int64, and as its decimal
-- text, by each of the three strategies.
pub route-format_int :
    (s : BaseStrategy) (ranges : List ℤ) (type : Text) (z : ℤ)
    → IsInt64 z
    → (hash_route s (text (format_int z)) ≡ hash_route s (signed type z))
      × (range_route s ranges (text (format_int z)) ≡ range_route s ranges (signed type z))
      × (mod_route s (text (format_int z)) ≡ mod_route s (signed type z))
unfolding hash_route range_route range_key mod_route mod_key
route-format_int s ranges type z h =
    let read = parse_int-format_int z h in (refl, rw read refl, rw read refl)

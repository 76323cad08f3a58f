-- ===== src/Sharding/Names.antt =====
-- orm/internal/sharding/strategy.go: the names of the shards.
use Prim.Native.Nat.{ℕ, ◌<◌}
use fyer_webframe.Base.{◌≡◌, refl, sym, ap, ◌∙◌, [], ◌∷◌, ◌++◌, arith}
use fyer_webframe.Base.Text.{Text}
use fyer_webframe.Base.Int.{ℤ, pos, negsuc, ltℤ}
use fyer_webframe.Sharding.Decimal.{decimal, format_int, decimal-injective}
use fyer_webframe.Sharding.Strategy.{BaseStrategy, Named, named, unnamed, get_shard_name}

-- The names stand for two indices in range.
abbrev pub Names : BaseStrategy → ℤ → ℤ → Text → Text → Type 0
Names s db table db_name table_name =
    (i j : ℕ) × (db ≡ pos i)
    × (table ≡ pos j)
    × (i < s.db_count)
    × (j < s.table_count)
    × (db_name ≡ s.db_prefix ++ decimal i)
    × (table_name ≡ s.table_prefix ++ decimal j)

db_name_of : Named → Text
db_name_of (named a b) = a
db_name_of (unnamed e) = []

table_name_of : Named → Text
table_name_of (named a b) = b
table_name_of (unnamed e) = []

pub get_shard_name-Names :
    (s : BaseStrategy) (db table : ℤ) (a b : Text)
    → get_shard_name s db table ≡ named a b
    → Names s db table a b
unfolding get_shard_name ltℤ format_int
get_shard_name-Names s (pos i) (pos j) a b e =
    (i, j, refl, refl, ground arith, ground arith, ground (arith, ap db_name_of e), ground arith)
get_shard_name-Names s (pos i) (negsuc j) a b e = ground arith
get_shard_name-Names s (negsuc i) table a b e = ground arith

pub append_cancel : (p a b : Text) → p ++ a ≡ p ++ b → a ≡ b
append_cancel [] a b e = e
append_cancel (x ∷ p) a b e = append_cancel p a b cc

-- GetShardName gives each shard its own names: two pairs of indices with the same names are the
-- same pair.
pub get_shard_name-injective :
    (s : BaseStrategy) (d t d' t' : ℤ) (a b : Text)
    → get_shard_name s d t ≡ named a b
    → get_shard_name s d' t' ≡ named a b
    → (d ≡ d') × (t ≡ t')
get_shard_name-injective s d t d' t' a b e e' =
    let (i, j, p, q, _, _, n, m) = get_shard_name-Names s d t a b e in
    let (i', j', p', q', _, _, n', m') = get_shard_name-Names s d' t' a b e' in
    (
      p ∙ ap pos (decimal-injective i i' (append_cancel s.db_prefix _ _ (sym n ∙ n'))) ∙ sym p',
      q ∙ ap pos (decimal-injective j j' (append_cancel s.table_prefix _ _ (sym m ∙ m'))) ∙ sym q',
    )

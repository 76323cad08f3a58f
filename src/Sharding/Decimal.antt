-- ===== src/Sharding/Decimal.antt =====
-- fmt's %d and strconv.ParseInt(s, 10, 64), which orm/internal/sharding/strategy.go uses on keys
-- and names.
use Prim.Native.Nat.{ℕ, zero, suc, ◌+◌, ◌-◌, ◌*◌, ◌/◌, ◌%◌, ◌≤◌, ◌<◌}
use fyer_webframe.Base.{
  ◌≡◌, refl, sym, ap, ◌∙◌, inl, inr, ◌&&◌, [], ◌∷◌, ◌++◌, Option, none, some, arith, ltb, leb, ◌==◌,
  if◌then◌else◌, Bool-cases, of_some,
}
use fyer_webframe.Base.Text.{Text}
use fyer_webframe.Base.Int.{ℤ, pos, negsuc, neg_of, half64, IsInt64}

-- The decimal digits of a number, on fuel.
unfoldable pub digits : ℕ → ℕ → Text
digits zero n = []
digits (suc fuel) n =
    let rest = digits fuel (n / 10) in
    if ltb n 10 then (48 + n) ∷ [] else rest ++ ((48 + n % 10) ∷ [])

abbrev pub decimal : ℕ → Text
decimal n = digits (suc n) n

-- %d
unfoldable pub format_int : ℤ → Text
format_int (pos n) = decimal n
format_int (negsuc n) = 45 ∷ decimal (suc n)

unfoldable pub read_digits : ℕ → Text → Option ℕ
read_digits n [] = some n
read_digits n (c ∷ cs) =
    let rest = read_digits (n * 10 + (c - 48)) cs in if leb 48 c && leb c 57 then rest else none

unfoldable pub parse_unsigned : Text → Option ℕ
parse_unsigned [] = none
parse_unsigned (c ∷ cs) = read_digits 0 (c ∷ cs)

abbrev positive : Option ℕ → Option ℤ
positive none = none
positive (some n) = if ltb n half64 then some (pos n) else none

abbrev negative : Option ℕ → Option ℤ
negative none = none
negative (some n) = if leb n half64 then some (neg_of n) else none

-- strconv.ParseInt(s, 10, 64), with none for its errors.
unfoldable pub parse_int : Text → Option ℤ
parse_int [] = none
parse_int (c ∷ cs) =
    if c == 45
    then negative (parse_unsigned cs)
    else if c == 43
    then positive (parse_unsigned cs)
    else positive (parse_unsigned (c ∷ cs))

read_digits-append :
    (s : Text) (n m c : ℕ)
    → read_digits n s ≡ some m
    → 48 ≤ c
    → c ≤ 57
    → read_digits n (s ++ c ∷ []) ≡ some (m * 10 + (c - 48))
unfolding read_digits
read_digits-append [] n m c e lo hi = let q = of_some e in ground arith
read_digits-append (b ∷ s) n m c e lo hi = elim (Bool-cases (leb 48 b && leb b 57)) [
  | inl digit ↦ rw digit (read_digits-append s (n * 10 + (b - 48)) m c (ground arith) lo hi)
  | inr other ↦ ground arith
]

digits-cons :
    (fuel n : ℕ) → n < fuel → (c : ℕ) × (cs : Text) × (digits fuel n ≡ c ∷ cs) × (48 ≤ c) × (c ≤ 57)
unfolding digits
digits-cons zero n h = absurd (omega arith)
digits-cons (suc fuel) n h = elim (Bool-cases (ltb n 10)) [
  | inl small ↦ (48 + n, [], ground arith, omega arith, ground arith)
  | inr big ↦
      let (c, cs, e, lo, hi) = digits-cons fuel (n / 10) (ground arith) in
      (c, cs ++ ((48 + n % 10) ∷ []), rw big (rw e refl), lo, hi)
]

pub read_digits-digits : (fuel n : ℕ) → n < fuel → read_digits 0 (digits fuel n) ≡ some n
unfolding digits read_digits
read_digits-digits zero n h = absurd (omega arith)
read_digits-digits (suc fuel) n h = elim (Bool-cases (ltb n 10)) [
  | inl small ↦ ground arith
  | inr big ↦ rw big (
      read_digits-append (digits fuel (n / 10)) 0 (n / 10) (48 + n % 10)
        (read_digits-digits fuel (n / 10) (ground arith)) (omega arith) (omega arith)
      ∙ ap some (omega arith))
]

parse_unsigned-decimal : (n : ℕ) → parse_unsigned (decimal n) ≡ some n
unfolding parse_unsigned
parse_unsigned-decimal n =
    let (c, cs, e, lo, hi) = digits-cons (suc n) n (omega arith) in
    let read = read_digits-digits (suc n) n (omega arith) in rw e (rw (← e) read)

-- ParseInt reads what %d printed, for every int64.
pub parse_int-format_int : (z : ℤ) → IsInt64 z → parse_int (format_int z) ≡ some z
unfolding parse_int format_int
parse_int-format_int (pos n) h =
    let (c, cs, e, lo, hi) = digits-cons (suc n) n (omega arith) in
    let read = parse_unsigned-decimal n in ground (arith, e, read)
parse_int-format_int (negsuc n) h = ground (arith, parse_unsigned-decimal (suc n))

-- Different numbers have different digits.
pub decimal-injective : (m n : ℕ) → decimal m ≡ decimal n → m ≡ n
decimal-injective m n e = of_some (
    sym (read_digits-digits (suc m) m (omega arith))
    ∙ ap (read_digits 0) e
    ∙ read_digits-digits (suc n) n (omega arith))

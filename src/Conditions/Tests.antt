-- ===== src/Conditions/Tests.antt =====
-- Runs of Build, and its theorem at a concrete predicate.
use Prim.Native.Nat.{ℕ, ◌+◌}
use fyer_webframe.Base.{◌≡◌, refl, [], ◌∷◌, some, length}
use fyer_webframe.Base.Text.{codes, text_dec}
use fyer_webframe.Conditions.{
  op_in, op_binary, Op, one, many, column, value, nested, predicate, Predicate, raw, placeholder,
  Building, bind_all, build_op, build_expr, build,
}
use fyer_webframe.Conditions.Placeholders.{marks, up_from, build-numbered}

-- What a run opens.
building : Unit {0}
unfolding text_dec bind_all build_op build_expr build
building = tt

abbrev op_eq : Op
op_eq = record { type = op_binary; keyword = codes "=" }

abbrev op_and : Op
op_and = record { type = op_binary; keyword = codes "AND" }

-- (a = 7) AND (b IN (8, 9))
abbrev both : Predicate ℕ
both =
    predicate (nested (predicate (column (codes "a")) op_eq (value (one 7)))) op_and
      (nested (predicate (column (codes "b")) op_in (value (many (8 ∷ 9 ∷ [])))))

abbrev empty : Building ℕ
empty = record { index = 1; written = []; args = [] }

abbrev built : Building ℕ
built = record {
  index = 4;
  written =
      raw (codes "(")
      ∷ raw (codes "a")
      ∷ raw (codes " ")
      ∷ raw (codes "=")
      ∷ raw (codes " ")
      ∷ placeholder 1
      ∷ raw (codes ")")
      ∷ raw (codes " ")
      ∷ raw (codes "AND")
      ∷ raw (codes " ")
      ∷ raw (codes "(")
      ∷ raw (codes "b")
      ∷ raw (codes " ")
      ∷ raw (codes "IN")
      ∷ raw (codes " ")
      ∷ raw (codes "(")
      ∷ placeholder 2
      ∷ raw (codes ", ")
      ∷ placeholder 3
      ∷ raw (codes ")")
      ∷ raw (codes ")")
      ∷ [];
  args = one 7 ∷ one 8 ∷ one 9 ∷ [];
}

run : build both empty ≡ some built
unfolding building
run = refl

build-numbered_example :
    (marks built.written ≡ up_from 1 (length built.args)) × (built.index ≡ 1 + length built.args)
build-numbered_example = build-numbered both empty built refl refl run

-- ===== src/Conditions/Placeholders.antt =====
-- orm/condition.go: the placeholders of a condition and its arguments agree.
use Prim.Native.Nat.{ℕ, zero, suc, ◌+◌}
use fyer_webframe.Base.{
  ◌≡◌, refl, ap, ◌∙◌, Bool, true, false, ◌&&◌, ◌||◌, List, [], ◌∷◌, ◌++◌, Option, none, some, arith,
  length, length-append, if◌then◌else◌, of_some,
}
use mathlib.Core.Path.{subst}
use fyer_webframe.Base.Text.{Text, codes}
use fyer_webframe.Conditions.{
  OpType, op_binary, op_unary, op_ternary, op_unknown, Op, op_in, op_notin, op_between,
  op_notbetween, Value, one, many, nil_value, Expr, no_expr, column, aggregate, value, nested,
  other, Predicate, predicate, Piece, raw, placeholder, Building, write, bind_value, bind_all,
  in_values, between_values, is_nil, keyword_is, then_build, spaced, build_op, build_expr, build,
}

-- The numbers of the placeholders, in order.
unfoldable pub marks : List Piece → List ℕ
marks [] = []
marks (raw t ∷ ps) = marks ps
marks (placeholder n ∷ ps) = n ∷ marks ps

-- n, n + 1, ..., as many as asked.
unfoldable pub up_from : ℕ → ℕ → List ℕ
up_from n zero = []
up_from n (suc k) = n ∷ up_from (n + 1) k

marks_raw : (ps : List Piece) (t : Text) → marks (ps ++ (raw t ∷ [])) ≡ marks ps
unfolding marks
marks_raw [] t = refl
marks_raw (raw u ∷ ps) t = marks_raw ps t
marks_raw (placeholder n ∷ ps) t = ap (n ∷◌) (marks_raw ps t)

marks_placeholder :
    (ps : List Piece) (n : ℕ) → marks (ps ++ (placeholder n ∷ [])) ≡ marks ps ++ (n ∷ [])
unfolding marks
marks_placeholder [] n = refl
marks_placeholder (raw u ∷ ps) n = marks_placeholder ps n
marks_placeholder (placeholder m ∷ ps) n = ap (m ∷◌) (marks_placeholder ps n)

up_from_end : (n k : ℕ) → up_from n (k + 1) ≡ up_from n k ++ ((n + k) ∷ [])
unfolding up_from
up_from_end n zero = ground arith
up_from_end n (suc k) = ground (arith, up_from_end (n + 1) k)

-- The placeholders count up from `n`, one for each argument, and the index is behind the last.
pub record Fits {A : Type 0} (n : ℕ) (b : Building A) : Type 0 where
  pub counted : b.index ≡ n + length b.args
  pub numbered : marks b.written ≡ up_from n (length b.args)

abbrev pub FitsAll : {A : Type 0} → ℕ → Option (Building A) → Type 0
FitsAll n none = Unit
FitsAll n (some b) = Fits n b

module _ {A : Type 0} (n : ℕ) where
  pub write-Fits : (t : Text) (b : Building A) → Fits n b → Fits n (write t b)
  write-Fits t b f = record { counted = f.counted; numbered = marks_raw b.written t ∙ f.numbered }

  spaced-Fits : (t : Text) (b : Building A) → Fits n b → Fits n (spaced t b)
  spaced-Fits t b f = write-Fits (codes " ") _ (write-Fits t _ (write-Fits (codes " ") b f))

  pub bind_value-Fits : (v : Value A) (b : Building A) → Fits n b → Fits n (bind_value v b)
  bind_value-Fits v b f =
      let longer : length (b.args ++ (v ∷ [])) ≡ length b.args + 1 =
        length-append b.args (v ∷ []) in
      record {
        counted = omega (arith, longer, f.counted);
        numbered =
            marks_placeholder b.written b.index
            ∙ rw longer (rw (up_from_end n (length b.args)) (rw f.numbered (rw f.counted refl)));
      }

  bind_all-Fits : (vs : List A) (b : Building A) → Fits n b → Fits n (bind_all vs b)
  unfolding bind_all
  bind_all-Fits [] b f = f
  bind_all-Fits (v ∷ []) b f = bind_value-Fits (one v) b f
  bind_all-Fits (v ∷ w ∷ vs) b f =
      bind_all-Fits (w ∷ vs) _ (write-Fits (codes ", ") _ (bind_value-Fits (one v) b f))

  in_values-Fits : (e : Expr A) (b : Building A) → Fits n b → Fits n (in_values e b)
  in_values-Fits no_expr b f = f
  in_values-Fits (column t) b f = f
  in_values-Fits (aggregate t) b f = f
  in_values-Fits (value (one a)) b f = f
  in_values-Fits (value (many vs)) b f = bind_all-Fits vs b f
  in_values-Fits (value nil_value) b f = f
  in_values-Fits (nested p) b f = f
  in_values-Fits (other a) b f = f

  between_values-Fits : (e : Expr A) (b : Building A) → Fits n b → Fits n (between_values e b)
  between_values-Fits no_expr b f = f
  between_values-Fits (column t) b f = f
  between_values-Fits (aggregate t) b f = f
  between_values-Fits (value (one a)) b f = f
  between_values-Fits (value (many [])) b f = f
  between_values-Fits (value (many (v ∷ []))) b f = f
  between_values-Fits (value (many (v ∷ w ∷ []))) b f =
      bind_value-Fits (one w) _ (write-Fits (codes " AND ") _ (bind_value-Fits (one v) b f))
  between_values-Fits (value (many (v ∷ w ∷ x ∷ vs))) b f = f
  between_values-Fits (value nil_value) b f = f
  between_values-Fits (nested p) b f = f
  between_values-Fits (other a) b f = f

  then_build-FitsAll :
      (o : Option (Building A)) (k : Building A → Option (Building A))
      → FitsAll n o
      → ((b : Building A) → Fits n b → FitsAll n (k b))
      → FitsAll n (then_build o k)
  then_build-FitsAll none k f g = tt
  then_build-FitsAll (some b) k f g = g b f

  if-FitsAll :
      (t : Bool) (x y : Option (Building A))
      → FitsAll n x
      → FitsAll n y
      → FitsAll n (if t then x else y)
  if-FitsAll true x y f g = f
  if-FitsAll false x y f g = g

  build_op-FitsAll :
      (type : OpType) (op : Op) (left right : Expr A) (b : Building A) (l : Option (Building A))
      (k : Building A → Option (Building A))
      → Fits n b
      → FitsAll n l
      → ((c : Building A) → Fits n c → FitsAll n (k c))
      → FitsAll n (build_op type op left right b l k)
  unfolding build_op
  build_op-FitsAll op_unary op left right b l k f g h =
      if-FitsAll (is_nil left && is_nil right) none _ tt (
        then_build-FitsAll _ _
          (if-FitsAll (is_nil left) (some b) _ f
            (then_build-FitsAll l _ g (λ c e. write-Fits (codes " ") c e)))
          (λ c e.
            if-FitsAll (is_nil right) (some (write op.keyword c)) _ (write-Fits op.keyword c e)
              (h _ (write-Fits (codes " ") _ (write-Fits op.keyword c e)))))
  build_op-FitsAll op_binary op left right b l k f g h = if-FitsAll (is_nil left) none _ tt (
      then_build-FitsAll l _ g (λ c e.
        if-FitsAll (keyword_is op op_in || keyword_is op op_notin) (some _) _
          (write-Fits (codes ")") _
            (in_values-Fits right _ (write-Fits (codes "(") _ (spaced-Fits op.keyword c e))))
          (h _ (spaced-Fits op.keyword c e))))
  build_op-FitsAll op_ternary op left right b l k f g h =
      if-FitsAll (keyword_is op op_between || keyword_is op op_notbetween) _ (some b)
        (then_build-FitsAll l _ g (λ c e. between_values-Fits right _ (spaced-Fits op.keyword c e)))
        f
  build_op-FitsAll op_unknown op left right b l k f g h = tt

  mutual
    unfolding build_expr build

    build_expr-FitsAll : (e : Expr A) (b : Building A) → Fits n b → FitsAll n (build_expr e b)
    build_expr-FitsAll no_expr b f = bind_value-Fits nil_value b f
    build_expr-FitsAll (column t) b f = write-Fits t b f
    build_expr-FitsAll (aggregate t) b f = write-Fits t b f
    build_expr-FitsAll (value v) b f = bind_value-Fits v b f
    build_expr-FitsAll (nested p) b f =
        then_build-FitsAll _ _ (build-FitsAll p _ (write-Fits (codes "(") b f))
          (λ c e. write-Fits (codes ")") c e)
    build_expr-FitsAll (other a) b f = bind_value-Fits (one a) b f

    pub build-FitsAll : (p : Predicate A) (b : Building A) → Fits n b → FitsAll n (build p b)
    build-FitsAll (predicate left op right) b f =
        build_op-FitsAll op.type op left right b _ _ f (build_expr-FitsAll left b f)
          (λ c e. build_expr-FitsAll right c e)

of_FitsAll :
    {A : Type 0} (n : ℕ) (o : Option (Building A)) (c : Building A)
    → o ≡ some c
    → FitsAll n o
    → Fits n c
of_FitsAll n none c e f = cc
of_FitsAll n (some b) c e f = subst (Fits n) (of_some e) f

-- Where Build does not panic, on a builder without text and arguments, the numbers of the
-- placeholders in the text count up from the first index, one for each argument, and the index
-- ends behind the last.
pub build-numbered :
    {A : Type 0} (p : Predicate A) (b c : Building A)
    → b.written ≡ []
    → b.args ≡ []
    → build p b ≡ some c
    → (marks c.written ≡ up_from b.index (length c.args)) × (c.index ≡ b.index + length c.args)
unfolding marks up_from
build-numbered p b c unwritten unbound e =
    let start : Fits b.index b = record {
      counted = rw unbound (omega arith);
      numbered = rw unwritten (rw unbound refl);
    } in
    let f = of_FitsAll b.index (build p b) c e (build-FitsAll b.index p b start) in
    (f.numbered, f.counted)

-- ===== src/Conditions.antt =====
-- orm/condition.go and orm/op.go: the text and the arguments that a predicate is built to. The
-- builder's text is a list of pieces, where a placeholder keeps its number; the dialect's Placeholder
-- prints it. `A` is the type of the arguments.
pub mod Placeholders
pub mod Tests
use fyer_webframe.Base.{
  ℕ, ◌+◌, Bool, true, false, ◌&&◌, ◌||◌, List, [], ◌∷◌, ◌++◌, Option, none, some, if◌then◌else◌,
  ite,
}
use fyer_webframe.Base.Text.{Text, codes, text_dec}

pub data OpType : Type 0 where
  op_binary : OpType
  op_unary : OpType
  op_ternary : OpType
  op_unknown : OpType

pub record Op : Type 0 where
  pub type : OpType
  pub keyword : Text

-- The predefined operators that Build compares with.
abbrev pub op_in : Op
op_in = record { type = op_binary; keyword = codes "IN" }

abbrev pub op_notin : Op
op_notin = record { type = op_binary; keyword = codes "NOT IN" }

abbrev pub op_between : Op
op_between = record { type = op_ternary; keyword = codes "BETWEEN" }

abbrev pub op_notbetween : Op
op_notbetween = record { type = op_ternary; keyword = codes "NOT BETWEEN" }

-- An argument: a []any, any other value, or nil.
pub data Value (A : Type 0) : Type 0 where
  one : A → Value A
  many : List A → Value A
  nil_value : Value A

-- The text of a column or an aggregate is what its own Build writes; `other` is any other
-- expression, which becomes an argument itself, and so does `no_expr`, which is nil.
mutual
  pub data Expr (A : Type 0) : Type 0 where
    no_expr : Expr A
    column : Text → Expr A
    aggregate : Text → Expr A
    value : Value A → Expr A
    nested : Predicate A → Expr A
    other : A → Expr A

  pub data Predicate (A : Type 0) : Type 0 where
    predicate : Expr A → Op → Expr A → Predicate A

pub data Piece : Type 0 where
  raw : Text → Piece
  placeholder : ℕ → Piece

-- The model's index, the builder and the arguments.
pub record Building (A : Type 0) : Type 0 where
  pub index : ℕ
  pub written : List Piece
  pub args : List (Value A)

abbrev pub keyword_is : Op → Op → Bool
keyword_is a b = ite (text_dec a.keyword b.keyword) true false

module _ {A : Type 0} where
  abbrev pub write : Text → Building A → Building A
  write t b = record b { written = b.written ++ (raw t ∷ []) }

  -- A placeholder, with its argument.
  abbrev pub bind_value : Value A → Building A → Building A
  bind_value v b = record b {
    index = b.index + 1;
    written = b.written ++ (placeholder b.index ∷ []);
    args = b.args ++ (v ∷ []);
  }

  -- The loop over the values of IN, with a comma between two.
  unfoldable pub bind_all : List A → Building A → Building A
  bind_all [] b = b
  bind_all (v ∷ []) b = bind_value (one v) b
  bind_all (v ∷ w ∷ vs) b = bind_all (w ∷ vs) (write (codes ", ") (bind_value (one v) b))

  abbrev pub in_values : Expr A → Building A → Building A
  in_values (value (many vs)) b = bind_all vs b
  in_values e b = b

  abbrev pub between_values : Expr A → Building A → Building A
  between_values (value (many (v ∷ w ∷ []))) b =
      bind_value (one w) (write (codes " AND ") (bind_value (one v) b))
  between_values e b = b

  abbrev pub is_nil : Expr A → Bool
  is_nil no_expr = true
  is_nil e = false

  abbrev pub then_build :
      Option (Building A) → (Building A → Option (Building A)) → Option (Building A)
  then_build none k = none
  then_build (some b) k = k b

  abbrev pub spaced : Text → Building A → Building A
  spaced keyword b = write (codes " ") (write keyword (write (codes " ") b))

  -- The switch on the operator's type, after the operands.
  unfoldable pub build_op :
      OpType
      → Op
      → Expr A
      → Expr A
      → Building A
      → Option (Building A)
      → (Building A → Option (Building A))
      → Option (Building A)
  build_op op_unary op left right b built_left build_right =
      let before =
        if is_nil left then some b else then_build built_left (λ c. some (write (codes " ") c)) in
      if is_nil left && is_nil right
      then none
      else then_build before (λ c.
        if is_nil right
        then some (write op.keyword c)
        else build_right (write (codes " ") (write op.keyword c)))
  build_op op_binary op left right b built_left build_right =
      if is_nil left
      then none
      else then_build built_left (λ c.
        if keyword_is op op_in || keyword_is op op_notin
        then some (write (codes ")") (in_values right (write (codes "(") (spaced op.keyword c))))
        else build_right (spaced op.keyword c))
  build_op op_ternary op left right b built_left build_right =
      if keyword_is op op_between || keyword_is op op_notbetween
      then then_build built_left (λ c. some (between_values right (spaced op.keyword c)))
      else some b
  build_op op_unknown op left right b built_left build_right = none

  -- none is a panic.
  unfoldable mutual
    -- buildExpr
    pub build_expr : Expr A → Building A → Option (Building A)
    build_expr no_expr b = some (bind_value nil_value b)
    build_expr (column t) b = some (write t b)
    build_expr (aggregate t) b = some (write t b)
    build_expr (value v) b = some (bind_value v b)
    build_expr (nested p) b =
        then_build (build p (write (codes "(") b)) (λ c. some (write (codes ")") c))
    build_expr (other a) b = some (bind_value (one a) b)

    -- Build
    pub build : Predicate A → Building A → Option (Building A)
    build (predicate left op right) b =
        let left_first = build_expr left b in
        build_op op.type op left right b left_first (λ c. build_expr right c)

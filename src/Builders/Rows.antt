-- ===== src/Builders/Rows.antt =====
-- orm/inserter.go, Insert and Build: the placeholders of a row are made once and written for every row.
-- A row is the function that gives the value of a field by its name.
use fyer_webframe.Base.{
  ℕ, zero, suc, ◌+◌, ◌*◌, ◌≡◌, refl, sym, ap, ◌∙◌, List, [], ◌∷◌, ◌++◌, Option, none, some, arith,
  map, length, length-append, none≢some, of_some,
}
use mathlib.Core.Path.{subst}
use mathlib.Core.List.{append-nil}
use fyer_webframe.Base.Text.{Text, codes}
use fyer_webframe.Base.Map.{lookup}
use fyer_webframe.Conditions.{Value, Piece, raw, placeholder}
use fyer_webframe.Conditions.Placeholders.{marks, up_from}
use fyer_webframe.Builders.Columns.{Model}
use fyer_webframe.Builders.Calls.{Draft, put_text}

-- The columns of the fields, between commas; none is the panic for a field that is not there.
abbrev pub then_text : Option Text → (Text → Option Text) → Option Text
then_text none k = none
then_text (some t) k = k t

unfoldable pub column_list : Model → List Text → Option Text
column_list m [] = some []
column_list m (field ∷ []) =
    then_text (lookup field m.fields_map) (λ col_name. some (m.quote col_name))
column_list m (field ∷ other ∷ fields) = then_text (lookup field m.fields_map) (λ col_name.
    then_text (column_list m (other ∷ fields))
      (λ rest. some (m.quote col_name ++ codes ", " ++ rest)))

-- basePlaceHolders from an index on, for as many columns.
unfoldable pub placeholder_list : ℕ → ℕ → List Piece
placeholder_list n zero = []
placeholder_list n (suc zero) = placeholder n ∷ []
placeholder_list n (suc (suc k)) =
    placeholder n ∷ raw (codes ", ") ∷ placeholder_list (n + 1) (suc k)

abbrev pub base_placeholders : ℕ → ℕ → List Piece
base_placeholders n k = raw (codes "(") ∷ (placeholder_list n k ++ (raw (codes ")") ∷ []))

-- The placeholders of all rows.
unfoldable pub row_list : {B : Type 0} → List Piece → List B → List Piece
row_list base [] = []
row_list base (row ∷ []) = base
row_list base (row ∷ other ∷ rows) = base ++ (raw (codes ", ") ∷ row_list base (other ∷ rows))

abbrev pub fields_of : List Text → List Text → List Text
fields_of [] all = all
fields_of (col ∷ cols) all = col ∷ cols

module _ {A : Type 0} where
  unfoldable pub row_values : List Text → List (Text → Value A) → List (Value A)
  row_values fields [] = []
  row_values fields (row ∷ rows) = map row fields ++ row_values fields rows

  abbrev pub inserted : List Text → List (Text → Value A) → Draft A → Option Text → Option (Draft A)
  inserted fields rows d none = none
  inserted fields rows d (some cols) = some (record d {
    building = record {
      index = d.building.index + length fields;
      written =
          d.building.written
          ++ (raw (codes "INSERT INTO ")
              ∷ raw (d.model.quote d.model.table ++ codes " ")
              ∷ raw (codes "(" ++ cols ++ codes ")")
              ∷ raw (codes " VALUES ")
              ∷ row_list (base_placeholders d.building.index (length fields)) rows);
      args = d.building.args ++ row_values fields rows;
    };
  })

  -- Insert, with the names of all fields of the struct; none is a panic.
  unfoldable pub insert : List Text → List Text → List (Text → Value A) → Draft A → Option (Draft A)
  insert cols all [] d = none
  insert cols all (row ∷ rows) d =
      inserted (fields_of cols all) (row ∷ rows) d (column_list d.model (fields_of cols all))

  -- Build
  unfoldable pub build_inserter : Draft A → Draft A
  build_inserter d = put_text (codes ";") d

marks-append : (ps qs : List Piece) → marks (ps ++ qs) ≡ marks ps ++ marks qs
unfolding marks
marks-append [] qs = refl
marks-append (raw t ∷ ps) qs = marks-append ps qs
marks-append (placeholder n ∷ ps) qs = ap (n ∷◌) (marks-append ps qs)

marks-placeholder_list : (n k : ℕ) → marks (placeholder_list n k) ≡ up_from n k
unfolding marks placeholder_list up_from
marks-placeholder_list n zero = refl
marks-placeholder_list n (suc zero) = refl
marks-placeholder_list n (suc (suc k)) = ap (n ∷◌) (marks-placeholder_list (n + 1) (suc k))

marks-base_placeholders : (n k : ℕ) → marks (base_placeholders n k) ≡ up_from n k
unfolding marks
marks-base_placeholders n k =
    marks-append (placeholder_list n k) (raw (codes ")") ∷ [])
    ∙ append-nil (marks (placeholder_list n k))
    ∙ marks-placeholder_list n k

-- One list for each row.
unfoldable pub repeated : {B : Type 0} → List ℕ → List B → List ℕ
repeated ns [] = []
repeated ns (row ∷ rows) = ns ++ repeated ns rows

marks-row_list :
    {B : Type 0} (n k : ℕ) (rows : List B)
    → marks (row_list (base_placeholders n k) rows) ≡ repeated (up_from n k) rows
unfolding row_list repeated marks
marks-row_list n k [] = refl
marks-row_list n k (row ∷ []) = marks-base_placeholders n k ∙ sym (append-nil (up_from n k))
marks-row_list n k (row ∷ other ∷ rows) =
    marks-append (base_placeholders n k)
      (raw (codes ", ") ∷ row_list (base_placeholders n k) (other ∷ rows))
    ∙ ap (λ x. x ++ marks (row_list (base_placeholders n k) (other ∷ rows)))
        (marks-base_placeholders n k)
    ∙ ap (λ x. up_from n k ++ x) (marks-row_list n k (other ∷ rows))

length-map : {B C : Type 0} (f : B → C) (xs : List B) → length (map f xs) ≡ length xs
length-map f [] = refl
length-map f (x ∷ xs) = ap suc (length-map f xs)

module _ {A : Type 0} where
  length-row_values :
      (fields : List Text) (rows : List (Text → Value A))
      → length (row_values fields rows) ≡ length rows * length fields
  unfolding row_values
  length-row_values fields [] = omega arith
  length-row_values fields (row ∷ rows) =
      length-append (map row fields) (row_values fields rows)
      ∙ ap (λ n. n + length (row_values fields rows)) (length-map row fields)
      ∙ ap (λ n. length fields + n) (length-row_values fields rows)
      ∙ omega arith

  -- Where Insert does not panic, it writes the numbers of the first row again for every row, while
  -- it adds as many arguments as rows times columns and moves the index by the number of columns
  -- only.
  pub insert-marks :
      (cols all : List Text) (rows : List (Text → Value A)) (d e : Draft A)
      → insert cols all rows d ≡ some e
      → let k = length (fields_of cols all) in
        (marks e.building.written
          ≡ marks d.building.written ++ repeated (up_from d.building.index k) rows)
        × (length e.building.args ≡ length d.building.args + length rows * k)
        × (e.building.index ≡ d.building.index + k)
  unfolding insert marks
  insert-marks cols all [] d e q = absurd (none≢some q)
  insert-marks cols all (row ∷ rows) d e q = of_columns (column_list d.model fields) q
    where
      fields : List Text
      fields = fields_of cols all

      of_columns :
          (o : Option Text)
          → inserted fields (row ∷ rows) d o ≡ some e
          → (marks e.building.written
              ≡ marks d.building.written
                ++ repeated (up_from d.building.index (length fields)) (row ∷ rows))
            × (length e.building.args
                ≡ length d.building.args + length (row ∷ rows) * length fields)
            × (e.building.index ≡ d.building.index + length fields)
      of_columns none r = absurd (none≢some r)
      of_columns (some t) r =
          subst
            (λ x.
              (marks x.building.written
                ≡ marks d.building.written
                  ++ repeated (up_from d.building.index (length fields)) (row ∷ rows))
              × (length x.building.args
                  ≡ length d.building.args + length (row ∷ rows) * length fields)
              × (x.building.index ≡ d.building.index + length fields))
            (of_some r)
            (
              marks-append d.building.written _
                  ∙ ap (λ x. marks d.building.written ++ x)
                      (marks-row_list d.building.index (length fields) (row ∷ rows)),
              length-append d.building.args (row_values fields (row ∷ rows))
                  ∙ ap (λ n. length d.building.args + n) (length-row_values fields (row ∷ rows)),
              refl,
            )

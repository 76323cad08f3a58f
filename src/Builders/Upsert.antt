-- ===== src/Builders/Upsert.antt =====
-- orm/postgresql.go, orm/sqlite.go and orm/mysql.go: BuildUpsert, which an Inserter's Upsert calls.
use fyer_webframe.Base.{◌≡◌, ◌≢◌, refl, Bool, true, false, List, [], ◌∷◌, ◌++◌, Option, none, some}
use fyer_webframe.Base.Text.{Text, codes}
use fyer_webframe.Base.Map.{lookup}
use fyer_webframe.Builders.Columns.{Model, Column, build_column}
use fyer_webframe.Builders.Calls.{with_model}

-- A text so far with the model; none is a panic.
abbrev pub Written : Type 0
Written = Option (Text × Model)

abbrev pub add_text : Text → Written → Written
add_text t none = none
add_text t (some (s, m)) = some (s ++ t, m)

abbrev pub add_built : Text → Written → Written
add_built s none = none
add_built s (some (t, m)) = some (s ++ t, m)

-- Column.Build behind the text.
abbrev pub add_column : Column → Written → Written
add_column c none = none
add_column c (some (s, m)) = add_built s (build_column (with_model c) m)

-- BuildWithoutQuote
abbrev pub add_bare_name : Text → Model → Option Text → Written
add_bare_name s m none = none
add_bare_name s m (some col_name) = some (s ++ col_name, m)

abbrev pub add_bare : Column → Written → Written
add_bare c none = none
add_bare c (some (s, m)) = add_bare_name s m (lookup c.name m.fields_map)

abbrev pub comma_between : List Column → Written → Written
comma_between [] w = w
comma_between (c ∷ cols) w = add_text (codes ", ") w

-- The two loops over the columns.
unfoldable pub conflict_list : List Column → Written → Written
conflict_list [] w = w
conflict_list (c ∷ cols) w = conflict_list cols (comma_between cols (add_column c w))

unfoldable pub excluded_list : List Column → Written → Written
excluded_list [] w = w
excluded_list (c ∷ cols) w =
    excluded_list cols
      (comma_between cols (add_bare c (add_text (codes " = EXCLUDED.") (add_bare c w))))

-- BuildUpsert of PostgreSQL and of SQLite
unfoldable pub build_upsert : List Column → List Column → Model → Written
build_upsert [] cols m = none
build_upsert (k ∷ keys) [] m = none
build_upsert (k ∷ keys) (c ∷ cols) m = excluded_list (c ∷ cols) (
    add_text (codes ") DO UPDATE SET ")
      (conflict_list (c ∷ cols) (some (codes " ON CONFLICT(", m))))

-- BuildUpsert of MySQL; `conflicts` is none where the argument is nil.
abbrev pub comma_front : Bool → Written → Written
comma_front true w = w
comma_front false w = add_text (codes ", ") w

unfoldable pub values_list : Bool → List Column → Written → Written
values_list first [] w = w
values_list first (c ∷ cols) w = values_list false cols (
    add_text (codes ")")
      (add_bare c (add_text (codes " = VALUES(") (add_column c (comma_front first w)))))

unfoldable pub build_upsert_mysql : Option (List Column) → List Column → Model → Written
build_upsert_mysql (some keys) cols m = none
build_upsert_mysql none [] m = none
build_upsert_mysql none (c ∷ cols) m =
    values_list true (c ∷ cols) (some (codes " ON DUPLICATE KEY UPDATE ", m))

-- The conflict columns are not read: on PostgreSQL and SQLite, Upsert writes the same statement for
-- any two lists of conflict columns that are not empty, with the updated columns in their place.
pub build_upsert-same :
    (keys others cols : List Column) (m : Model)
    → keys ≢ []
    → others ≢ []
    → build_upsert keys cols m ≡ build_upsert others cols m
unfolding build_upsert
build_upsert-same [] others cols m full filled = absurd (full refl)
build_upsert-same (k ∷ keys) [] cols m full filled = absurd (filled refl)
build_upsert-same (k ∷ keys) (o ∷ others) [] m full filled = refl
build_upsert-same (k ∷ keys) (o ∷ others) (c ∷ cols) m full filled = refl

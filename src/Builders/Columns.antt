-- ===== src/Builders/Columns.antt =====
-- orm/column.go and orm/aggregate.go: the text that a column and an aggregate write. The model that a
-- column has is injected by the builder before; a column that names a table and has no model is
-- written as it is.
use fyer_webframe.Base.{Bool, true, false, not, [], ◌∷◌, ◌++◌, Option, none, some, if◌then◌else◌}
use fyer_webframe.Base.Text.{Text, codes}
use fyer_webframe.Builders.Names.{Unicode, camel_to_snake}
use fyer_webframe.Base.Map.{Map, lookup, insert as put}

-- The dialect's Quote, with the tables that the builders read of a model.
pub record Model : Type 0 where
  pub quote : Text → Text
  pub table : Text
  pub fields_map : Map Text
  pub table_alias_map : Map Text
  pub col_alias_map : Map (Unit {0})

pub record Column : Type 0 where
  pub name : Text
  pub alias : Text
  pub table : Text
  pub has_model : Bool
  pub allow_alias : Bool

abbrev pub is_empty : Text → Bool
is_empty [] = true
is_empty (c ∷ s) = false

abbrev pub keep_alias : Text → Model → Model
keep_alias alias m = record m { col_alias_map = put alias tt m.col_alias_map }

-- What a table in front of the column writes once the model is there.
abbrev pub table_alias : Model → Option Text → Text
table_alias m none = []
table_alias m (some alias) = m.quote alias ++ codes "."

abbrev pub table_prefix : Column → Model → Text
table_prefix c m =
    if is_empty c.table
    then []
    else m.quote c.table ++ codes "." ++ table_alias m (lookup c.table m.table_alias_map)

-- A field of the model, then aliases.
abbrev pub of_alias_map : Text → Column → Model → Option (Unit {0}) → Option (Text × Model)
of_alias_map front c m none = none
of_alias_map front c m (some u) = some (front ++ m.quote c.name, m)

abbrev pub of_field : Text → Column → Model → Option Text → Option (Text × Model)
of_field front c m (some col_name) =
    if is_empty c.alias
    then some (front ++ m.quote col_name, m)
    else some (front ++ m.quote col_name ++ codes " AS " ++ m.quote c.alias, keep_alias c.alias m)
of_field front c m none =
    if not c.allow_alias
    then none
    else if not (is_empty c.alias)
    then some (front ++ m.quote c.alias, keep_alias c.alias m)
    else of_alias_map front c m (lookup c.name m.col_alias_map)

-- Quote of the base dialect and of MySQL
abbrev pub mysql_quote : Text → Text
mysql_quote name = codes "`" ++ name ++ codes "`"

-- Quote of PostgreSQL and SQLite
abbrev pub double_quote : Text → Text
double_quote name = codes "\"" ++ name ++ codes "\""

-- Column.Build; MySQL's quotes stand in for those of a model that is not there.
unfoldable pub build_column : Column → Model → Option (Text × Model)
build_column c m =
    if c.has_model
    then of_field (table_prefix c m) c m (lookup c.name m.fields_map)
    else if is_empty c.table
    then none
    else some (mysql_quote c.table ++ codes "." ++ mysql_quote c.name, m)

pub record Aggregate : Type 0 where
  pub fn : Text
  pub arg : Text
  pub alias : Text
  pub distinct : Bool

abbrev pub arg_text : Unicode → Aggregate → Model → Option Text → Text
arg_text u a m (some col_name) = m.quote col_name
arg_text u a m none = m.quote (camel_to_snake u a.arg)

-- Aggregate.Build with its model
unfoldable pub build_aggregate : Unicode → Aggregate → Model → Text × Model
build_aggregate u a m =
    let inside = if is_empty a.arg then codes "*" else arg_text u a m (lookup a.arg m.fields_map) in
    let text =
      a.fn ++ codes "(" ++ (if a.distinct then codes "DISTINCT " else []) ++ inside ++ codes ")" in
    if is_empty a.alias
    then (text, m)
    else (text ++ codes " AS " ++ m.quote a.alias, keep_alias a.alias m)

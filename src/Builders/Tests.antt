-- ===== src/Builders/Tests.antt =====
-- Runs of the builders, and the theorems on them at concrete statements.
use fyer_webframe.Base.{
  ℕ, ◌+◌, ◌*◌, ◌≡◌, refl, false, ◌&&◌, List, [], ◌∷◌, ◌++◌, Option, none, some, arith, length, leb,
  map,
}
use fyer_webframe.Base.Text.{Text, codes, text_dec, has_prefix, has_suffix}
use fyer_webframe.Base.Map.{lookup, insert as put}
use fyer_webframe.Conditions.{
  op_binary, Value, one, column, value, Predicate, predicate, raw, placeholder, bind_all, build_op,
  build_expr, build,
}
use fyer_webframe.Conditions.Placeholders.{marks, up_from}
use fyer_webframe.Builders.Names.{
  Unicode, snake_step, snake_from, camel_to_snake, camel_to_snake_last,
}
use fyer_webframe.Builders.Columns.{Model, Column, mysql_quote, build_column, build_aggregate}
use fyer_webframe.Builders.Calls.{
  of_column, of_raw, to_value, Draft, register_builder, select_each, select, group_each, group_by,
  order_each, order_by, set_rest, set_clauses, set_column, set_multi, update, conditions_each,
  where_clause, having, limit, offset, delete_each, delete_from, ends, build_selector,
  build_updater,
}
use fyer_webframe.Builders.Plain.{
  Call, selects, wheres, havings, limits, updates, sets, sets_multi, run_call, run_calls,
}
use fyer_webframe.Builders.Shared.{Shared, registers, does, run_turns, run_turns-numbered}
use fyer_webframe.Builders.Rows.{
  column_list, placeholder_list, row_list, row_values, insert, repeated, insert-marks,
}

-- What a run opens.
building : Unit {0}
unfolding text_dec has_prefix has_suffix lookup put bind_all build_op build_expr build marks up_from
    snake_step snake_from camel_to_snake build_column build_aggregate select_each select group_each
    group_by order_each order_by set_rest set_clauses set_column set_multi update conditions_each
    where_clause having limit offset delete_each delete_from ends build_selector build_updater
    run_call run_calls column_list placeholder_list row_list row_values insert repeated run_turns
building = tt

abbrev ascii : Unicode
ascii = record {
  is_upper = λ c. leb b'A' c && leb c b'Z';
  is_lower = λ c. leb b'a' c && leb c b'z';
  to_lower = λ c. c + 32;
}

names :
    (camel_to_snake ascii (codes "UserID") ≡ codes "user_id")
    × (camel_to_snake ascii (codes "HTTPHandler") ≡ codes "http_handler")
    × (camel_to_snake ascii (codes "Line1") ≡ codes "line")
unfolding building
names = (refl, refl, refl)

camel_to_snake_last_example :
    camel_to_snake ascii (codes "Line" ++ (b'1' ∷ [])) ≡ camel_to_snake ascii (codes "Line")
camel_to_snake_last_example = camel_to_snake_last ascii (codes "Line") b'1' refl refl

abbrev users : Model
users = record {
  quote = mysql_quote;
  table = codes "users";
  fields_map = (codes "ID", codes "id") ∷ (codes "Name", codes "name") ∷ [];
  table_alias_map = [];
  col_alias_map = [];
}

abbrev col : Text → Column
col name = record { name = name; alias = []; table = []; has_model = false; allow_alias = false }

abbrev by_id : Predicate ℕ
by_id =
    predicate (column (codes "`id`")) (record { type = op_binary; keyword = codes "=" })
      (value (one 7))

abbrev calls : List (Call ℕ)
calls =
    updates
    ∷ sets (col (codes "Name")) (to_value (one 5))
    ∷ wheres (by_id ∷ [])
    ∷ limits (codes "1")
    ∷ []

-- The draft behind calls that do not panic.
abbrev the : Option (Draft ℕ) → Draft ℕ
the none = register_builder users
the (some d) = d

abbrev updated : Draft ℕ
updated = the (run_calls ascii calls (register_builder users))

pieces :
    updated.building.written
    ≡ raw (codes "UPDATE ")
      ∷ raw (codes "`users`")
      ∷ raw (codes " SET ")
      ∷ raw (codes "`name`")
      ∷ raw (codes " = ")
      ∷ placeholder 1
      ∷ raw (codes " WHERE ")
      ∷ raw (codes "`id`")
      ∷ raw (codes " ")
      ∷ raw (codes "=")
      ∷ raw (codes " ")
      ∷ placeholder 2
      ∷ raw (codes " LIMIT 1")
      ∷ []
unfolding building
pieces = refl

-- A model whose index is 4 after another builder.
abbrev shop : Shared ℕ
shop = record { model = users; index = 4; builders = λ b. register_builder users }

abbrev shared_or : Option (Shared ℕ) → Shared ℕ
shared_or none = shop
shared_or (some s) = s

abbrev one_by_one : Shared ℕ
one_by_one = shared_or (
    run_turns ascii (registers 1 ∷ does 1 (wheres (by_id ∷ [])) ∷ registers 2 ∷ map (does 2) calls)
      shop)

run_turns-numbered_example :
    let building = (one_by_one.builders 2).building in
    marks building.written ≡ up_from 1 (length building.args)
unfolding building
run_turns-numbered_example =
    run_turns-numbered ascii (registers 1 ∷ does 1 (wheres (by_id ∷ [])) ∷ []) 2 calls shop
      one_by_one (ground arith) refl

-- A builder that is registered between the calls of another sets the index back: the first one
-- numbers its two placeholders alike.
interleaved :
    let s = shared_or (
      run_turns ascii
        (registers 1
          ∷ does 1 (wheres (by_id ∷ []))
          ∷ registers 2
          ∷ does 1 (havings (by_id ∷ []))
          ∷ [])
        shop) in
    marks (s.builders 1).building.written ≡ 1 ∷ 1 ∷ []
unfolding building
interleaved = refl

-- Set behind SetMulti writes no comma between the two assignments.
no_comma :
    (the (
      run_calls ascii
        (updates
          ∷ sets_multi ((col (codes "Name"), to_value (one 5)) ∷ [])
          ∷ sets (col (codes "ID")) (to_value (one 6))
          ∷ [])
        (register_builder users))).building.written
    ≡ raw (codes "UPDATE ")
      ∷ raw (codes "`users`")
      ∷ raw (codes " SET ")
      ∷ raw (codes "`name`")
      ∷ raw (codes " = ")
      ∷ placeholder 1
      ∷ raw (codes "`id`")
      ∷ raw (codes " = ")
      ∷ placeholder 2
      ∷ []
unfolding building
no_comma = refl

-- A raw expression in the list of Select has no comma behind it.
raw_no_comma :
    (the (
      run_calls ascii
        (selects (of_raw (codes "1") [] ∷ of_column (col (codes "ID")) ∷ []) ∷ [])
        (register_builder users))).building.written
    ≡ raw (codes "SELECT ")
      ∷ raw (codes "1")
      ∷ raw (codes " ")
      ∷ raw (codes "`id`")
      ∷ raw (codes " ")
      ∷ raw (codes "FROM `users`")
      ∷ []
unfolding building
raw_no_comma = refl

abbrev row : ℕ → Text → Value ℕ
row n field = one n

abbrev two_rows : Draft ℕ
two_rows =
    the (insert (codes "ID" ∷ codes "Name" ∷ []) [] (row 3 ∷ row 4 ∷ []) (register_builder users))

insert-marks_example :
    (marks two_rows.building.written ≡ [] ++ repeated (1 ∷ 2 ∷ []) (row 3 ∷ row 4 ∷ []))
    × (length two_rows.building.args ≡ 0 + 2 * 2)
    × (two_rows.building.index ≡ 1 + 2)
unfolding building
insert-marks_example =
    insert-marks (codes "ID" ∷ codes "Name" ∷ []) [] (row 3 ∷ row 4 ∷ []) (register_builder users)
      two_rows refl

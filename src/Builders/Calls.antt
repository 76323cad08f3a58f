-- ===== src/Builders/Calls.antt =====
-- orm/selector.go, orm/updater.go and orm/deleter.go: the calls of the builders. A number is given as
-- strconv.Itoa prints it, and the predicates with the text of their columns.
use fyer_webframe.Base.{
  ℕ, ◌+◌, Bool, true, false, List, [], ◌∷◌, ◌++◌, Option, none, some, if◌then◌else◌, ltb,
}
use fyer_webframe.Base.Text.{Text, codes, has_suffix}
use fyer_webframe.Conditions.{
  Value, Predicate, Piece, raw, placeholder, Building, write, bind_value, build,
}
use fyer_webframe.Builders.Names.{Unicode}
use fyer_webframe.Builders.Columns.{
  Model, Column, Aggregate, is_empty, build_column, build_aggregate,
}

pub data Selectable (A : Type 0) : Type 0 where
  of_column : Column → Selectable A
  of_aggregate : Aggregate → Selectable A
  of_raw : Text → List (Value A) → Selectable A

pub data SetValue (A : Type 0) : Type 0 where
  to_column : Column → SetValue A
  to_predicate : Predicate A → SetValue A
  to_aggregate : Aggregate → SetValue A
  to_raw : Text → List (Value A) → SetValue A
  to_value : Value A → SetValue A

-- A builder: the last three fields are those of an Updater.
pub record Draft (A : Type 0) : Type 0 where
  pub model : Model
  pub building : Building A
  pub table_name : Text
  pub has_set : Bool
  pub set_cnt : ℕ

-- A column that names no table gets the model.
abbrev pub inject : Column → Column
inject c = if is_empty c.table then record c { has_model = true } else c

abbrev pub with_model : Column → Column
with_model c = record c { has_model = true }

abbrev pub aliased : Column → Column
aliased c = record c { has_model = true; allow_alias = true }

-- Whether the text ends in a semicolon; none where it is empty.
unfoldable pub ends : Option Bool → List Piece → Option Bool
ends seen [] = seen
ends seen (raw [] ∷ ps) = ends seen ps
ends seen (raw (c ∷ t) ∷ ps) = ends (some (has_suffix (c ∷ t) (codes ";"))) ps
ends seen (placeholder n ∷ ps) = ends (some false) ps

module _ {A : Type 0} where
  -- RegisterSelector, RegisterUpdater and RegisterDeleter, with the model's dialect set. The model
  -- with its index is one for all builders of a type, as Builders/Shared has it: a draft is a
  -- builder with the model as the builder finds it.
  abbrev pub register_builder : Model → Draft A
  register_builder m = record {
    model = m;
    building = record { index = 1; written = []; args = [] };
    table_name = [];
    has_set = false;
    set_cnt = 0;
  }

  abbrev pub put_text : Text → Draft A → Draft A
  put_text t d = record d { building = write t d.building }

  abbrev pub put_value : Value A → Draft A → Draft A
  put_value v d = record d { building = bind_value v d.building }

  -- The arguments of a raw expression, which leave the index alone.
  abbrev pub put_args : List (Value A) → Draft A → Draft A
  put_args vs d = record d { building = record (d.building) { args = d.building.args ++ vs } }

  abbrev pub put_built : Option (Text × Model) → Draft A → Option (Draft A)
  put_built none d = none
  put_built (some (t, m)) d = some (put_text t (record d { model = m }))

  abbrev pub put_building : Option (Building A) → Draft A → Option (Draft A)
  put_building none d = none
  put_building (some b) d = some (record d { building = b })

  abbrev pub then_draft : Option (Draft A) → (Draft A → Option (Draft A)) → Option (Draft A)
  then_draft none k = none
  then_draft (some d) k = k d

  abbrev pub comma_unless_last : {B : Type 0} → List B → Text → Draft A → Draft A
  comma_unless_last [] t d = d
  comma_unless_last (x ∷ xs) t d = put_text t d

  module _ (u : Unicode) where
    abbrev pub build_aggregated : Aggregate → Draft A → Option (Draft A)
    build_aggregated a d = put_built (some (build_aggregate u a d.model)) d

    -- One round of the loop of Select.
    abbrev pub select_one : List (Selectable A) → Selectable A → Draft A → Option (Draft A)
    select_one rest (of_column c) d =
        then_draft (put_built (build_column (inject c) d.model) d)
          (λ e. some (put_text (codes " ") (comma_unless_last rest (codes ",") e)))
    select_one rest (of_aggregate a) d =
        then_draft (build_aggregated a d)
          (λ e. some (put_text (codes " ") (comma_unless_last rest (codes ",") e)))
    select_one rest (of_raw t vs) d = some (put_args vs (put_text (codes " ") (put_text t d)))

    unfoldable pub select_each : List (Selectable A) → Draft A → Option (Draft A)
    select_each [] d = some d
    select_each (x ∷ rest) d = then_draft (select_one rest x d) (λ e. select_each rest e)

    abbrev pub sql_with_from : Draft A → Text
    sql_with_from d = codes "FROM " ++ d.model.quote d.model.table

    -- Select
    unfoldable pub select : List (Selectable A) → Draft A → Option (Draft A)
    select [] d = some (put_text (sql_with_from d) (put_text (codes "SELECT * ") d))
    select (x ∷ xs) d =
        then_draft (select_each (x ∷ xs) (put_text (codes "SELECT ") d))
          (λ e. some (put_text (sql_with_from d) e))

    -- One round of the loop of GroupBy, which refuses raw expressions.
    abbrev pub group_one : List (Selectable A) → Selectable A → Draft A → Option (Draft A)
    group_one rest (of_column c) d =
        then_draft (put_built (build_column (with_model c) d.model) d)
          (λ e. some (comma_unless_last rest (codes ", ") e))
    group_one rest (of_aggregate a) d =
        then_draft (build_aggregated a d) (λ e. some (comma_unless_last rest (codes ", ") e))
    group_one rest (of_raw t vs) d = none

    unfoldable pub group_each : List (Selectable A) → Draft A → Option (Draft A)
    group_each [] d = some d
    group_each (x ∷ rest) d = then_draft (group_one rest x d) (λ e. group_each rest e)

    abbrev pub has_two : List (Selectable A) → Bool
    has_two [] = false
    has_two (x ∷ []) = false
    has_two (x ∷ y ∷ xs) = true

    abbrev pub put_if : Bool → Text → Draft A → Draft A
    put_if b t d = if b then put_text t d else d

    -- GroupBy
    unfoldable pub group_by : List (Selectable A) → Draft A → Option (Draft A)
    group_by cols d =
        then_draft
          (group_each cols (put_if (has_two cols) (codes "(") (put_text (codes " GROUP BY ") d)))
          (λ e. some (put_if (has_two cols) (codes ")") e))

    -- OrderBy; the Boolean is desc.
    abbrev pub order_expr : Selectable A → Draft A → Option (Draft A)
    order_expr (of_column c) d = put_built (build_column (aliased c) d.model) d
    order_expr (of_aggregate a) d = build_aggregated a d
    order_expr (of_raw t vs) d = some (put_args vs (put_text t d))

    unfoldable pub order_each : Bool → List (Selectable A × Bool) → Draft A → Option (Draft A)
    order_each first [] d = some d
    order_each first ((x, desc) ∷ orders) d =
        then_draft
          (order_expr x (if first then d else put_text (codes " ") (put_text (codes ",") d)))
          (λ e. order_each false orders (if desc then put_text (codes " DESC") e else e))

    unfoldable pub order_by : List (Selectable A × Bool) → Draft A → Option (Draft A)
    order_by [] d = some d
    order_by (o ∷ orders) d = order_each true (o ∷ orders) (put_text (codes " ORDER BY ") d)

    -- The right side of an assignment.
    abbrev pub set_value : SetValue A → Draft A → Option (Draft A)
    set_value (to_column c) d = put_built (build_column (with_model c) d.model) d
    set_value (to_predicate p) d = put_building (build p d.building) d
    set_value (to_aggregate a) d = build_aggregated a d
    set_value (to_raw t vs) d = some (put_args vs (put_text t d))
    set_value (to_value v) d = some (put_value v d)

    abbrev pub set_one : Column → SetValue A → Draft A → Option (Draft A)
    set_one c v d =
        then_draft (put_built (build_column (with_model c) d.model) d)
          (λ e. set_value v (put_text (codes " = ") e))

    -- The loop of setClauses, from its second round on.
    unfoldable pub set_rest : List (Column × SetValue A) → Draft A → Option (Draft A)
    set_rest [] d = some d
    set_rest ((c, v) ∷ rest) d =
        then_draft (set_one c v (put_text (codes ", ") d)) (λ e. set_rest rest e)

    abbrev pub start_set : Draft A → Draft A
    start_set d = if d.has_set then d else put_text (codes " SET ") (record d { has_set = true })

    -- setClauses
    unfoldable pub set_clauses : List (Column × SetValue A) → Draft A → Option (Draft A)
    set_clauses [] d = some (start_set d)
    set_clauses ((c, v) ∷ rest) d = then_draft (set_one c v (start_set d)) (λ e. set_rest rest e)

    -- Set
    unfoldable pub set_column : Column → SetValue A → Draft A → Option (Draft A)
    set_column c v d =
        let counted : Draft A = record d { set_cnt = d.set_cnt + 1 } in
        set_clauses ((c, v) ∷ [])
          (if ltb 1 counted.set_cnt then put_text (codes ", ") counted else counted)

    -- SetMulti, in the order that `range` visits the columns
    unfoldable pub set_multi : List (Column × SetValue A) → Draft A → Option (Draft A)
    set_multi sets d = set_clauses sets (record d { set_cnt = 0 })

  -- Update
  unfoldable pub update : Draft A → Draft A
  update d =
      let table = if is_empty d.table_name then d.model.table else d.table_name in
      put_text (d.model.quote table) (put_text (codes "UPDATE ") d)

  -- The loop over conditions of Where and Having.
  unfoldable pub conditions_each : List (Predicate A) → Draft A → Option (Draft A)
  conditions_each [] d = some d
  conditions_each (p ∷ rest) d =
      then_draft (put_building (build p d.building) d)
        (λ e. conditions_each rest (comma_unless_last rest (codes " AND ") e))

  -- Where; the count is an Updater's.
  unfoldable pub where_clause : List (Predicate A) → Draft A → Option (Draft A)
  where_clause conditions d =
      conditions_each conditions (put_text (codes " WHERE ") (record d { set_cnt = 0 }))

  -- Having
  unfoldable pub having : List (Predicate A) → Draft A → Option (Draft A)
  having [] d = some d
  having (p ∷ ps) d = conditions_each (p ∷ ps) (put_text (codes " HAVING ") d)

  -- Limit, which sets the count of an Updater back, and Offset
  unfoldable pub limit : Text → Draft A → Draft A
  limit num d = put_text (codes " LIMIT " ++ num) (record d { set_cnt = 0 })

  unfoldable pub offset : Text → Draft A → Draft A
  offset num d = put_text (codes " OFFSET " ++ num) d

  -- Delete; an aggregate has no model there.
  abbrev pub delete_one : List (Selectable A) → Selectable A → Draft A → Option (Draft A)
  delete_one rest (of_column c) d =
      then_draft (put_built (build_column (with_model c) d.model) d)
        (λ e. some (put_text (codes " ") (comma_unless_last rest (codes ",") e)))
  delete_one rest (of_aggregate a) d = none
  delete_one rest (of_raw t vs) d = some (put_args vs (put_text (codes " ") (put_text t d)))

  unfoldable pub delete_each : List (Selectable A) → Draft A → Option (Draft A)
  delete_each [] d = some d
  delete_each (x ∷ rest) d = then_draft (delete_one rest x d) (λ e. delete_each rest e)

  unfoldable pub delete_from : List (Selectable A) → Draft A → Option (Draft A)
  delete_from [] d =
      some (put_text (d.model.quote d.model.table) (put_text (codes "DELETE FROM ") d))
  delete_from (x ∷ xs) d =
      then_draft (delete_each (x ∷ xs) (put_text (codes "DELETE ") d))
        (λ e. some (put_text (d.model.quote d.model.table) (put_text (codes "FROM ") e)))

  abbrev pub close_text : Option Bool → Draft A → Option (Draft A)
  close_text none d = none
  close_text (some true) d = some d
  close_text (some false) d = some (put_text (codes ";") d)

  -- Build of a selector, of an updater, and of a deleter
  unfoldable pub build_selector : Draft A → Option (Draft A)
  build_selector d = close_text (ends none d.building.written) d

  unfoldable pub build_updater : Draft A → Option (Draft A)
  build_updater d = if d.has_set then some (put_text (codes ";") d) else none

  unfoldable pub build_deleter : Draft A → Option (Draft A)
  build_deleter d = some (put_text (codes ";") d)

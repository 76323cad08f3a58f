-- ===== src/Builders/Numbered.antt =====
-- orm/selector.go, orm/updater.go and orm/deleter.go: the placeholders of a whole statement and its
-- arguments agree.
use fyer_webframe.Base.{◌+◌, Bool, true, false, List, [], ◌∷◌, ◌++◌, some, All, if◌then◌else◌, ltb}
use fyer_webframe.Base.Text.{codes}
use fyer_webframe.Conditions.{build}
use fyer_webframe.Conditions.Placeholders.{Fits, bind_value-Fits, build-FitsAll}
use fyer_webframe.Builders.Names.{Unicode}
use fyer_webframe.Builders.Columns.{Column, Aggregate, build_column, build_aggregate}
use fyer_webframe.Builders.Calls.{
  Selectable, of_column, of_aggregate, of_raw, SetValue, to_column, to_predicate, to_aggregate,
  to_raw, to_value, Draft, put_text, comma_unless_last, inject, with_model, aliased,
  build_aggregated, select_one, select_each, sql_with_from, select, group_one, group_each, has_two,
  put_if, group_by, order_expr, order_each, order_by, set_value, set_one, set_rest, start_set,
  set_clauses, set_column, set_multi, update, where_clause, having, limit, offset,
}
use fyer_webframe.Builders.Plain.{
  Call, selects, groups_by, orders_by, wheres, havings, limits, offsets, updates, sets, sets_multi,
  deletes, run_call, IsPlain, IsPlainValue, IsPlainCall, DraftFits, put_args-Fits,
  put_built-DraftFits, put_building-DraftFits, then_draft-DraftFits, comma-Fits, put_if-Fits,
  text-Fits, listed-Fits, raw-Fits, conditions_each-DraftFits, delete_from-DraftFits,
}

module _ {A : Type 0} where
  module _ (u : Unicode) where
    aggregated-DraftFits :
        (a : Aggregate) (d : Draft A) → Fits 1 d.building → DraftFits (build_aggregated u a d)
    aggregated-DraftFits a d f = put_built-DraftFits (some (build_aggregate u a d.model)) d f

    select_one-DraftFits :
        (rest : List (Selectable A)) (x : Selectable A) (d : Draft A)
        → IsPlain x
        → Fits 1 d.building
        → DraftFits (select_one u rest x d)
    select_one-DraftFits rest (of_column c) d plain f =
        then_draft-DraftFits _ _ (put_built-DraftFits (build_column (inject c) d.model) d f)
          (λ e g. listed-Fits rest e g)
    select_one-DraftFits rest (of_aggregate a) d plain f =
        then_draft-DraftFits (build_aggregated u a d)
          (λ e. some (put_text (codes " ") (comma_unless_last rest (codes ",") e)))
          (aggregated-DraftFits a d f) (λ e g. listed-Fits rest e g)
    select_one-DraftFits rest (of_raw t vs) d plain f = raw-Fits t vs d plain f

    select_each-DraftFits :
        (cols : List (Selectable A)) (d : Draft A)
        → All IsPlain cols
        → Fits 1 d.building
        → DraftFits (select_each u cols d)
    unfolding select_each
    select_each-DraftFits [] d plain f = f
    select_each-DraftFits (x ∷ rest) d (p, plain) f =
        then_draft-DraftFits _ _ (select_one-DraftFits rest x d p f)
          (λ e g. select_each-DraftFits rest e plain g)

    select-DraftFits :
        (cols : List (Selectable A)) (d : Draft A)
        → All IsPlain cols
        → Fits 1 d.building
        → DraftFits (select u cols d)
    unfolding select
    select-DraftFits [] d plain f =
        text-Fits (sql_with_from u d) (put_text (codes "SELECT * ") d).building
          (text-Fits (codes "SELECT * ") d.building f)
    select-DraftFits (x ∷ xs) d plain f =
        then_draft-DraftFits _ _
          (select_each-DraftFits (x ∷ xs) (put_text (codes "SELECT ") d) plain
            (text-Fits (codes "SELECT ") d.building f))
          (λ e g. text-Fits (sql_with_from u d) e.building g)

    group_each-DraftFits :
        (cols : List (Selectable A)) (d : Draft A)
        → Fits 1 d.building
        → DraftFits (group_each u cols d)
    unfolding group_each
    group_each-DraftFits [] d f = f
    group_each-DraftFits (of_column c ∷ rest) d f =
        then_draft-DraftFits _ _
          (then_draft-DraftFits _ _ (put_built-DraftFits (build_column (with_model c) d.model) d f)
            (λ e g. comma-Fits rest (codes ", ") e g))
          (λ e g. group_each-DraftFits rest e g)
    group_each-DraftFits (of_aggregate a ∷ rest) d f =
        then_draft-DraftFits (group_one u rest (of_aggregate a) d) (group_each u rest)
          (then_draft-DraftFits (build_aggregated u a d)
            (λ e. some (comma_unless_last rest (codes ", ") e)) (aggregated-DraftFits a d f)
            (λ e g. comma-Fits rest (codes ", ") e g))
          (λ e g. group_each-DraftFits rest e g)
    group_each-DraftFits (of_raw t vs ∷ rest) d f = tt

    group_by-DraftFits :
        (cols : List (Selectable A)) (d : Draft A)
        → Fits 1 d.building
        → DraftFits (group_by u cols d)
    unfolding group_by
    group_by-DraftFits cols d f =
        then_draft-DraftFits _ _
          (group_each-DraftFits cols
            (put_if u (has_two u cols) (codes "(") (put_text (codes " GROUP BY ") d))
            (put_if-Fits (has_two u cols) (codes "(") (put_text (codes " GROUP BY ") d)
              (text-Fits (codes " GROUP BY ") d.building f)))
          (λ e g. put_if-Fits (has_two u cols) (codes ")") e g)

    order_expr-DraftFits :
        (x : Selectable A) (d : Draft A)
        → IsPlain x
        → Fits 1 d.building
        → DraftFits (order_expr u x d)
    order_expr-DraftFits (of_column c) d plain f =
        put_built-DraftFits (build_column (aliased c) d.model) d f
    order_expr-DraftFits (of_aggregate a) d plain f = aggregated-DraftFits a d f
    order_expr-DraftFits (of_raw t vs) d plain f =
        put_args-Fits vs (put_text t d).building plain (text-Fits t d.building f)

    order_each-DraftFits :
        (first : Bool) (orders : List (Selectable A × Bool)) (d : Draft A)
        → All (λ o. IsPlain o.0) orders
        → Fits 1 d.building
        → DraftFits (order_each u first orders d)
    unfolding order_each
    order_each-DraftFits first [] d plain f = f
    order_each-DraftFits true ((x, desc) ∷ orders) d (p, plain) f =
        then_draft-DraftFits _ _ (order_expr-DraftFits x d p f) (λ e g.
          order_each-DraftFits false orders (if desc then put_text (codes " DESC") e else e) plain
            (put_if-Fits desc (codes " DESC") e g))
    order_each-DraftFits false ((x, desc) ∷ orders) d (p, plain) f =
        then_draft-DraftFits _ _
          (order_expr-DraftFits x (put_text (codes " ") (put_text (codes ",") d)) p (
            text-Fits (codes " ") (put_text (codes ",") d).building
              (text-Fits (codes ",") d.building f)))
          (λ e g.
            order_each-DraftFits false orders (if desc then put_text (codes " DESC") e else e) plain
              (put_if-Fits desc (codes " DESC") e g))

    set_value-DraftFits :
        (v : SetValue A) (d : Draft A)
        → IsPlainValue v
        → Fits 1 d.building
        → DraftFits (set_value u v d)
    set_value-DraftFits (to_column c) d plain f =
        put_built-DraftFits (build_column (with_model c) d.model) d f
    set_value-DraftFits (to_predicate p) d plain f =
        put_building-DraftFits (build p d.building) d (build-FitsAll 1 p d.building f)
    set_value-DraftFits (to_aggregate a) d plain f = aggregated-DraftFits a d f
    set_value-DraftFits (to_raw t vs) d plain f =
        put_args-Fits vs (put_text t d).building plain (text-Fits t d.building f)
    set_value-DraftFits (to_value v) d plain f = bind_value-Fits 1 v d.building f

    set_one-DraftFits :
        (c : Column) (v : SetValue A) (d : Draft A)
        → IsPlainValue v
        → Fits 1 d.building
        → DraftFits (set_one u c v d)
    set_one-DraftFits c v d plain f =
        then_draft-DraftFits _ _ (put_built-DraftFits (build_column (with_model c) d.model) d f)
          (λ e g.
            set_value-DraftFits v (put_text (codes " = ") e) plain
              (text-Fits (codes " = ") e.building g))

    set_rest-DraftFits :
        (pairs : List (Column × SetValue A)) (d : Draft A)
        → All (λ p. IsPlainValue p.1) pairs
        → Fits 1 d.building
        → DraftFits (set_rest u pairs d)
    unfolding set_rest
    set_rest-DraftFits [] d plain f = f
    set_rest-DraftFits ((c, v) ∷ rest) d (p, plain) f =
        then_draft-DraftFits _ _
          (set_one-DraftFits c v (put_text (codes ", ") d) p (text-Fits (codes ", ") d.building f))
          (λ e g. set_rest-DraftFits rest e plain g)

    start_set-Fits : (d : Draft A) → Fits 1 d.building → Fits 1 (start_set u d).building
    start_set-Fits d f = by_set d.has_set
      where
        by_set :
            (b : Bool)
            → Fits 1
                (if b then d else put_text (codes " SET ") (record d { has_set = true })).building
        by_set true = f
        by_set false = text-Fits (codes " SET ") d.building f

    set_clauses-DraftFits :
        (pairs : List (Column × SetValue A)) (d : Draft A)
        → All (λ p. IsPlainValue p.1) pairs
        → Fits 1 d.building
        → DraftFits (set_clauses u pairs d)
    unfolding set_clauses
    set_clauses-DraftFits [] d plain f = start_set-Fits d f
    set_clauses-DraftFits ((c, v) ∷ rest) d (p, plain) f =
        then_draft-DraftFits _ _ (set_one-DraftFits c v (start_set u d) p (start_set-Fits d f))
          (λ e g. set_rest-DraftFits rest e plain g)

    pub run_call-DraftFits :
        (call : Call A) (d : Draft A)
        → IsPlainCall call
        → Fits 1 d.building
        → DraftFits (run_call u call d)
    unfolding run_call order_by where_clause having limit offset update set_column set_multi
    run_call-DraftFits (selects cols) d plain f = select-DraftFits cols d plain f
    run_call-DraftFits (groups_by cols) d plain f = group_by-DraftFits cols d f
    run_call-DraftFits (orders_by []) d plain f = f
    run_call-DraftFits (orders_by (o ∷ orders)) d plain f =
        order_each-DraftFits true (o ∷ orders) (put_text (codes " ORDER BY ") d) plain
          (text-Fits (codes " ORDER BY ") d.building f)
    run_call-DraftFits (wheres conditions) d plain f =
        conditions_each-DraftFits conditions (put_text (codes " WHERE ") (record d { set_cnt = 0 }))
          (text-Fits (codes " WHERE ") d.building f)
    run_call-DraftFits (havings []) d plain f = f
    run_call-DraftFits (havings (p ∷ ps)) d plain f =
        conditions_each-DraftFits (p ∷ ps) (put_text (codes " HAVING ") d)
          (text-Fits (codes " HAVING ") d.building f)
    run_call-DraftFits (limits num) d plain f = text-Fits (codes " LIMIT " ++ num) d.building f
    run_call-DraftFits (offsets num) d plain f = text-Fits (codes " OFFSET " ++ num) d.building f
    run_call-DraftFits updates d plain f =
        text-Fits _ (put_text (codes "UPDATE ") d).building
          (text-Fits (codes "UPDATE ") d.building f)
    run_call-DraftFits (sets c v) d plain f =
        let counted : Draft A = record d { set_cnt = d.set_cnt + 1 } in
        set_clauses-DraftFits ((c, v) ∷ [])
          (if ltb 1 counted.set_cnt then put_text (codes ", ") counted else counted) (plain, tt)
          (put_if-Fits (ltb 1 counted.set_cnt) (codes ", ") counted f)
    run_call-DraftFits (sets_multi pairs) d plain f =
        set_clauses-DraftFits pairs (record d { set_cnt = 0 }) plain f
    run_call-DraftFits (deletes cols) d plain f = delete_from-DraftFits cols d plain f

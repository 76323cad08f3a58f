-- ===== src/Builders/Plain.antt =====
-- orm/selector.go, orm/updater.go and orm/deleter.go: the calls of a builder, those that bring no raw
-- arguments, and the steps that keep placeholders and arguments together.
use fyer_webframe.Base.{
  ◌≡◌, sym, Bool, true, false, List, [], ◌∷◌, ◌++◌, Option, none, some, All, if◌then◌else◌,
}
use mathlib.Core.Path.{subst}
use mathlib.Core.List.{append-nil}
use fyer_webframe.Base.Text.{Text, codes}
use fyer_webframe.Conditions.{Value, Predicate, Building, write, build}
use fyer_webframe.Conditions.Placeholders.{Fits, FitsAll, write-Fits, build-FitsAll}
use fyer_webframe.Builders.Names.{Unicode}
use fyer_webframe.Builders.Columns.{Model, Column, build_column}
use fyer_webframe.Builders.Calls.{
  Selectable, of_column, of_aggregate, of_raw, SetValue, to_column, to_predicate, to_aggregate,
  to_raw, to_value, Draft, put_text, put_args, put_built, put_building, then_draft,
  comma_unless_last, with_model, select, group_by, order_by, set_column, set_multi, update,
  conditions_each, where_clause, having, limit, offset, delete_one, delete_each, delete_from,
}

-- A call of a builder.
pub data Call (A : Type 0) : Type 0 where
  selects : List (Selectable A) → Call A
  groups_by : List (Selectable A) → Call A
  orders_by : List (Selectable A × Bool) → Call A
  wheres : List (Predicate A) → Call A
  havings : List (Predicate A) → Call A
  limits : Text → Call A
  offsets : Text → Call A
  updates : Call A
  sets : Column → SetValue A → Call A
  sets_multi : List (Column × SetValue A) → Call A
  deletes : List (Selectable A) → Call A

module _ {A : Type 0} (u : Unicode) where
  unfoldable pub run_call : Call A → Draft A → Option (Draft A)
  run_call (selects cols) d = select u cols d
  run_call (groups_by cols) d = group_by u cols d
  run_call (orders_by orders) d = order_by u orders d
  run_call (wheres conditions) d = where_clause conditions d
  run_call (havings conditions) d = having conditions d
  run_call (limits num) d = some (limit num d)
  run_call (offsets num) d = some (offset num d)
  run_call updates d = some (update d)
  run_call (sets c v) d = set_column u c v d
  run_call (sets_multi pairs) d = set_multi u pairs d
  run_call (deletes cols) d = delete_from cols d

  unfoldable pub run_calls : List (Call A) → Draft A → Option (Draft A)
  run_calls [] d = some d
  run_calls (call ∷ calls) d = then_draft (run_call call d) (λ e. run_calls calls e)

module _ {A : Type 0} where
  -- No raw expression brings arguments of its own.
  abbrev pub IsPlain : Selectable A → Type 0
  IsPlain (of_column c) = Unit {0}
  IsPlain (of_aggregate a) = Unit {0}
  IsPlain (of_raw t vs) = vs ≡ []

  abbrev pub IsPlainValue : SetValue A → Type 0
  IsPlainValue (to_column c) = Unit {0}
  IsPlainValue (to_predicate p) = Unit {0}
  IsPlainValue (to_aggregate a) = Unit {0}
  IsPlainValue (to_raw t vs) = vs ≡ []
  IsPlainValue (to_value v) = Unit {0}

  abbrev pub IsPlainCall : Call A → Type 0
  IsPlainCall (selects cols) = All IsPlain cols
  IsPlainCall (groups_by cols) = All IsPlain cols
  IsPlainCall (orders_by orders) = All (λ o. IsPlain o.0) orders
  IsPlainCall (wheres conditions) = Unit {0}
  IsPlainCall (havings conditions) = Unit {0}
  IsPlainCall (limits num) = Unit {0}
  IsPlainCall (offsets num) = Unit {0}
  IsPlainCall updates = Unit {0}
  IsPlainCall (sets c v) = IsPlainValue v
  IsPlainCall (sets_multi pairs) = All (λ p. IsPlainValue p.1) pairs
  IsPlainCall (deletes cols) = All IsPlain cols

  -- The builder fits, where there was no panic.
  abbrev pub DraftFits : Option (Draft A) → Type 0
  DraftFits none = Unit
  DraftFits (some d) = Fits 1 d.building

  pub put_args-Fits :
      (vs : List (Value A)) (b : Building A)
      → vs ≡ []
      → Fits 1 b
      → Fits 1 (record b { args = b.args ++ vs })
  put_args-Fits vs b e f =
      subst (λ l. Fits 1 (record b { args = b.args ++ l })) (sym e)
        (subst (λ l. Fits 1 (record b { args = l })) (sym (append-nil b.args)) f)

  pub put_built-DraftFits :
      (o : Option (Text × Model)) (d : Draft A) → Fits 1 d.building → DraftFits (put_built o d)
  put_built-DraftFits none d f = tt
  put_built-DraftFits (some (t, m)) d f = write-Fits 1 t d.building f

  pub put_building-DraftFits :
      (o : Option (Building A)) (d : Draft A) → FitsAll 1 o → DraftFits (put_building o d)
  put_building-DraftFits none d f = tt
  put_building-DraftFits (some b) d f = f

  pub then_draft-DraftFits :
      (o : Option (Draft A)) (k : Draft A → Option (Draft A))
      → DraftFits o
      → ((d : Draft A) → Fits 1 d.building → DraftFits (k d))
      → DraftFits (then_draft o k)
  then_draft-DraftFits none k f g = tt
  then_draft-DraftFits (some d) k f g = g d f

  pub comma-Fits :
      {B : Type 0} (rest : List B) (t : Text) (d : Draft A)
      → Fits 1 d.building
      → Fits 1 (comma_unless_last rest t d).building
  comma-Fits [] t d f = f
  comma-Fits (x ∷ xs) t d f = write-Fits 1 t d.building f

  pub put_if-Fits :
      (b : Bool) (t : Text) (d : Draft A)
      → Fits 1 d.building
      → Fits 1 (if b then put_text t d else d).building
  put_if-Fits true t d f = write-Fits 1 t d.building f
  put_if-Fits false t d f = f

  pub text-Fits : (t : Text) (b : Building A) → Fits 1 b → Fits 1 (write t b)
  text-Fits t b f = write-Fits 1 t b f

  -- What follows a column or an aggregate of a list.
  pub listed-Fits :
      {B : Type 0} (rest : List B) (d : Draft A)
      → Fits 1 d.building
      → Fits 1 (put_text (codes " ") (comma_unless_last rest (codes ",") d)).building
  listed-Fits rest d f =
      text-Fits (codes " ") (comma_unless_last rest (codes ",") d).building
        (comma-Fits rest (codes ",") d f)

  pub raw-Fits :
      (t : Text) (vs : List (Value A)) (d : Draft A)
      → vs ≡ []
      → Fits 1 d.building
      → Fits 1 (put_args vs (put_text (codes " ") (put_text t d))).building
  raw-Fits t vs d e f =
      put_args-Fits vs (put_text (codes " ") (put_text t d)).building e
        (text-Fits (codes " ") (put_text t d).building (text-Fits t d.building f))

  pub conditions_each-DraftFits :
      (conditions : List (Predicate A)) (d : Draft A)
      → Fits 1 d.building
      → DraftFits (conditions_each conditions d)
  unfolding conditions_each
  conditions_each-DraftFits [] d f = f
  conditions_each-DraftFits (p ∷ rest) d f =
      then_draft-DraftFits _ _
        (put_building-DraftFits (build p d.building) d (build-FitsAll 1 p d.building f))
        (λ e g. conditions_each-DraftFits rest _ (comma-Fits rest (codes " AND ") e g))

  pub delete_one-DraftFits :
      (rest : List (Selectable A)) (x : Selectable A) (d : Draft A)
      → IsPlain x
      → Fits 1 d.building
      → DraftFits (delete_one rest x d)
  delete_one-DraftFits rest (of_column c) d plain f =
      then_draft-DraftFits _ _ (put_built-DraftFits (build_column (with_model c) d.model) d f)
        (λ e g. listed-Fits rest e g)
  delete_one-DraftFits rest (of_aggregate a) d plain f = tt
  delete_one-DraftFits rest (of_raw t vs) d plain f = raw-Fits t vs d plain f

  pub delete_each-DraftFits :
      (cols : List (Selectable A)) (d : Draft A)
      → All IsPlain cols
      → Fits 1 d.building
      → DraftFits (delete_each cols d)
  unfolding delete_each
  delete_each-DraftFits [] d plain f = f
  delete_each-DraftFits (x ∷ rest) d (p, plain) f =
      then_draft-DraftFits _ _ (delete_one-DraftFits rest x d p f)
        (λ e g. delete_each-DraftFits rest e plain g)

  pub delete_from-DraftFits :
      (cols : List (Selectable A)) (d : Draft A)
      → All IsPlain cols
      → Fits 1 d.building
      → DraftFits (delete_from cols d)
  unfolding delete_from
  delete_from-DraftFits [] d plain f =
      text-Fits (d.model.quote d.model.table) (put_text (codes "DELETE FROM ") d).building
        (text-Fits (codes "DELETE FROM ") d.building f)
  delete_from-DraftFits (x ∷ xs) d plain f =
      then_draft-DraftFits _ _
        (delete_each-DraftFits (x ∷ xs) (put_text (codes "DELETE ") d) plain
          (text-Fits (codes "DELETE ") d.building f))
        (λ e g.
          text-Fits (d.model.quote d.model.table) (put_text (codes "FROM ") e).building
            (text-Fits (codes "FROM ") e.building g))

-- ===== src/Handlers/Chain.antt =====
-- orm/middleware.go: the handlers of queries. A handler takes the context of a query, which it
-- may change, and the world to the context, the answer and the world that it leaves. The databases
-- are the parameter Backend; the callers of HandleQuery set the query of the context.
use fyer_webframe.Base.{
  Bool, true, false, not, ◌&&◌, List, [], ◌∷◌, Option, none, some, if◌then◌else◌,
}
use fyer_webframe.Base.Text.{Text, codes, contains}
use fyer_webframe.Base.Map.{Map, lookup}
use fyer_webframe.Middleware.{text_is}
use fyer_webframe.QueryCache.{Query, is_query}
use fyer_webframe.Handlers.{ModelInfo, ShardingManager, ShardingRouter, Target, route}

-- The model's table and the columns of its fields.
pub record Model : Type 0 where
  pub table_name : Text
  pub fields_map : Map Text

-- A *Selector[any] with its arguments, an *Inserter[any], or another builder.
pub data Builder (A : Type 0) : Type 0 where
  selector_any : List A → Builder A
  inserter_any : Builder A
  other_builder : Builder A

-- A shard value is none where it is nil.
pub record QueryContext (A : Type 0) : Type 0 where
  pub query_type : Text
  pub query : Query A
  pub model : Option Model
  pub builder : Builder A
  pub table_name : Text
  pub shard_key : Text
  pub shard_value : Option A

-- queryContext and execContext of a DB, none for an error.
pub record Backend (D A St Rows Res : Type 0) : Type 0 where
  pub query_context : D → Query A → St → Option Rows × St
  pub exec_context : D → Query A → St → Option Res × St

pub record QueryResult (Rows Res : Type 0) : Type 0 where
  pub rows : Option Rows
  pub result : Option Res
  pub failed : Bool

-- A result, none for nil, and whether there is an error beside it.
pub record Answer (Rows Res : Type 0) : Type 0 where
  pub result : Option (QueryResult Rows Res)
  pub failed : Bool

-- `sharding` is the manager that the middleware was made with, none for nil.
pub record World (A R D St : Type 0) : Type 0 where
  pub databases : St
  pub sharding : Option (ShardingManager A R D)

-- What a handler leaves.
abbrev pub Outcome : (A R D St Rows Res : Type 0) → Type 0
Outcome A R D St Rows Res = QueryContext A × Answer Rows Res × World A R D St

abbrev pub Handler : (A R D St Rows Res : Type 0) → Type 0
Handler A R D St Rows Res = QueryContext A → World A R D St → Outcome A R D St Rows Res

-- BuildChain
unfoldable pub build_chain : {H : Type 0} → H → List (H → H) → H
build_chain core [] = core
build_chain core (m ∷ ms) = m (build_chain core ms)

abbrev pub is_none : {V : Type 0} → Option V → Bool
is_none none = true
is_none (some v) = false

abbrev pub is_exec : Text → Bool
is_exec t = text_is t (codes "exec")

-- replaceTableName
abbrev pub replace_table_name : Text → Text → Text → Text
replace_table_name sql old_name new_name = sql

module _ {A R D St Rows Res : Type 0} (backend : Backend D A St Rows Res) where
  abbrev pub queried :
      QueryContext A → World A R D St → Option Rows × St → Outcome A R D St Rows Res
  queried qc w (rows, s) = (
    qc,
    record {
      result = some (record { rows = rows; result = none; failed = is_none rows });
      failed = is_none rows;
    },
    record w { databases = s },
  )

  abbrev pub executed :
      QueryContext A → World A R D St → Option Res × St → Outcome A R D St Rows Res
  executed qc w (res, s) = (
    qc,
    record {
      result = some (record { rows = none; result = res; failed = is_none res });
      failed = is_none res;
    },
    record w { databases = s },
  )

  -- CoreHandler
  unfoldable pub core_handler : D → QueryContext A → World A R D St → Outcome A R D St Rows Res
  core_handler db qc w =
      if is_query qc.query_type
      then queried qc w (backend.query_context db qc.query w.databases)
      else if is_exec qc.query_type
      then executed qc w (backend.exec_context db qc.query w.databases)
      else (qc, record { result = none; failed = true }, w)

abbrev pub column_or : Text → Option Text → Text
column_or key none = key
column_or key (some column) = column

-- extractShardKeyFromQuery; the middleware goes on alike after each of its errors, which are none.
module _ {A : Type 0} where
  abbrev pub first_arg : Text → List A → Option (Map A)
  first_arg key [] = none
  first_arg key (a ∷ args) = some ((key, a) ∷ [])

  abbrev pub from_builder : QueryContext A → Model → Text → Builder A → Option (Map A)
  from_builder qc model key (selector_any []) = none
  from_builder qc model key (selector_any (a ∷ args)) =
      if contains qc.query.sql (column_or key (lookup key model.fields_map))
      then first_arg key qc.query.args
      else none
  from_builder qc model key inserter_any = first_arg key qc.query.args
  from_builder qc model key other_builder = none

  abbrev pub from_context : QueryContext A → Model → Text → Option A → Option (Map A)
  from_context qc model key none = from_builder qc model key qc.builder
  from_context qc model key (some v) =
      if text_is qc.shard_key key
      then some ((key, v) ∷ [])
      else from_builder qc model key qc.builder

  abbrev pub from_info : QueryContext A → Model → Option (ModelInfo A) → Option (Map A)
  from_info qc model none = none
  from_info qc model (some info) =
      let key = info.strategy.get_shard_key in
      if text_is key [] then none else from_context qc model key qc.shard_value

  abbrev pub values_or_none : Option (Map A) → Map A
  values_or_none none = []
  values_or_none (some values) = values

  abbrev pub name_of : QueryContext A → Option Model → Option Text
  name_of qc none = if not (text_is qc.table_name []) then some qc.table_name else none
  name_of qc (some model) = some model.table_name

  -- The table's name in the context.
  abbrev pub retabled : Text → Text → QueryContext A → QueryContext A
  retabled name table qc =
      if not (text_is table []) && not (text_is table name)
      then record qc {
        query = record qc.query { sql = replace_table_name qc.query.sql name table };
        table_name = table;
      }
      else qc

module _ {A R D : Type 0} where
  abbrev pub from_model : QueryContext A → ShardingManager A R D → Option Model → Option (Map A)
  from_model qc m none = none
  from_model qc m (some model) = from_info qc model (lookup model.table_name m.model_cache)

  unfoldable pub extract_shard_key_from_query :
      QueryContext A → ShardingManager A R D → Option (Map A)
  extract_shard_key_from_query qc m = from_model qc m qc.model

  abbrev pub explicit_values : QueryContext A → ShardingManager A R D → Option A → Map A
  explicit_values qc m none = values_or_none (extract_shard_key_from_query qc m)
  explicit_values qc m (some v) =
      if not (text_is qc.shard_key [])
      then (qc.shard_key, v) ∷ []
      else values_or_none (extract_shard_key_from_query qc m)

module _ {A R D St Rows Res : Type 0} (backend : Backend D A St Rows Res)
    (api : ShardingRouter A R) where
  abbrev pub on_target :
      Handler A R D St Rows Res
      → QueryContext A
      → World A R D St
      → Text
      → Target D
      → Bool
      → Outcome A R D St Rows Res
  on_target next qc w name target true =
      core_handler backend target.db (retabled name target.table_name qc) w
  on_target next qc w name target false = next qc w

  abbrev pub on_route :
      Handler A R D St Rows Res
      → QueryContext A
      → World A R D St
      → Text
      → ShardingManager A R D × Target D
      → Outcome A R D St Rows Res
  on_route next qc w name (m, target) =
      on_target next qc (record w { sharding = some m }) name target (is_none target.failed)

  abbrev pub on_values :
      Handler A R D St Rows Res
      → QueryContext A
      → World A R D St
      → ShardingManager A R D
      → Text
      → Map A
      → Outcome A R D St Rows Res
  on_values next qc w m name [] = next qc w
  on_values next qc w m name (v ∷ values) = on_route next qc w name (route api name (v ∷ values) m)

  abbrev pub on_name :
      Handler A R D St Rows Res
      → QueryContext A
      → World A R D St
      → ShardingManager A R D
      → Option Text
      → Outcome A R D St Rows Res
  on_name next qc w m none = next qc w
  on_name next qc w m (some name) = on_values next qc w m name (explicit_values qc m qc.shard_value)

  abbrev pub on_manager :
      Handler A R D St Rows Res
      → QueryContext A
      → World A R D St
      → Option (ShardingManager A R D)
      → Outcome A R D St Rows Res
  on_manager next qc w none = next qc w
  on_manager next qc w (some m) =
      if not m.enabled then next qc w else on_name next qc w m (name_of qc qc.model)

  -- ShardingMiddleware
  unfoldable pub sharding_middleware : Handler A R D St Rows Res → Handler A R D St Rows Res
  unfolding extract_shard_key_from_query
  sharding_middleware next qc w = on_manager next qc w w.sharding

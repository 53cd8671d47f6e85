-- ===== src/Sql/Generator.antt =====
-- `SqlGenerator` of crates/graphnight-sql/src/generator.rs: the registries, and which model and which
-- dialect a query is about. The clauses of a statement are built in the children. The model registry
-- is keyed by the models' own names, so it is a list of models with different names.
pub mod Fields
pub mod Measures
pub mod Filters
pub mod Clauses
pub mod Build
pub mod Registry
use graphnight.Base.{
  ℕ, String, Bool, true, false, not, ◌&&◌, Option, none, some, List, [], ◌∷◌, Result, ok, err,
  ok_or, ◌>>=◌, if◌then◌else◌, ◌==◌, unwrap_or, is_some,
}
use graphnight.Core.Models.{Value, FilterOperator, Model, DataSource, Query, SourceSpec}
use graphnight.Core.JoinGraph.{JoinError}
use graphnight.Core.Formula.{FormulaError}
use graphnight.Core.Formula.Functions.{CallError}
use graphnight.Sql.Dialects.{Dialect, name, get_dialect}

-- The messages, with the names that they quote. `index_panic` stands for the panic of an index out of
-- bounds.
pub data SqlError : Type 0 where
  model_not_found : String → SqlError
  no_source : SqlError
  geometry_unsupported spatial_unsupported : String → Dialect → SqlError
  -- the function, the field and the value; the operator of the list and the value
  needs_geometry : String → String → Value → SqlError
  requires_array : String → Value → SqlError
  requires_two_values : SqlError
  invalid_formula : String → FormulaError → SqlError
  invalid_call : String → CallError → SqlError
  malformed : String → SqlError
  no_rendering : FilterOperator → SqlError
  index_panic : SqlError
  join_error : JoinError → SqlError

pub record SqlGenerator : Type 0 where
  pub default_dialect : Dialect
  pub dialects : List (String × Dialect)
  pub model_registry : List Model
  pub datasource_drivers : List (String × String)

-- `HashMap::get`.
pub find_model : List Model → String → Option Model
find_model [] key = none
find_model (m ∷ ms) key = if m.name == key then some m else find_model ms key

insert_model : List Model → Model → List Model
insert_model [] m = m ∷ []
insert_model (n ∷ ns) m = if n.name == m.name then m ∷ ns else n ∷ insert_model ns m

remove_model : List Model → String → List Model
remove_model [] key = []
remove_model (m ∷ ms) key =
    let rest = remove_model ms key in if m.name == key then rest else m ∷ rest

pub lookup {ℓ} : {V : Type ℓ} → List (String × V) → String → Option V
lookup [] key = none
lookup ((k, v) ∷ rest) key = if k == key then some v else lookup rest key

insert {ℓ} : {V : Type ℓ} → List (String × V) → String → V → List (String × V)
insert [] key value = (key, value) ∷ []
insert (entry ∷ rest) key value =
    let later = entry ∷ insert rest key value in
    if entry.0 == key then (key, value) ∷ rest else later

-- `SqlGenerator::new`.
abbrev pub new_generator : Dialect → SqlGenerator
new_generator dialect = record {
  default_dialect = dialect;
  dialects = [];
  model_registry = [];
  datasource_drivers = [];
}

unfoldable pub model : SqlGenerator → String → Option Model
unfolding find_model
model g key = find_model g.model_registry key

unfoldable pub register_model : SqlGenerator → Model → SqlGenerator
unfolding insert_model
register_model g m = record g { model_registry = insert_model g.model_registry m }

unfoldable pub unregister_model : SqlGenerator → String → SqlGenerator
unfolding remove_model
unregister_model g key = record g { model_registry = remove_model g.model_registry key }

unfoldable pub with_models : SqlGenerator → List Model → SqlGenerator
with_models g [] = g
with_models g (m ∷ ms) = with_models (register_model g m) ms

register_dialect : List (String × Dialect) → Dialect → String → List (String × Dialect)
register_dialect dialects default driver =
    if not (driver == name default) && not (is_some (lookup dialects driver))
    then insert dialects driver (get_dialect driver)
    else dialects

unfoldable pub register_datasource : SqlGenerator → DataSource → SqlGenerator
unfolding register_dialect lookup insert
register_datasource g ds = record g {
  dialects = register_dialect g.dialects g.default_dialect ds.driver;
  datasource_drivers = insert g.datasource_drivers ds.name ds.driver;
}

unfoldable pub with_datasources : SqlGenerator → List DataSource → SqlGenerator
with_datasources g [] = g
with_datasources g (ds ∷ rest) = with_datasources (register_datasource g ds) rest

-- The model's driver, where the model and its datasource are registered.
driver_of : SqlGenerator → Option Model → Option String
driver_of g none = none
driver_of g (some m) = lookup g.datasource_drivers m.datasource

dialect_of_driver : SqlGenerator → Option String → Dialect
dialect_of_driver g none = g.default_dialect
dialect_of_driver g (some driver) =
    if driver == name g.default_dialect
    then g.default_dialect
    else unwrap_or (lookup g.dialects driver) g.default_dialect

unfoldable pub dialect_for : SqlGenerator → String → Dialect
unfolding driver_of dialect_of_driver lookup
dialect_for g model_name = dialect_of_driver g (driver_of g (model g model_name))

-- The table and the alias that a query reads: of its `source_model` if it has one, and else of the
-- model that its `name` names.
unfoldable pub source_of :
    SqlGenerator → Option SourceSpec → Option String → Result SqlError (String × String)
source_of g (some source) query_name = do
  m ← ok_or (model g source.model) (model_not_found source.model)
  ok (m.name, unwrap_or source.alias source.model)
source_of g none (some query_name) = do
  m ← ok_or (model g query_name) (model_not_found query_name)
  ok (m.name, query_name)
source_of g none none = err no_source

unfoldable pub resolve_source : SqlGenerator → Query → Result SqlError (String × String)
unfolding source_of
resolve_source g query = source_of g query.source_model query.name

unfoldable pub resolved_dialect_name : SqlGenerator → Query → String
resolved_dialect_name g query = elim (resolve_source g query) [
  | ok (table, alias) ↦ name (dialect_for g table)
  | err e ↦ name g.default_dialect
]

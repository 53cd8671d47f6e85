-- ===== src/Core/Models/Records.antt =====
-- The records of models.rs: formulas, measures, dimensions, filters, queries, models, joins and
-- datasources. A `HashMap` of metadata is an association list, the first entry of a key counting.
use graphnight.Base.{ℕ, String, Bool, Option, List}
use graphnight.Core.Models.Json.{Value}
use graphnight.Core.Models.Aggregation.{AggregationType}
use graphnight.Core.Models.Operators.{TimeGranularity, JoinType, FilterOperator}

pub record Formula : Type 0 where
  pub expression : String
  pub label : Option String
  pub format : Option String

pub record Measure : Type 0 where
  pub formula : Formula
  pub aggregation : AggregationType

pub record Dimension : Type 0 where
  pub name : String
  pub label : Option String

pub record TimeDimension : Type 0 where
  pub dimension : String
  pub granularity : TimeGranularity
  pub label : Option String

pub record Filter : Type 0 where
  pub field : String
  pub operator : FilterOperator
  pub value : Value
  pub or_condition : Bool

pub record OrderBy : Type 0 where
  pub field : String
  pub descending : Bool

pub record SourceSpec : Type 0 where
  pub model : String
  pub datasource : Option String
  pub alias : Option String

pub record Query : Type 0 where
  pub name : Option String
  pub source_model : Option SourceSpec
  pub measures : List Measure
  pub dimensions : List Dimension
  pub time_dimensions : List TimeDimension
  pub filters : List Filter
  pub order : List OrderBy
  pub limit : Option ℕ
  pub offset : Option ℕ
  pub whole_periods_only : Option Bool
  pub distinct_dimension_values : Option Bool
  pub stage_ref : Option String

pub record Join : Type 0 where
  pub name : String
  pub model : String
  pub join_type : JoinType
  pub on : List (String × String)
  pub alias : Option String

pub record Model : Type 0 where
  pub name : String
  pub datasource : String
  pub description : Option String
  pub measures : List Measure
  pub dimensions : List Dimension
  pub time_dimensions : List TimeDimension
  pub joins : List Join
  pub sql : Option String
  pub meta : List (String × Value)

pub record DataSource : Type 0 where
  pub name : String
  pub driver : String
  pub connection_string : String
  pub description : Option String
  pub models : List String
  pub pool_size : Option ℕ
  pub meta : List (String × Value)

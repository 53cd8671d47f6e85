-- ===== src/Runtime/Tools/Inputs.antt =====
-- The inputs of the tools of tools.rs that change models and datasources, and the models that are built of
-- them.
use graphnight.Base.{
  ℕ, String, Option, none, some, List, [], ◌∷◌, Result, ok, err, ◌>>=◌, ◌+s◌, ◌==◌, if◌then◌else◌,
  or_option, unwrap_or,
}
use graphnight.Core.Models.{
  Model, Measure, Dimension, TimeDimension, AggregationType, TimeGranularity,
}
use graphnight.Runtime.Agent.{ToolError}
use graphnight.Runtime.Suggest.Words.{hinted}
use graphnight.Runtime.Suggest.Scalars.{lower}

pub record MeasureInput : Type 0 where
  pub formula : String
  pub aggregation : String
  pub label : Option String
  pub format : Option String

pub record TimeDimensionInput : Type 0 where
  pub dimension : String
  pub granularity : String
  pub label : Option String

-- A `DimensionInput` has the fields of a dimension.
pub record CreateModelInput : Type 0 where
  pub name : String
  pub datasource : String
  pub description : Option String
  pub measures : List MeasureInput
  pub dimensions : List Dimension
  pub time_dimensions : List TimeDimensionInput
  pub base_table : Option String
  pub sql : Option String

pub record UpdateModelInput : Type 0 where
  pub name : String
  pub description : Option String
  pub measures : Option (List MeasureInput)
  pub dimensions : Option (List Dimension)
  pub time_dimensions : Option (List TimeDimensionInput)
  pub base_table : Option String
  pub sql : Option String

pub record CreateDatasourceInput : Type 0 where
  pub name : String
  pub driver : String
  pub connection_string : String
  pub description : Option String
  pub pool_size : Option ℕ

pub record UpdateDatasourceInput : Type 0 where
  pub name : String
  pub description : Option String
  pub connection_string : Option String
  pub pool_size : Option ℕ

aggregation_for : String → Result ToolError AggregationType
aggregation_for lowered =
    if lowered == "sum"
    then ok AggregationType.sum
    else if lowered == "avg"
    then ok AggregationType.avg
    else if lowered == "average"
    then ok AggregationType.avg
    else if lowered == "count"
    then ok AggregationType.count
    else if lowered == "min"
    then ok AggregationType.min
    else if lowered == "max"
    then ok AggregationType.max
    else if lowered == "count_distinct"
    then ok AggregationType.count_distinct
    else if lowered == "countdistinct"
    then ok AggregationType.count_distinct
    else err (
        hinted "UNKNOWN_AGGREGATION" ("unknown aggregation: " +s lowered)
          "Use one of: sum, avg, count, min, max, count_distinct.")

build_measure : MeasureInput → Result ToolError Measure
build_measure input = do
  aggregation ← aggregation_for (lower input.aggregation)
  ok (record {
    formula = record { expression = input.formula; label = input.label; format = input.format };
    aggregation = aggregation;
  })

granularity_for : String → Result ToolError TimeGranularity
granularity_for lowered =
    if lowered == "second"
    then ok TimeGranularity.second
    else if lowered == "minute"
    then ok TimeGranularity.minute
    else if lowered == "hour"
    then ok TimeGranularity.hour
    else if lowered == "day"
    then ok TimeGranularity.day
    else if lowered == "week"
    then ok TimeGranularity.week
    else if lowered == "month"
    then ok TimeGranularity.month
    else if lowered == "quarter"
    then ok TimeGranularity.quarter
    else if lowered == "year"
    then ok TimeGranularity.year
    else err (
        hinted "UNKNOWN_GRANULARITY" ("unknown time granularity: " +s lowered)
          "Use one of: second, minute, hour, day, week, month, quarter, year.")

build_time_dimension : TimeDimensionInput → Result ToolError TimeDimension
unfolding granularity_for
build_time_dimension input = do
  granularity ← granularity_for (lower input.granularity)
  ok (record { dimension = input.dimension; granularity = granularity; label = input.label })

-- `collect::<Result<Vec<_>, _>>()`.
abbrev collect : {A C : Type 0} → (A → Result ToolError C) → List A → Result ToolError (List C)
collect f [] = ok []
collect f (a ∷ as_) = do c ← f a; cs ← collect f as_; ok (c ∷ cs)

base_sql : Option String → Option String
base_sql none = none
base_sql (some t) = some ("SELECT * FROM " +s t)

-- The field that an update gives, or the one that is there.
abbrev updated : {A C : Type 0} → (A → Result ToolError C) → Option A → C → Result ToolError C
updated f none old = ok old
updated f (some a) old = f a

unfoldable pub new_model : CreateModelInput → Result ToolError Model
unfolding build_measure build_time_dimension aggregation_for granularity_for base_sql
new_model input = do
  measures ← collect build_measure input.measures
  time_dimensions ← collect build_time_dimension input.time_dimensions
  ok (record {
    name = input.name;
    datasource = input.datasource;
    description = input.description;
    measures = measures;
    dimensions = input.dimensions;
    time_dimensions = time_dimensions;
    joins = [];
    sql = or_option input.sql (base_sql input.base_table);
    meta = [];
  })

unfoldable pub changed_model : UpdateModelInput → Model → Result ToolError Model
unfolding build_measure build_time_dimension aggregation_for granularity_for base_sql
changed_model input m = do
  measures ← updated (collect build_measure) input.measures m.measures
  time_dimensions ← updated (collect build_time_dimension) input.time_dimensions m.time_dimensions
  ok (record m {
    description = or_option input.description m.description;
    measures = measures;
    dimensions = unwrap_or input.dimensions m.dimensions;
    time_dimensions = time_dimensions;
    sql = or_option (or_option input.sql (base_sql input.base_table)) m.sql;
  })

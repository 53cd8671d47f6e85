-- ===== src/Runtime/Tools.antt =====
-- The catalogue of crates/graphnight-runtime/src/tools.rs: which tools a caller sees and may call. What a
-- tool does is an interface. The schema of an input, which comes from another crate, the default row cap
-- and the embeddings are left out.
pub mod Gate
pub mod Inputs
pub mod Changes
use graphnight.Base.{
  String, Bool, true, false, ◌||◌, ◌&&◌, not, Option, none, some, List, [], ◌∷◌, map, ◌++◌, keep,
  contains, Result, ok, err, ◌+s◌, ◌==◌, if◌then◌else◌, join,
}
use graphnight.Core.Models.{
  Value, null, object, end, Model, Measure, Dimension, TimeDimension, Join,
}
use graphnight.Runtime.Agent.{ToolError}
use graphnight.Runtime.Context.{CallContext}
use graphnight.Runtime.Suggest.Words.{hinted}

pub record ToolSpec : Type 0 where
  pub name : String
  pub description : String
  pub mutating : Bool

abbrev spec : String → String → ToolSpec
spec name description = record { name = name; description = description; mutating = false }

abbrev mutating_spec : String → String → ToolSpec
mutating_spec name description = record { name = name; description = description; mutating = true }

abbrev pub builtin_tools : List ToolSpec
builtin_tools =
    spec "get_capabilities"
      "Describe this server: supported SQL dialects, aggregations, time granularities, filter operators, formula functions and row limits. Call this first if unsure what is supported."
    ∷ spec "search_models"
        "Search models by intent, e.g. \"monthly revenue by store\". Returns ranked model names with matching fields and snippets. Start here when the model name is unknown."
    ∷ spec "list_models"
        "List the semantic models this caller may query. Use when you know the domain but not the model name."
    ∷ spec "get_model"
        "Get a model's full schema: measures with formulas and aggregations, dimensions, time dimensions, joins, plus worked example queries. Always call this before run_query so you use real field names."
    ∷ spec "validate_query"
        "Validate and compile a query without executing it. Returns precise errors and did-you-mean suggestions. Cheaper than run_query; use it to check a query first."
    ∷ spec "run_query"
        "Run a governed semantic query and return rows. Subject to the caller's row limit, forced filters, row-level security and column masks. Set dry_run=true to compile without executing."
    ∷ spec "multi_stage_query"
        "Run an ordered pipeline of queries as a DAG, where a stage may filter on a previous stage's output via stage_ref. Use for cohort and funnel analyses."
    ∷ spec "recall_memories"
        "Recall stored learnings and facts relevant to a query, ranked by relevance, recency and importance. Call before answering from memory."
    ∷ spec "remember"
        "Store a durable learning, fact or episode with its linked entities, so future sessions can recall it."
    ∷ spec "tools_list"
        "List the tools available to this caller, with descriptions and JSON Schemas."
    ∷ mutating_spec "create_model"
        "Define a new semantic model: its measures, dimensions and time dimensions over a datasource. Only available when the operator has enabled semantic layer mutations."
    ∷ mutating_spec "update_model"
        "Change an existing model's measures, dimensions or SQL. Only fields you supply are changed. Only available when the operator has enabled semantic layer mutations."
    ∷ mutating_spec "delete_model"
        "Delete a semantic model. This cannot be undone. Only available when the operator has enabled semantic layer mutations."
    ∷ mutating_spec "create_datasource"
        "Register a new datasource connection. The connection string is stored but never returned. Only available when the operator has enabled semantic layer mutations."
    ∷ mutating_spec "update_datasource"
        "Update a datasource's description, connection string or pool size. Only available when the operator has enabled semantic layer mutations."
    ∷ mutating_spec "delete_datasource"
        "Delete a datasource. Every model on it becomes unqueryable. Only available when the operator has enabled semantic layer mutations."
    ∷ []

pub record ToolCatalog : Type 0 where
  pub tools : List ToolSpec
  pub allow_mutations : Bool

abbrev pub new_catalog : ToolCatalog
new_catalog = record { tools = builtin_tools; allow_mutations = false }

abbrev pub with_mutations : Bool → ToolCatalog → ToolCatalog
with_mutations allow catalog = record catalog { allow_mutations = allow }

abbrev pub is_open : Bool → ToolSpec → Bool
is_open allow s = allow || not s.mutating

-- The tools that are shown, in their order.
unfoldable pub specs : ToolCatalog → List ToolSpec
specs catalog = keep (is_open catalog.allow_mutations) catalog.tools

unfoldable pub find_tool : List ToolSpec → String → Option ToolSpec
find_tool [] name = none
find_tool (s ∷ rest) name =
    let later = find_tool rest name in if s.name == name then some s else later

open_tool : Bool → Option ToolSpec → Option ToolSpec
open_tool allow none = none
open_tool allow (some s) = if is_open allow s then some s else none

unfoldable pub get : ToolCatalog → String → Option ToolSpec
unfolding open_tool
get catalog name = open_tool catalog.allow_mutations (find_tool catalog.tools name)

-- `ToolError::from` of an unknown tool, whose message comes from another crate's macro.
abbrev pub unknown_tool : (String → String) → String → ToolError
unknown_tool message name =
    hinted "UNKNOWN_TOOL" (message name)
      ("Unknown tool " +s name +s ". Call tools_list to see available tools.")

abbrev mutations_disabled : String → ToolError
mutations_disabled name =
    hinted "MUTATIONS_DISABLED" ("Tool " +s name +s " is disabled on this server")
      "Model and datasource mutations are disabled for agents by default. Ask an administrator to enable them if truly required."

-- The names with a branch of their own.
abbrev pub dispatched : List String
dispatched =
    "get_capabilities" ∷ "tools_list" ∷ "list_models" ∷ "search_models" ∷ "get_model"
    ∷ "validate_query" ∷ "run_query" ∷ "multi_stage_query" ∷ "recall_memories" ∷ "remember"
    ∷ "create_model" ∷ "update_model" ∷ "delete_model" ∷ "create_datasource" ∷ "update_datasource"
    ∷ "delete_datasource" ∷ []

unfoldable pub is_null : Value → Bool
is_null null = true
is_null _ = false

-- The tools by their names, each of which may change a world.
module _ {W : Type 0} (message : String → String)
    (run : String → CallContext → Value → W → Result ToolError Value × W) where
  dispatch : CallContext → String → Value → W → Result ToolError Value × W
  dispatch ctx name args w =
      if contains dispatched name then run name ctx args w else (err (unknown_tool message name), w)

  call_spec :
      ToolCatalog → Option ToolSpec → CallContext → String → Value → W → Result ToolError Value × W
  unfolding dispatch is_null
  call_spec catalog none ctx name args w = (err (unknown_tool message name), w)
  call_spec catalog (some s) ctx name args w =
      if s.mutating && not catalog.allow_mutations
      then (err (mutations_disabled name), w)
      else dispatch ctx name (if is_null args then object end else args) w

  unfoldable pub call : ToolCatalog → CallContext → String → Value → W → Result ToolError Value × W
  unfolding call_spec
  call catalog ctx name args w = call_spec catalog (get catalog name) ctx name args w

-- The text of a model that is embedded.
unfoldable pub model_document : Model → String
model_document m = join " " (
    (m.name ∷ described m.description)
    ++ map (λ (x : Measure). x.formula.expression) m.measures
    ++ map (λ (x : Dimension). x.name) m.dimensions
    ++ map (λ (x : TimeDimension). x.dimension) m.time_dimensions
    ++ map (λ (x : Join). x.name) m.joins)
  where
    described : Option String → List String
    described none = []
    described (some d) = d ∷ []

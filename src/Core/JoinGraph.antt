-- ===== src/Core/JoinGraph.antt =====
-- crates/graphnight-core/src/join.rs: the graph of the joins, the search for a path and the clauses.
-- The adjacency map is the list of all edges with their sources: the edges of one source keep the
-- order in which they were pushed.
pub mod Paths
pub mod Reach
use graphnight.Base.{
  ℕ, zero, suc, String, Bool, true, false, Option, none, some, List, [], ◌∷◌, ◌++◌, map, Result, ok,
  err, ◌>>=◌, if◌then◌else◌, ◌==◌, ◌+s◌, unwrap_or, contains, length, join,
}
use graphnight.Core.Models.{Model, Join, sql_keyword}

pub record JoinEdge : Type 0 where
  pub target_model : String
  pub join : Join
  pub reverse : Bool

-- An entry of `adjacency`: the source of an edge, and the edge.
abbrev pub JoinGraph : Type 0
JoinGraph = List (String × JoinEdge)

abbrev flip : String × String → String × String
flip (l, r) = (r, l)

abbrev pub forward_edge : Join → JoinEdge
forward_edge j = record { target_model = j.model; join = j; reverse = false }

abbrev pub reverse_edge : String → Join → JoinEdge
reverse_edge model_name j = record {
  target_model = model_name;
  join = record {
    name = j.name +s "_reverse";
    model = model_name;
    join_type = j.join_type;
    on = map flip j.on;
    alias = none;
  };
  reverse = true;
}

-- The two pushes of each join.
edges_of : String → List Join → JoinGraph
edges_of model_name [] = []
edges_of model_name (j ∷ js) =
    (model_name, forward_edge j) ∷ (j.model, reverse_edge model_name j) ∷ edges_of model_name js

unfoldable pub add_model : JoinGraph → Model → JoinGraph
unfolding edges_of
add_model graph m = graph ++ edges_of m.name m.joins

add_models : JoinGraph → List Model → JoinGraph
add_models graph [] = graph
add_models graph (m ∷ ms) = add_models (add_model graph m) ms

-- `JoinGraph::new`.
unfoldable pub new_graph : List Model → JoinGraph
unfolding add_models add_model
new_graph models = add_models [] models

-- `adjacency.get(current)`, with no edges where there is no entry.
pub adjacent : JoinGraph → String → List JoinEdge
adjacent [] current = []
adjacent ((from, edge) ∷ graph) current =
    let rest = adjacent graph current in if from == current then edge ∷ rest else rest

-- The variables of the search.
pub record Frontier : Type 0 where
  pub visited : List String
  pub queue : List (String × List JoinEdge)

-- One round of the loop over the edges of `current`.
pub offer : List JoinEdge → JoinEdge → Frontier → Frontier
offer path edge s = if contains s.visited edge.target_model then s else record {
  visited = edge.target_model ∷ s.visited;
  queue = s.queue ++ (edge.target_model, path ++ edge ∷ []) ∷ [];
}

pub offer_all : List JoinEdge → List JoinEdge → Frontier → Frontier
offer_all path [] s = s
offer_all path (edge ∷ edges) s = offer_all path edges (offer path edge s)

pub data Found : Type 0 where
  found : List JoinEdge → Found
  missing out_of_fuel : Found

-- `while let Some((current, path)) = queue.pop_front()`, on fuel.
pub search : JoinGraph → String → ℕ → List String → List (String × List JoinEdge) → Found
search graph to fuel visited [] = missing
search graph to zero visited (item ∷ queue) = out_of_fuel
search graph to (suc fuel) visited ((current, path) ∷ queue) =
    let s = offer_all path (adjacent graph current) (record { visited = visited; queue = queue }) in
    let rest = search graph to fuel s.visited s.queue in if current == to then found path else rest

-- Each model enters the queue once, and each but the first by an edge of its own.
unfoldable pub find_path : JoinGraph → String → String → Found
unfolding search offer_all offer adjacent
find_path graph from to =
    if from == to
    then found []
    else search graph to (suc (length graph)) (from ∷ []) ((from, []) ∷ [])

-- "No join path found from {} to {}". The other constructor is not reached.
pub data JoinError : Type 0 where
  no_path : String → String → JoinError
  no_fuel : JoinError

pub path_result : String → String → Found → Result JoinError (List JoinEdge)
path_result from to (found path) = ok path
path_result from to missing = err (no_path from to)
path_result from to out_of_fuel = err no_fuel

all_edges : JoinGraph → String → List String → Result JoinError (List JoinEdge)
all_edges graph base_model [] = ok []
all_edges graph base_model (m ∷ required) = do
  path ← if m == base_model then ok [] else path_result base_model m (find_path graph base_model m)
  rest ← all_edges graph base_model required
  ok (path ++ rest)

-- The first edge to each model stays.
dedup_targets : List String → List JoinEdge → List JoinEdge
dedup_targets seen [] = []
dedup_targets seen (edge ∷ edges) =
    let known = dedup_targets seen edges in
    let fresh = dedup_targets (edge.target_model ∷ seen) edges in
    if contains seen edge.target_model then known else edge ∷ fresh

unfoldable pub resolve_joins : JoinGraph → String → List String → Result JoinError (List JoinEdge)
unfolding all_edges path_result dedup_targets
resolve_joins graph base_model required_models = do
  edges ← all_edges graph base_model required_models
  ok (dedup_targets [] edges)

-- The `JoinClause` of join.rs.
pub record WalkedClause : Type 0 where
  pub join_type : String
  pub table : String
  pub alias : String
  pub on : String

pub on_condition : Bool → String → String → String × String → String
on_condition true base_alias target_alias (left, right) =
    target_alias +s "." +s left +s " = " +s base_alias +s "." +s right
on_condition false base_alias target_alias (left, right) =
    base_alias +s "." +s left +s " = " +s target_alias +s "." +s right

pub clause_of : String → JoinEdge → WalkedClause
unfolding on_condition
clause_of base_alias edge =
    let target_alias = unwrap_or edge.join.alias edge.join.model in
    record {
      join_type = sql_keyword edge.join.join_type;
      table = edge.join.model;
      alias = target_alias;
      on = join " AND " (map (on_condition edge.reverse base_alias target_alias) edge.join.on);
    }

-- `JoinWalker::build_join_clauses`.
unfoldable pub build_join_clauses :
    JoinGraph → String → List String → String → Result JoinError (List WalkedClause)
unfolding clause_of
build_join_clauses graph base_model required_models base_alias = do
  edges ← resolve_joins graph base_model required_models
  ok (map (clause_of base_alias) edges)

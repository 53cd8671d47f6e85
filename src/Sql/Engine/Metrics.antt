-- ===== src/Sql/Engine/Metrics.antt =====
-- crates/graphnight-sql/src/metrics.rs: the counters of the engine and their text.
use graphnight.Base.{ℕ, String, ◌+s◌, show}
use graphnight.Sql.Cache.{fetch_add}

pub record QueryMetrics : Type 0 where
  pub queries_total : ℕ
  pub query_errors : ℕ
  pub plan_cache_hits : ℕ
  pub plan_cache_misses : ℕ
  pub result_cache_hits : ℕ
  pub result_cache_misses : ℕ
  pub rows_returned : ℕ

abbrev pub new_metrics : QueryMetrics
new_metrics = record {
  queries_total = 0;
  query_errors = 0;
  plan_cache_hits = 0;
  plan_cache_misses = 0;
  result_cache_hits = 0;
  result_cache_misses = 0;
  rows_returned = 0;
}

abbrev pub inc_queries : QueryMetrics → QueryMetrics
inc_queries m = record m { queries_total = fetch_add 1 m.queries_total }

abbrev pub inc_errors : QueryMetrics → QueryMetrics
inc_errors m = record m { query_errors = fetch_add 1 m.query_errors }

abbrev pub add_rows : ℕ → QueryMetrics → QueryMetrics
add_rows n m = record m { rows_returned = fetch_add n m.rows_returned }

-- The lines of one counter.
abbrev pub counter_lines : String → String → ℕ → String
counter_lines name help value =
    "# HELP "
    +s name
    +s " "
    +s help
    +s "\n# TYPE "
    +s name
    +s " counter\n"
    +s name
    +s " "
    +s show value
    +s "\n"

unfoldable pub render_prometheus : QueryMetrics → String
render_prometheus m =
    counter_lines "graphnight_queries_total" "Total semantic queries executed" m.queries_total
    +s counter_lines "graphnight_query_errors_total" "Query execution errors" m.query_errors
    +s counter_lines "graphnight_plan_cache_hits_total" "SQL plan cache hits" m.plan_cache_hits
    +s counter_lines "graphnight_plan_cache_misses_total" "SQL plan cache misses"
        m.plan_cache_misses
    +s counter_lines "graphnight_result_cache_hits_total" "Result cache hits" m.result_cache_hits
    +s counter_lines "graphnight_result_cache_misses_total" "Result cache misses"
        m.result_cache_misses
    +s counter_lines "graphnight_rows_returned_total" "Rows returned from executions"
        m.rows_returned

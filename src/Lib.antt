-- ===== src/Lib.antt =====
-- A verification library of GraphNight, the semantic layer that turns a query on models into SQL.
-- A caller's query goes through the governed service of crates/graphnight-runtime/src/governance.rs:
-- its policy (crates/graphnight-core/src/security.rs) is checked and added to the query, the generator
-- (crates/graphnight-sql/src/generator.rs) builds a plan with the join walker
-- (crates/graphnight-core/src/join.rs) and the formula parser (crates/graphnight-core/src/formula.rs),
-- and a dialect (crates/graphnight-sql/src/dialects.rs) prints it.
--
-- Base: the operations of the Rust library that the program uses, on native numbers and texts, and
--   results with their rules.
-- Core/Models and its children: crates/graphnight-core/src/models.rs, the data types with the source's
--   constructors. A JSON number is the text that it prints; a metadata map is an association list.
-- Core/Security and its children: the policy, its checks and filters, the column masks and the bounded
--   audit buffer. `Access` and `Limits` are about the checks and the cap, `Masks/Hiding` about what a
--   mask shows.
-- Core/Formula and its children: `parse_measure` recurs on a formula's parts on fuel, one more than the
--   number of characters; the regular expressions are a parameter, a record of captures. `Functions` is
--   the allow-listed call.
-- Core/JoinGraph and its children: the adjacency list and the breadth-first search. The search runs on
--   fuel, one more than the number of edges: each model enters the queue once, and each but the first by
--   an edge of its own.
-- Core/Secrets and its children: crates/graphnight-core/src/secrets.rs, over the environment as a
--   function.
-- Sql/Plan, Sql/Dialects and its children: the logical plan, and the four dialects as constructors of
--   one type with each trait method as a function by clauses.
-- Sql/Generator and its children: the registries, `Fields` for `qualify_field`, `Measures` for the SELECT
--   list, `Filters` for `build_where_clause`, `Clauses` for grouping, order and joins, `Build` for the
--   plan and for `generate`. What other crates do is the record `Libraries`.
-- Runtime/Stages and its children: `topological_order`, on fuel, one round for each stage.
-- Runtime/Context: the context of a call, its options and outcome, and the environment of the service.
-- Runtime/Governance and its children: `execute` over an environment of storage, engine, driver and
--   clock; the audit sink is passed along as the list of its entries, and
--   whether writing an entry succeeds is the environment's. `Guard` and `Reporting` are about
--   what a success implies, `Caps` and `Names` about the row cap and the model that is checked. `Pipeline` is
--   `execute_multi_stage`, `Discovery` the catalogue operations and `search`, `Registration` the models
--   that come and go, `Masking` what a mask leaves of a row.
-- Sql/Cache and its children: crates/graphnight-sql/src/cache.rs. `Store` is the map of the crate lru as
--   an interface with its laws, `Keys` the hash and the bytes of a query.
-- Sql/Engine and its children: crates/graphnight-sql/src/lib.rs and metrics.rs. `generate_sql` gives the
--   statement with its parameters, as the cache holds it. `Plans` and `Stale` are about the plan cache,
--   `Results` and `Recent` about the result cache, `Keys` about the keys of both.
-- Runtime/Agent and its children: crates/graphnight-runtime/src/agent.rs. A `Host` is the model, the
--   tools and the clock, each of which may change a world that is passed along. `Loop` is the loop, a
--   function of one round repeated on fuel, one more than the rounds allowed; `Steps` counts over the
--   recorded steps, `Reasons` says what a reason to stop means, `Flow` and `Invariant` are the rules by which `Bounds` goes through the loop.
-- Runtime/Suggest and its children: crates/graphnight-runtime/src/suggest.rs. `Words` and `Scalars` are
--   the words and values of the shorthand, `Queries` the whole query, `Distance` and `Table` the edit
--   distance, `Distance/Closest` the suggestions.
-- Runtime/Memory and its children: crates/graphnight-runtime/src/memory.rs, over a type of floating-point
--   numbers that is a parameter. `Storage` is about the stored shape, `Scores` and `Ranking` about the
--   order.
-- Runtime/Tools and its children: crates/graphnight-runtime/src/tools.rs, the catalogue of tools and its
--   gate; `Changes` are the tools that change models and datasources, over an interface of the storage.
--   Its `Outcomes` say what they are meant to do, `Steps` and `Allowed` go through their calls.
-- Runtime/Mcp and its children: crates/graphnight-runtime/src/mcp.rs, the messages of JSON-RPC and the
--   server, whose world and audit log are passed along. `Replies` is about what is written for a line,
--   `Gated` about what a line can run.
-- Server/Auth and its children: crates/graphnight-server/src/auth_config.rs. The validator of tokens is a
--   parameter; `Secrets` is about the comparison of keys, `Callers` about who gets an identity.
-- Storage/Backend: the data of crates/graphnight-storage/src/backend.rs, and `StorageError` of
--   crates/graphnight-core/src/errors.rs.
-- Storage/Table, Storage/Locks, Storage/Files and its children: what the operations of
--   crates/graphnight-storage/src/yaml.rs on one map and its file have in common. A task that awaits a
--   lock that it does not get is `waiting`; the locks and the disk are the record `Host`, the formats
--   are the records `Codec`. `Edits` says what the changes are meant to do.
-- Storage/Search, Storage/Yaml and their children: the filters of lists, and the storage with all its
--   operations (`Calls`).
-- Tests: each theorem at a concrete input.
--
-- Error messages are constructors with the names that they quote, or the source's texts. A call is one
-- step: the lock on a registry or a cache and the tasks of the async runtime are not modelled, except for
-- the locks of the YAML storage, as one task sees them. Not modelled are the execution of statements and
-- introspection, the storages on SQLite, PostgreSQL and Tantivy, the bodies of the other tools and the
-- transports of the agent runtime, the HTTP routes and the GraphQL server, the command line, the
-- bindings, the RDF export and telemetry, which are input and output or glue around them.
pub mod Base
pub mod Core
pub mod Sql
pub mod Runtime
pub mod Server
pub mod Storage
pub mod Tests

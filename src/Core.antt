-- ===== src/Core.antt =====
-- The crate graphnight-core: the semantic model, the policy enforcer and the join graph.
pub mod Models
pub mod Security
pub mod Formula
pub mod JoinGraph
pub mod Secrets

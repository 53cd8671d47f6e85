-- ===== src/Runtime.antt =====
-- crates/graphnight-runtime: the governed service, which checks and bounds every query.
pub mod Errors
pub mod Stages
pub mod Context
pub mod Governance
pub mod Agent
pub mod Suggest
pub mod Memory
pub mod Tools
pub mod Mcp

-- ===== src/Tests.antt =====
-- The tests of the library: each theorem at a concrete input.
pub mod Core
pub mod Sql
pub mod Runtime
pub mod Agent
pub mod Engine
pub mod Suggest
pub mod Memory
pub mod Auth
pub mod Tools
pub mod Secrets
pub mod Storage
pub mod Mcp

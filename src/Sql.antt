-- ===== src/Sql.antt =====
-- The crate graphnight-sql: dialects, the generator and the caches.
pub mod Plan
pub mod Dialects
pub mod Generator
pub mod Cache
pub mod Engine

-- ===== src/Core/Models.antt =====
-- crates/graphnight-core/src/models.rs. The children hold its parts.
mod Json
mod Aggregation
mod Operators
mod Records
mod Builders
pub mod Geometry
unfoldable pub use Json.*
unfoldable pub use Aggregation.*
unfoldable pub use Operators.*
unfoldable pub use Records.*
unfoldable pub use Builders.*

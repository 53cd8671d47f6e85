-- ===== src/Storage.antt =====
pub mod Backend
pub mod Table
pub mod Locks
pub mod Files
pub mod Search
pub mod Yaml

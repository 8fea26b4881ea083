-- ===== src/Persistence.antt =====
-- persistence.rs: the types that the server stores, and the checks on names.
pub mod Enums
pub mod Models
pub mod Names
pub mod Repository
pub mod Postgres

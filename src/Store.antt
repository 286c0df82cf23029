-- ===== src/Store.antt =====
-- The store.
pub mod Models
pub mod Sql
pub mod Postgres
pub mod Redis
pub mod Jobs
pub mod Pending
pub mod Frames
pub mod Best
pub mod Started

-- ===== src/Postgres.antt =====
-- internal/adapter/repository/postgres: the repositories, their SQL as functions on the rows of a
-- table.
pub mod Notifications
pub mod Records
pub mod Pages
pub mod Listing
pub mod Templates
mod Tests

-- ===== src/Domain.antt =====
-- internal/domain: the entities that the services and the repositories pass around.
pub mod Errors
pub mod Notification
pub mod Template
pub mod Batch
pub mod Laws
mod Tests

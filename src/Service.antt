-- ===== src/Service.antt =====
-- internal/service: the methods on notifications and on templates, the delivery of one notification
-- and the polls of the scheduler, on the rows, queues, breakers and windows that the
-- other modules model.
pub mod World
pub mod Backoff
pub mod Delivery
pub mod Scheduler
pub mod Templates
pub mod Intake
pub mod Create
pub mod Lookup
pub mod Tests
mod RetryTests
pub mod IntakeTests
mod TemplateTests

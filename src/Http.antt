-- ===== src/Http.antt =====
-- internal/adapter/handler: what the HTTP handlers answer, on the services that the other modules
-- model. Decoding a JSON body and reading a query string are done: a body is none where its decoding
-- fails, a parameter that is left out is the empty text.
pub mod Response
pub mod Notifications
pub mod Templates
pub mod Metrics
pub mod Middleware
mod Tests

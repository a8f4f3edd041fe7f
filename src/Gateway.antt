-- ===== src/Gateway.antt =====
-- api-gateway/src/handlers.rs: the HTTP handlers. The texts of error messages are left out, and
-- so are the durations that are measured and waited.
pub mod Names
pub mod State
pub mod Retry
pub mod Download
pub mod Upload
pub mod Dispatch
pub mod Mocks
pub mod RoundTrip
mod Tests

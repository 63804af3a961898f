-- ===== src/Gateway.antt =====
-- gateway/app: the admission of requests, and the client of the dispatcher.
pub mod Limits
pub mod Middleware
pub mod Admission
pub mod Client
pub mod Serving
pub mod Endpoints
pub mod Handlers
pub mod Stream
pub mod Upload
mod Tests

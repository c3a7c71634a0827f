-- ===== src/Routes.antt =====
-- src/routes/mod.rs: the handlers of requests, and the state that they share.
pub mod Multipart
pub mod Received
pub mod Counted
pub mod Measured
pub mod Uploads
pub mod Tokens
pub mod Revealed
pub mod Releases
pub mod Checks
pub mod Requests
pub mod Audits
pub mod Serving
pub mod Complete

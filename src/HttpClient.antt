-- ===== src/HttpClient.antt =====
-- The HTTP client (httpclient/httpclient.go), one child module for each part of the file.
pub mod Config
pub mod Request
pub mod Status
pub mod World
pub mod Build
pub mod Attempt
pub mod Call
pub mod Metrics

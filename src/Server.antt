-- ===== src/Server.antt =====
-- The HTTP server (httpserver/).
pub mod Tracking

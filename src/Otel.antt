-- ===== src/Otel.antt =====
-- The OpenTelemetry provider (o11y/otel/).
pub mod Metrics
pub mod Spans
pub mod Exporting
pub mod Propagation

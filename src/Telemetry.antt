-- ===== src/Telemetry.antt =====
-- server/src/otel_middleware.rs: the service around the router, and the spans of its requests.
pub mod Middleware
pub mod Driven
pub mod Spans
pub mod ServiceName

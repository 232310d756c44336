-- ===== src/Web.antt =====
-- web: HTTP middleware, problem responses, request bodies, health and metrics.
pub mod Http
pub mod Problem
pub mod Cors
pub mod Concurrency
pub mod Middleware
pub mod Validation
pub mod Metrics
pub mod Health

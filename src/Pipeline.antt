-- ===== src/Pipeline.antt =====
-- The event pipeline: from a matched rule to alerts and enforcement (pkg/pipeline).
pub mod Event
pub mod RateLimiter
pub mod AuditLog
pub mod Response
pub mod Coalescer
pub mod Exceptions
pub mod Route

-- ===== src/Health.antt =====
-- internal/health: the circuit breaker, its frozen views and its durable copy.
pub mod Types
pub mod Cooldown
pub mod Breaker
pub mod Availability
pub mod Lru
pub mod RetryAfter
pub mod Persist
mod Examples

-- ===== src/Breaker.antt =====
-- The circuit breaker of backend/src/shared/infrastructure/circuit_breaker.py.
mod Defs
pub mod Transitions
mod Tests
unfoldable pub use Defs.*

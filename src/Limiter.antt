-- ===== src/Limiter.antt =====
-- The rate limiter of backend/src/shared/infrastructure/rate_limiter.py.
mod Defs
pub mod Windows
mod Tests
unfoldable pub use Defs.*

-- ===== src/Keys.antt =====
-- The API keys of enterprises: backend/src/identity/application/services.py, their repository of
-- backend/src/identity/infrastructure/repositories.py, and backend/src/identity/api/dependencies.py.
mod Defs
pub mod Creating
pub mod Outsiders
pub mod Revoking
mod Tests
unfoldable pub use Defs.*

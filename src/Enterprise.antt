-- ===== src/Enterprise.antt =====
-- The enterprise of backend/src/identity/domain/enterprise.py: KYC, agent configuration, wallet.
mod Defs
pub mod Lifecycle
mod Tests
unfoldable pub use Defs.*

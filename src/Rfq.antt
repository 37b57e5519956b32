-- ===== src/Rfq.antt =====
-- The request for quotation of backend/src/marketplace/domain/rfq.py.
pub mod Digits
mod Defs
pub mod Lifecycle
mod Tests
unfoldable pub use Defs.*

-- ===== src/Market.antt =====
-- The matches of a request for quotation: backend/src/marketplace/domain/match.py and the service of
-- backend/src/marketplace/application/services.py.
mod Defs
pub mod Choosing
pub mod Confirming
mod Tests
unfoldable pub use Defs.*

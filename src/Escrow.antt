-- ===== src/Escrow.antt =====
-- The escrow aggregate of backend/src/settlement/domain/escrow.py. A method takes the readings of
-- the clock that it makes (`_utcnow()`, then `touch()`), and gives its event, or the exception that
-- it raises, with the aggregate as it is left.
mod Defs
pub mod Lifecycle
pub mod Custody
mod Tests
unfoldable pub use Defs.*

-- ===== src/Audit.antt =====
-- The hash-chained audit log of backend/src/compliance/domain/audit_log.py, with the append of
-- backend/src/compliance/application/services.py, over an abstract digest.
mod Defs
pub mod Append
pub mod Tamper
pub mod Faults
mod Tests
unfoldable pub use Defs.*

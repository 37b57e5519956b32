-- ===== src/Tax.antt =====
-- The tax records of a released escrow: backend/src/compliance/domain/fema_record.py, gst_record.py and
-- value_objects.py, and their generation in backend/src/compliance/application/services.py.
mod Values
mod Decimals
mod Records
mod Service
pub mod Rounding
pub mod Amounts
pub mod Due
pub mod Keeping
pub mod Forms
mod Tests
unfoldable pub use Values.*
unfoldable pub use Decimals.*
unfoldable pub use Records.*
unfoldable pub use Service.*

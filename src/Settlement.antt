-- ===== src/Settlement.antt =====
-- The settlement service of backend/src/settlement/application/services.py, the value objects that it
-- constructs (backend/src/settlement/domain/value_objects.py), and what its gateway does on the chain
-- (backend/src/settlement/infrastructure/algorand_gateway.py).
mod Values
mod Gateway
mod Pricing
mod Roots
mod Defs
mod Service
mod Pera
mod Requests
pub mod Formats
pub mod Rules
pub mod Ledger
pub mod Chain
mod Tests
unfoldable pub use Values.*
unfoldable pub use Gateway.*
unfoldable pub use Pricing.*
unfoldable pub use Roots.*
unfoldable pub use Defs.*
unfoldable pub use Service.*
unfoldable pub use Pera.*
unfoldable pub use Requests.*

-- ===== src/Engine.antt =====
-- The turn of an agent: the guardrails of backend/src/negotiation/domain/guardrails.py, the fourth layer
-- of backend/src/negotiation/infrastructure/neutral_engine.py, and the end of a turn in
-- backend/src/negotiation/application/services.py.
mod Guardrails
mod Defs
mod Service
mod Override
pub mod Veto
pub mod Keeping
pub mod Turns
pub mod Termination
pub mod Rejection
pub mod Overriding
mod Tests
unfoldable pub use Guardrails.*
unfoldable pub use Defs.*
unfoldable pub use Service.*
unfoldable pub use Override.*

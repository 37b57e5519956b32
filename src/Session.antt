-- ===== src/Session.antt =====
-- The negotiation session of backend/src/negotiation/domain/session.py: the DANP state machine, its
-- offers, counters and queries, and the policies of backend/src/negotiation/domain/policies.py.
mod Defs
mod Methods
mod Queries
mod Commands
pub mod Invariant
pub mod Terminal
pub mod Diagram
pub mod Turns
mod Tests
unfoldable pub use Defs.*
unfoldable pub use Methods.*
unfoldable pub use Queries.*
unfoldable pub use Commands.*

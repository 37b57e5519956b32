-- ===== src/Contract.antt =====
-- The Algorand smart contract of backend/contracts/escrow_contract.py: one function for each ABI
-- method, and a run of calls. A failed assertion rejects the whole transaction group.
mod Defs
pub mod Access
pub mod Funds
mod Tests
unfoldable pub use Defs.*

-- ===== src/Treasury.antt =====
-- The liquidity pool of backend/src/treasury/domain/liquidity_pool.py.
mod Defs
pub mod Balances
mod Positions
mod Service
pub mod Closing
pub mod Realized
pub mod Pools
mod Tests
unfoldable pub use Defs.*
unfoldable pub use Positions.*
unfoldable pub use Service.*

-- ===== src/Merkle.antt =====
-- The Merkle tree of backend/src/shared/infrastructure/merkle_service.py, over an abstract digest.
mod Defs
mod Layers
pub mod Inclusion
pub mod Collisions
pub mod Binding
mod Tests
unfoldable pub use Defs.*

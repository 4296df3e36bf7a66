-- ===== src/Tests.antt =====
-- Concrete inputs: the theorems applied to them, and runs of the definitions.
pub mod Fixtures
pub mod Groups
pub mod Status
pub mod Csr
pub mod Reconcile
mod Generated
pub mod Config
pub mod Objects
mod Providers
mod Scaling

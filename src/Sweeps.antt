-- ===== src/Sweeps.antt =====
-- apps/stripe-bridge/src/sweeps.ts and changeAlert.ts, the loops' two jobs in loops.ts, and the
-- rotation in baseline.ts: what the bridge runs between webhooks.
mod Alarm
mod Problems
mod Checks
mod Rotation
pub mod Quiet
pub mod Harmless
pub mod Minted
unfoldable pub use Alarm.*
unfoldable pub use Problems.*
unfoldable pub use Checks.*
unfoldable pub use Rotation.*

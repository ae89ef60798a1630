-- ===== src/Identity.antt =====
-- apps/stripe-bridge/src/identity.ts: who a member is, and which Wizarr records they hold.
mod Wizarr
mod Resolve
pub mod Records
pub mod Addresses
pub mod Own
unfoldable pub use Wizarr.*
unfoldable pub use Resolve.*

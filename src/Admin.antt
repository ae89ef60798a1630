-- ===== src/Admin.antt =====
-- apps/stripe-bridge/src/admin/actions.ts and admin/billing.ts: what each admin POST does.
mod Billing
mod Actions
mod Grants
pub mod Succeeds
pub mod Bans
pub mod Links
pub mod Mints
unfoldable pub use Billing.*
unfoldable pub use Actions.*
unfoldable pub use Grants.*

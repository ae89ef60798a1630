-- ===== src/Webhook.antt =====
-- apps/stripe-bridge/src/webhook/handlers.ts: Stripe events in, Wizarr and store changes out.
pub mod Payer
mod Effects
pub mod Handlers
mod Dunning
mod Dispatch
pub mod Frame
pub mod Bounds
pub mod Powers
pub mod Revocations
pub mod Delivery
pub mod Paying
pub mod Tags
pub mod Writes
unfoldable pub use Payer.*
unfoldable pub use Effects.*
unfoldable pub use Handlers.*
unfoldable pub use Dunning.*
unfoldable pub use Dispatch.*

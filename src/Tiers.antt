-- ===== src/Tiers.antt =====
-- apps/stripe-bridge/src/tiers.ts: which libraries each paid tier grants, and the checks that turn
-- a rename on the Plex side into an alert.
mod Rules
mod Scope
mod Stale
pub mod Guards
pub mod Health
pub mod Cache
unfoldable pub use Rules.*
unfoldable pub use Scope.*
unfoldable pub use Stale.*

-- ===== src/Bridge.antt =====
-- The `Bridge` that every handler, sweep and route is handed (apps/stripe-bridge/src/types.ts): the
-- store, the four outside services and the settings, and the effects that code over it has.
mod Types
mod Run
mod Calls
pub mod Frame
pub mod Order
pub mod Ensures
pub mod Succeeds
unfoldable pub use Types.*
unfoldable pub use Run.*
unfoldable pub use Calls.*

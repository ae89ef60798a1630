-- ===== src/Store.antt =====
-- apps/stripe-bridge/src/store/: the bridge's SQLite file as one value, a list of rows for each
-- table in rowid order. An operation is a function of the store; one that writes returns the new
-- store. Texts that `isoformat` wrote are held as the instants, in milliseconds, that they denote.
mod Tables
mod Customers
mod Overrides
mod Records
pub mod Lookup
pub mod Updates
pub mod Upsert
pub mod Histories
pub mod Checkout
pub mod Bindings
pub mod Processed
unfoldable pub use Tables.*
unfoldable pub use Customers.*
unfoldable pub use Overrides.*
unfoldable pub use Records.*

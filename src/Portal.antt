-- ===== src/Portal.antt =====
-- apps/admin-portal/src/lib: what the admin portal computes from the member log and the members list.
mod Member
mod Income
mod Walk
mod Series
mod Twins
mod Access
pub mod Ledger
pub mod Replay
pub mod Totals
pub mod Months
pub mod Members
pub mod Edits
pub mod Shares
unfoldable pub use Member.*
unfoldable pub use Income.*
unfoldable pub use Walk.*
unfoldable pub use Series.*
unfoldable pub use Twins.*
unfoldable pub use Access.*

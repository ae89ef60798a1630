-- ===== src/Fleet.antt =====
-- apps/fleet-monitor: what it records of its checks, and what it derives from its readings.
mod Tables
mod Like
mod Incidents
mod Docker
mod Collect
mod Samples
pub mod Sound
pub mod Automaton
pub mod Liveness
pub mod Others
pub mod Unseen
pub mod Retired
pub mod Observed
pub mod Uptime
pub mod Instants
pub mod Dated
pub mod Pruned
pub mod Families
unfoldable pub use Tables.*
unfoldable pub use Like.*
unfoldable pub use Incidents.*
unfoldable pub use Docker.*
unfoldable pub use Collect.*
unfoldable pub use Samples.*

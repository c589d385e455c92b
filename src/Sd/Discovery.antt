-- ===== src/Sd/Discovery.antt =====
-- paf/sd.py, `ServiceDiscovery`: clients, services and subscriptions of one domain. A method takes the
-- time that `time.time()` returns as its argument `now`.
mod Defs
mod Methods
pub mod Commit
pub mod Orphans
pub mod Ensures
pub mod Invariant
pub mod Clients
pub mod Publishing
pub mod Removal
pub mod Purge
pub mod Dropping
pub mod Subscribing
pub mod Disconnect
pub mod Again
pub mod Bystanders
unfoldable pub use Defs.*
unfoldable pub use Methods.*

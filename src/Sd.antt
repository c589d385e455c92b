-- ===== src/Sd.antt =====
-- paf/sd.py, the service discovery state of one domain.
pub mod Resources
pub mod Timeouts
pub mod Service
pub mod Subscription
pub mod Discovery

-- ===== src/Server.antt =====
-- paf/server.py.
pub mod Transaction
pub mod UserId
pub mod State
pub mod Handlers
pub mod Connection
pub mod Listener
pub mod Consistency

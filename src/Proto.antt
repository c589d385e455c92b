-- ===== src/Proto.antt =====
-- paf/proto.py: the messages of the protocol.
pub mod Props
pub mod Fields
pub mod RoundTrip
pub mod Types
pub mod Batch

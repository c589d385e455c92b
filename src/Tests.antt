-- ===== src/Tests.antt =====
-- What the theorems say of concrete states, filters and messages.
mod Discovery
mod Messages
mod Server
mod Loop
mod Settings

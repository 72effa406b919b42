-- ===== src/L3fwd.antt =====
-- l3fwd: layer 3 forwarding.
mod Tests
pub mod Group
pub mod Multi
pub mod Acl
pub mod Lpm
pub mod Fib
pub mod Em
pub mod Rfc1812
pub mod Tx
pub mod Routes
pub mod OnePort
pub mod Config
pub mod Options
pub mod Polling
pub mod Event
pub mod Setup

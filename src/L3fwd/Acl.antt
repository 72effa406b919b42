-- ===== src/L3fwd/Acl.antt =====
-- l3fwd/l3fwd_acl.c, l3fwd_acl.h and l3fwd_acl_scalar.h: forwarding by access control lists.
mod Tests
pub mod Alg
pub mod Rules
pub mod Process
pub mod MainLoop
mod LoopTests
pub mod Load

-- ===== src/L2fwd.antt =====
-- l2fwd/main.c: layer 2 forwarding between port pairs.
mod Tests
pub mod PairCheck
pub mod DstPorts
pub mod LcoreMap
pub mod Args
pub mod Forward

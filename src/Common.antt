-- ===== src/Common.antt =====
-- What the micro-controller and the companion computer share: impl/include/rcplane/common.
pub mod State
pub mod Packet

-- ===== src/Autopilot.antt =====
-- The flight control of the companion computer: impl/src/autopilot.
pub mod Utility
pub mod Manual
pub mod Stabilize
pub mod Manager

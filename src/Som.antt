-- ===== src/Som.antt =====
-- impl/src/som: the program of the companion computer.
pub mod Controller
pub mod Handshake
pub mod Cycle
pub mod Loop
pub mod IoThread
pub mod Failsafe
pub mod Setup

-- ===== src/Io/Telemetry.antt =====
-- impl/src/io/telemetry: the messages that the companion computer publishes, and their transport.
pub mod Message
pub mod Print
pub mod Queue
pub mod Transmitter
pub mod Receiver
pub mod Transport
pub mod Delivery
pub mod Backlog
pub mod Init

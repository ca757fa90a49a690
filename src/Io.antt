-- ===== src/Io.antt =====
-- Input and output of the companion computer: impl/src/io.
pub mod Serial
pub mod Telemetry
pub mod Config
pub mod Journal

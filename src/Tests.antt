-- ===== src/Tests.antt =====
-- The theorems at concrete values.
mod Data
mod Autopilot
mod Controllers
mod Packets
mod Serial
mod Telemetry
mod Transport
mod Som
mod Setup
mod Link
mod Lag
mod Async
mod Station
mod Interleaved
mod IoThread

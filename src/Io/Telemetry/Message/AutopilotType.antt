-- ===== src/Io/Telemetry/Message/AutopilotType.antt =====
-- impl/include/rcplane/io/telemetry/TelemetryMessage.hpp: the enumerators of `AutopilotType`.
use rc_plane.Base.{ℕ}

abbrev pub error : ℕ
error = 0

abbrev pub manual_autopilot : ℕ
manual_autopilot = 1

abbrev pub stabilize_autopilot : ℕ
stabilize_autopilot = 2

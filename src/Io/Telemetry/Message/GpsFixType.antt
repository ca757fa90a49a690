-- ===== src/Io/Telemetry/Message/GpsFixType.antt =====
-- impl/include/rcplane/io/telemetry/TelemetryMessage.hpp: the enumerators of `GpsFixType`.
use rc_plane.Base.{ℕ}

abbrev pub error : ℕ
error = 0

abbrev pub fix_1d : ℕ
fix_1d = 1

abbrev pub fix_2d : ℕ
fix_2d = 2

abbrev pub fix_3d : ℕ
fix_3d = 3

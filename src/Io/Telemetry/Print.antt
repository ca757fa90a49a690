-- ===== src/Io/Telemetry/Print.antt =====
-- impl/include/rcplane/io/telemetry/TelemetryMessage.hpp: the messages as they are put on a stream, and
-- what `at` throws in between, here `none`.
use rc_plane.Base.{◌≤◌, ◌≢◌, ◌↔◌, Option, none, some, List, [], ◌∷◌, arith, ◌>>=◌}
use rc_plane.Base.Int.{pos}
use rc_plane.Base.Stream.{Piece, text, number, real}
use rc_plane.Io.Telemetry.Message.{
  DebugMessage, AttitudeMessage, OnboardStateMessage, at, autopilot_type_to_str,
  gps_fix_type_to_str, names_defined,
}
use rc_plane.Io.Telemetry.Message.AutopilotType
use rc_plane.Io.Telemetry.Message.GpsFixType

abbrev pub print_debug : {F : Type 0} → DebugMessage → List (Piece F)
print_debug m =
    text "serialReads: "
    ∷ number (pos m.serial_reads)
    ∷ text " serialReadTimeouts: "
    ∷ number (pos m.serial_read_timeouts)
    ∷ text " serialWrites: "
    ∷ number (pos m.serial_writes)
    ∷ text " serialWriteTimeouts: "
    ∷ number (pos m.serial_write_timeouts)
    ∷ text " mainLoopCounter: "
    ∷ number (pos m.main_loop_counter)
    ∷ []

abbrev pub print_attitude : {F : Type 0} → AttitudeMessage F → List (Piece F)
print_attitude m =
    text "courseHeading: "
    ∷ real m.course_heading
    ∷ text " rollAngle: "
    ∷ real m.roll_angle
    ∷ text " pitchAngle: "
    ∷ real m.pitch_angle
    ∷ text " yawAngle: "
    ∷ real m.yaw_angle
    ∷ []

-- Each of the two names is looked up with `at`.
unfoldable pub print_onboard : {F : Type 0} → OnboardStateMessage → Option (List (Piece F))
print_onboard m = do
  autopilot ← at m.autopilot_type autopilot_type_to_str
  gps_fix ← at m.gps_fix gps_fix_type_to_str
  some (
      text "mcuTimestamp: "
      ∷ number (pos m.mcu_timestamp)
      ∷ text " throttle: "
      ∷ number (pos m.throttle)
      ∷ text " aileronDeflection: "
      ∷ number m.aileron_deflection
      ∷ text " elevatorDeflection: "
      ∷ number m.elevator_deflection
      ∷ text " rudderDeflection: "
      ∷ number m.rudder_deflection
      ∷ text " autopilot: "
      ∷ text autopilot
      ∷ text " gpsFix: "
      ∷ text gps_fix
      ∷ text " imuTemp: "
      ∷ number (pos m.imu_temperature)
      ∷ [])

-- The two enumerations hold enumerators.
abbrev pub IsShowable : OnboardStateMessage → Type 0
IsShowable m =
    (m.autopilot_type ≤ AutopilotType.stabilize_autopilot) × (m.gps_fix ≤ GpsFixType.fix_3d)

pub print_onboard-IsShowable :
    {F : Type 0} (m : OnboardStateMessage) → (print_onboard {F = F} m ≢ none) ↔ IsShowable m
unfolding print_onboard
print_onboard-IsShowable m = ground (arith, names_defined m.autopilot_type m.gps_fix)

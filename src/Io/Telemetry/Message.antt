-- ===== src/Io/Telemetry/Message.antt =====
-- impl/include/rcplane/io/telemetry/TelemetryMessage.hpp and
-- impl/src/io/telemetry/TelemetryMessage.cpp. An enumeration with a fixed underlying type can hold any
-- value of that type, and a received message is raw memory, so an enumeration is its `uint8_t`.
pub mod AutopilotType
pub mod GpsFixType
use rc_plane.Base.{
  ◌≢◌, ℕ, ◌≤◌, ◌<◌, ◌≡◌, ◌↔◌, Option, none, some, List, [], ◌∷◌, String, ◌==◌, if◌then◌else◌, arith,
}
use rc_plane.Base.Int.{ℤ, pos}
use rc_plane.Double.{Double}
use rc_plane.Io.Telemetry.Message.AutopilotType
use rc_plane.Io.Telemetry.Message.GpsFixType

-- `std::map::at`, which throws on a missing key: `none`.
unfoldable pub at : ℕ → List (ℕ × String) → Option String
at k [] = none
at k ((j, s) ∷ m) = if j == k then some s else at k m

abbrev pub autopilot_type_to_str : List (ℕ × String)
autopilot_type_to_str =
    (AutopilotType.error, "ERR")
    ∷ (AutopilotType.manual_autopilot, "MAN")
    ∷ (AutopilotType.stabilize_autopilot, "SBL")
    ∷ []

abbrev pub gps_fix_type_to_str : List (ℕ × String)
gps_fix_type_to_str =
    (GpsFixType.error, "ERR")
    ∷ (GpsFixType.fix_1d, "F1D")
    ∷ (GpsFixType.fix_2d, "F2D")
    ∷ (GpsFixType.fix_3d, "F3D")
    ∷ []

pub record FaultMessage : Type 0 where
  pub faults : ℕ

pub record DebugMessage : Type 0 where
  pub serial_reads : ℕ
  pub serial_read_timeouts : ℕ
  pub serial_writes : ℕ
  pub serial_write_timeouts : ℕ
  pub main_loop_counter : ℕ

pub record AttitudeMessage (F : Type 0) : Type 0 where
  pub course_heading : F
  pub roll_angle : F
  pub pitch_angle : F
  pub yaw_angle : F

pub record OnboardStateMessage : Type 0 where
  pub mcu_timestamp : ℕ
  pub throttle : ℕ
  pub aileron_deflection : ℤ
  pub elevator_deflection : ℤ
  pub rudder_deflection : ℤ
  pub autopilot_type : ℕ
  pub gps_fix : ℕ
  pub imu_temperature : ℕ

-- The member initializers.
abbrev pub debug_message : DebugMessage
debug_message = record {
  serial_reads = 0;
  serial_read_timeouts = 0;
  serial_writes = 0;
  serial_write_timeouts = 0;
  main_loop_counter = 0;
}

abbrev pub attitude_message : {F : Type 0} ⦃d : Double F⦄ → AttitudeMessage F
attitude_message ⦃d⦄ = record {
  course_heading = d.of_int (pos 0);
  roll_angle = d.of_int (pos 0);
  pitch_angle = d.of_int (pos 0);
  yaw_angle = d.of_int (pos 0);
}

abbrev pub onboard_message : OnboardStateMessage
onboard_message = record {
  mcu_timestamp = 0;
  throttle = 0;
  aileron_deflection = pos 0;
  elevator_deflection = pos 0;
  rudder_deflection = pos 0;
  autopilot_type = 0;
  gps_fix = 0;
  imu_temperature = 0;
}

-- Every enumerator has a name, and no other value has one.
pub names_defined :
    (a g : ℕ)
    → ((a ≤ AutopilotType.stabilize_autopilot) ↔ (at a autopilot_type_to_str ≢ none))
      × ((g ≤ GpsFixType.fix_3d) ↔ (at g gps_fix_type_to_str ≢ none))
unfolding at
names_defined a g = grind arith

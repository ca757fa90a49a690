-- ===== src/Station.antt =====
-- control_station/ControlStation.cpp: what the ground station shows of the messages that it receives.
-- The labels hold the texts that Qt makes of the numbers, and Qt is a parameter.
pub mod Attitude
pub mod Pictures
pub mod Thread
pub mod Interleaved
pub mod Shown
pub mod Emitted
pub mod Delivery
pub mod Main
pub mod Missing
use rc_plane.Base.{ℕ, ◌/◌, Option, none, some, String, ◌>>=◌}
use rc_plane.Base.Int.{ℤ, pos}
use rc_plane.Double.{Double}
use rc_plane.Io.Telemetry.Message.{
  DebugMessage, AttitudeMessage, OnboardStateMessage, at, autopilot_type_to_str,
  gps_fix_type_to_str,
}
use rc_plane.Station.Attitude.{Trig, AttitudeIndicator, attitude_indicator, set_attitude}

-- `QString::number` of an integer and of a `double`, and `QString::fromStdString`.
pub record Qt (T F : Type 0) : Type 0 where
  pub number : ℤ → T
  pub number_double : F → T
  pub from_std_string : String → T

-- The labels of the window, under the names of the user interface file, and the two indicators, of
-- which the heading indicator is the rotation of its face.
pub record ControlStation (T F : Type 0) : Type 0 where
  pub ml_count : T
  pub tx_ok : T
  pub tx_to : T
  pub rx_ok : T
  pub rx_to : T
  pub mtm : T
  pub thl : T
  pub adf : T
  pub edf : T
  pub rdf : T
  pub apt : T
  pub gps : T
  pub tmp : T
  pub chd : T
  pub attitude_indicator : AttitudeIndicator F
  pub heading : F

-- The constructor: the labels are as the generated `setupUi` fills them, in a window whose indicators
-- are replaced. The two numbers are the old positions that the attitude indicator does not set.
unfoldable pub control_station :
    {T F : Type 0} ⦃d : Double F⦄ → ControlStation T F → F → F → ControlStation T F
unfolding attitude_indicator
control_station ⦃d⦄ ui old_x old_y = record ui {
  attitude_indicator = attitude_indicator old_x old_y;
  heading = d.of_int (pos 0);
}

module _ {T F : Type 0} ⦃d : Double F⦄ (trig : Trig F) (qt : Qt T F) where
  -- `setHeading` of the heading indicator.
  unfoldable pub set_heading : F → ControlStation T F → ControlStation T F
  set_heading heading s = record s { heading = heading }

  -- The labels and the indicators, from the messages and the two names.
  unfoldable pub show_messages :
      String
      → String
      → DebugMessage
      → AttitudeMessage F
      → OnboardStateMessage
      → ControlStation T F
      → ControlStation T F
  unfolding set_heading
  show_messages autopilot gps debug attitude onboard s = set_heading attitude.yaw_angle (record s {
    ml_count = qt.number (pos debug.main_loop_counter);
    tx_ok = qt.number (pos debug.serial_writes);
    tx_to = qt.number (pos debug.serial_write_timeouts);
    rx_ok = qt.number (pos debug.serial_reads);
    rx_to = qt.number (pos debug.serial_read_timeouts);
    mtm = qt.number (pos (onboard.mcu_timestamp / 100));
    thl = qt.number (pos onboard.throttle);
    adf = qt.number onboard.aileron_deflection;
    edf = qt.number onboard.elevator_deflection;
    rdf = qt.number onboard.rudder_deflection;
    apt = qt.from_std_string autopilot;
    gps = qt.from_std_string gps;
    tmp = qt.number (pos onboard.imu_temperature);
    chd = qt.number_double attitude.course_heading;
    attitude_indicator =
        set_attitude trig attitude.roll_angle attitude.pitch_angle s.attitude_indicator;
  })

  -- A name that a table does not have throws out of the slot.
  unfoldable pub handle_messages :
      DebugMessage
      → AttitudeMessage F
      → OnboardStateMessage
      → ControlStation T F
      → Option (ControlStation T F)
  unfolding show_messages
  handle_messages debug attitude onboard s = do
    autopilot ← at onboard.autopilot_type autopilot_type_to_str
    gps ← at onboard.gps_fix gps_fix_type_to_str
    some (show_messages autopilot gps debug attitude onboard s)

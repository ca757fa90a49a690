-- ===== src/Som/Cycle.antt =====
-- impl/src/som/SomController.cpp, the body of the loop of `runMainLoop`.
pub mod After
pub mod Counters
pub mod Total
use rc_plane.Base.{ℕ, Bool, true, false, Option, none, some, ◌>>=◌, if◌then◌else◌}
use rc_plane.Double.{Double, cast_uint8}
use rc_plane.Common.Packet.{RcRxPacket, ControlSurfacePacket, ImuPacket}
use rc_plane.Common.Packet.Bytes.{rc_rx_layout, control_surface_layout, imu_layout}
use rc_plane.Io.Serial.{SerialPort, SerialController, ReadResult, read_packet, write_packet}
use rc_plane.Io.Telemetry.Message.{DebugMessage, AttitudeMessage, OnboardStateMessage}
use rc_plane.Io.Telemetry.Message.AutopilotType
use rc_plane.Io.Telemetry.Queue.{Queues}
use rc_plane.Autopilot.Manager.{AutopilotManager, is_in_manual_mode, trigger}
use rc_plane.Som.Controller.{SomController, next, send_telemetry}

-- The counters, in the order in which the loop changes them.
unfoldable pub count_read : Bool → DebugMessage → DebugMessage
count_read did_timeout m =
    if did_timeout
    then record m { serial_read_timeouts = next m.serial_read_timeouts }
    else record m { serial_reads = next m.serial_reads }

unfoldable pub count_written : Bool → DebugMessage → DebugMessage
count_written written m =
    if written
    then record m { serial_writes = next m.serial_writes }
    else record m { serial_write_timeouts = next m.serial_write_timeouts }

unfoldable pub count_loop : DebugMessage → DebugMessage
count_loop m = record m { main_loop_counter = next m.main_loop_counter }

-- The GPS fix is not written.
unfoldable pub onboard_state :
    {F : Type 0}
    → OnboardStateMessage
    → RcRxPacket
    → ControlSurfacePacket
    → AutopilotManager F
    → ℕ
    → OnboardStateMessage
unfolding is_in_manual_mode
onboard_state message rc_rx packet manager temperature = record message {
  mcu_timestamp = rc_rx.timestamp;
  throttle = packet.motor_speed;
  aileron_deflection = packet.aileron_deflection;
  elevator_deflection = packet.elevator_deflection;
  rudder_deflection = packet.rudder_deflection;
  autopilot_type =
      if is_in_manual_mode manager
      then AutopilotType.manual_autopilot
      else AutopilotType.stabilize_autopilot;
  imu_temperature = temperature;
}

-- The course heading is not written.
unfoldable pub attitude :
    {F : Type 0} ⦃d : Double F⦄ → AttitudeMessage F → ImuPacket → AttitudeMessage F
attitude ⦃d⦄ message imu = record message {
  roll_angle = d.of_float32 imu.gyro_x;
  pitch_angle = d.of_float32 imu.gyro_y;
  yaw_angle = d.of_float32 imu.gyro_z;
}

-- The members after a cycle: what was read, and what came of it.
unfoldable pub after_cycle :
    {Q F : Type 0} ⦃d : Double F⦄
    → SomController Q F
    → ReadResult RcRxPacket
    → ReadResult ImuPacket
    → SerialController
    → ControlSurfacePacket
    → AutopilotManager F
    → ℕ
    → Bool
    → SomController Q F
unfolding count_read count_written count_loop onboard_state attitude
after_cycle c rc_rx imu serial packet manager temperature written = record c {
  serial_controller = serial;
  autopilot_manager = manager;
  debug_message = count_loop (
      count_written written
        (count_read imu.did_timeout (count_read rc_rx.did_timeout c.debug_message)));
  attitude_message = attitude c.attitude_message imu.packet;
  onboard_message = onboard_state c.onboard_message rc_rx.packet packet manager temperature;
}

module _ {W Q F : Type 0} ⦃port : SerialPort W⦄ ⦃d : Double F⦄ (qs : Queues W Q F) where
  unfoldable pub run_cycle : SomController Q F → W → Option (SomController Q F × W)
  unfolding after_cycle
  run_cycle c w = do
    (rc_rx, serial, w) ← read_packet {P = RcRxPacket} c.serial_controller w
    (imu, serial, w) ← read_packet {P = ImuPacket} serial w
    (packet, manager) ← trigger c.autopilot_manager rc_rx.packet imu.packet
    temperature ← cast_uint8 (d.of_float32 imu.packet.temperature)
    let (written, w) = write_packet serial packet w
    let c' = after_cycle c rc_rx imu serial packet manager temperature written
    w ← send_telemetry qs c' w
    some (c', w)

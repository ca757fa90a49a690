-- ===== src/Io/Config/Constructors.antt =====
-- The constructors that read the configuration: of SerialController, AutopilotUtility,
-- StabilizeAutopilot, TelemetryTransmitterMQ and TelemetryReceiverMQ, in their files under impl/src.
use rc_plane.Base.{Option, none, some, [], ◌>>=◌}
use rc_plane.Io.Config.{JsonLibrary, ConfigManager, read_value}
use rc_plane.Io.Serial.{SerialController}
use rc_plane.Io.Telemetry.Transmitter.{TelemetryTransmitterMq}
use rc_plane.Io.Telemetry.Receiver.{TelemetryReceiverMq}
use rc_plane.Autopilot.Utility.{AutopilotUtility}
use rc_plane.Autopilot.Stabilize.{Gains}

module _ {J F : Type 0} (library : JsonLibrary J F) where
  open library use {get_string, get_uint32, get_uint8, get_int8, get_double}

  unfoldable pub read_serial_controller : ConfigManager J → Option SerialController
  unfolding read_value
  read_serial_controller c = do
    tty_dev ← read_value library get_string c "rcplane.io.serial_controller.tty_dev"
    baud_rate ← read_value library get_uint32 c "rcplane.io.serial_controller.baud_rate"
    read_timeout ← read_value library get_uint32 c "rcplane.io.serial_controller.read_timeout_ms"
    write_timeout ← read_value library get_uint32 c "rcplane.io.serial_controller.write_timeout_ms"
    termination ← read_value library get_string c "rcplane.common.handshake_termination_string"
    some (record {
      tty_dev = tty_dev;
      baud_rate = baud_rate;
      read_timeout_ms = read_timeout;
      write_timeout_ms = write_timeout;
      handshake_termination_str = termination;
      stream_buffer = [];
    })

  unfoldable pub read_utility : ConfigManager J → Option AutopilotUtility
  unfolding read_value
  read_utility c = do
    throttle ← read_value library get_uint8 c "rcplane.autopilot.max_throttle"
    aileron ← read_value library get_int8 c "rcplane.autopilot.max_aileron_deflection"
    elevator ← read_value library get_int8 c "rcplane.autopilot.max_elevator_deflection"
    rudder ← read_value library get_int8 c "rcplane.autopilot.max_rudder_deflection"
    some (record {
      max_throttle = throttle;
      max_aileron_deflection = aileron;
      max_elevator_deflection = elevator;
      max_rudder_deflection = rudder;
    })

  unfoldable pub read_gains : ConfigManager J → Option (Gains F)
  unfolding read_value
  read_gains c = do
    aileron ← read_value library get_double c "rcplane.autopilot.max_aileron_deflection"
    kp ← read_value library get_double c "rcplane.autopilot.stabilize.kp"
    ki ← read_value library get_double c "rcplane.autopilot.stabilize.ki"
    kd ← read_value library get_double c "rcplane.autopilot.stabilize.kd"
    tau ← read_value library get_double c "rcplane.autopilot.stabilize.tau"
    integral ← read_value library get_double c "rcplane.autopilot.stabilize.max_integral_error"
    some (record {
      max_aileron_deflection = aileron;
      kp = kp;
      ki = ki;
      kd = kd;
      tau = tau;
      max_integral_error = integral;
    })

  unfoldable pub read_transmitter :
      {Q : Type 0} → ConfigManager J → Option (TelemetryTransmitterMq Q)
  unfolding read_value
  read_transmitter c = do
    debug ← read_value library get_string c "rcplane.io.telemetry.debug_mq_name"
    attitude ← read_value library get_string c "rcplane.io.telemetry.attitude_mq_name"
    onboard ← read_value library get_string c "rcplane.io.telemetry.onboard_mq_name"
    size ← read_value library get_uint32 c "rcplane.io.telemetry.mq_size"
    some (record {
      debug_message_queue_name = debug;
      attitude_message_queue_name = attitude;
      onboard_message_queue_name = onboard;
      message_queue_size = size;
      debug_message_queue = none;
      attitude_message_queue = none;
      onboard_message_queue = none;
    })

  -- The size of the queues is not read: it keeps the 0 of its initializer.
  unfoldable pub read_receiver : {Q : Type 0} → ConfigManager J → Option (TelemetryReceiverMq Q)
  unfolding read_value
  read_receiver c = do
    debug ← read_value library get_string c "rcplane.io.telemetry.debug_mq_name"
    attitude ← read_value library get_string c "rcplane.io.telemetry.attitude_mq_name"
    onboard ← read_value library get_string c "rcplane.io.telemetry.onboard_mq_name"
    some (record {
      debug_message_queue_name = debug;
      attitude_message_queue_name = attitude;
      onboard_message_queue_name = onboard;
      message_queue_size = 0;
      debug_message_queue = none;
      attitude_message_queue = none;
      onboard_message_queue = none;
    })

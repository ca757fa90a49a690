-- ===== src/Tests/Som.antt =====
-- The controller on the loopback line.
use rc_plane.Base.{ℕ, ◌≤◌, ◌≡◌, refl, Bool, true, false, Option, none, some, List, [], ◌∷◌, arith}
use rc_plane.Base.Int.{pos}
use rc_plane.Double.{cast_uint8}
use rc_plane.Double.Fixed.{Fixed, fixed_double}
use rc_plane.Common.Packet.{
  ImuPacket, control_surface_packet, imu_packet, rc_rx_packet, HandshakePacket,
}
use rc_plane.Common.Packet.Bytes.{
  handshake_layout, imu_layout, rc_rx_layout, control_surface_layout,
}
use rc_plane.Autopilot.Manager.{is_manual, is_in_manual_mode, trigger}
use rc_plane.Io.Serial.{ReadResult, read_result, read_packet, write_packet, flush}
use rc_plane.Io.Serial.Loopback.{Line, loopback, loopback-IsSerialPort}
use rc_plane.Io.Telemetry.Message.{debug_message, attitude_message, onboard_message}
use rc_plane.Io.Telemetry.Queue.{MessageQueue, Queues, accepted}
use rc_plane.Som.Controller.{send_telemetry, Host, SomController, returned}
use rc_plane.Som.Handshake.{acknowledgement, is_answer, handshake_mcu}
use rc_plane.Som.Handshake.Answer.{any, read_handshakes, handshake_iff_answered}
use rc_plane.Som.Cycle.{count_read, count_written, count_loop, run_cycle}
use rc_plane.Som.Cycle.Counters.{IsCounted}
use rc_plane.Som.Loop.{run_rounds}
use rc_plane.Som.Loop.Accounting.{rounds_run, run_rounds-IsCounted}
use rc_plane.Som.Failsafe.{IsIdle, IsOpen, receiver_lost}
use rc_plane.Som.Cycle.Total.{stopped_by_conversion}
use rc_plane.Io.Serial.{SerialController}
use rc_plane.Common.Packet.{RcRxPacket}
use rc_plane.Common.Packet.Bytes.{rc_rx_layout, control_surface_layout}
use rc_plane.Base.{◌⊎◌, false}
use rc_plane.Tests.Data.{manager, utility-IsConfigured}
use rc_plane.Tests.Serial.{controller}
use rc_plane.Tests.Telemetry.{opened_transmitter}

abbrev line_queue : {M : Type 0} → MessageQueue Line Unit M
line_queue = record {
  open_or_create = λ _ _ w. (some tt, w);
  open_only = λ _ w. (some tt, w);
  try_send = λ _ _ w. (accepted, w);
  receive = λ _ w. (none, w);
}

abbrev pub line_queues : Queues Line Unit Fixed
line_queues = record {
  debug = line_queue;
  attitude = line_queue;
  onboard = line_queue;
  remove = λ _ w. w;
}

abbrev pub running : Host Line
running = record { is_stopped = λ w. (false, w); sleep_ms = λ _ w. w }

abbrev pub som : SomController Unit Fixed
som = record {
  handshake_attempts = 3;
  main_loop_delay = 100;
  serial_controller = controller;
  autopilot_manager = manager;
  debug_message = debug_message;
  attitude_message = attitude_message;
  onboard_message = onboard_message;
  telemetry_transmitter = opened_transmitter;
}

flushed : flush {W = Line} controller (0 ∷ []) ≡ (true, controller, 0 ∷ [])
unfolding flush
flushed = refl

handshake_written : write_packet {W = Line} controller acknowledgement (0 ∷ []) ≡ (true, 0 ∷ 1 ∷ [])
unfolding write_packet
handshake_written = refl

-- An old byte comes before the answer.
handshake_iff_answered_example :
    (rs : List (ReadResult HandshakePacket)) × (c' : SomController Unit Fixed) × (w' : Line)
    × (read_handshakes {W = Line} 3 controller (0 ∷ 1 ∷ []) ≡ some rs)
    × (handshake_mcu som (0 ∷ []) ≡ some (returned (any is_answer rs, c', w')))
handshake_iff_answered_example =
    handshake_iff_answered loopback-IsSerialPort som controller (0 ∷ []) (0 ∷ []) (0 ∷ 1 ∷ [])
      flushed handshake_written

pub opened : IsOpen opened_transmitter
opened = record { debug_open = λ p. cc; attitude_open = λ p. cc; onboard_open = λ p. cc }

pub synced : is_manual manager.autopilot ≡ true
unfolding is_manual
synced = refl

imu_stalled :
    read_packet {W = Line} {P = ImuPacket} controller [] ≡ some (read_result, controller, [])
unfolding read_packet
imu_stalled = refl

temperature_zero : cast_uint8 (fixed_double.of_float32 0) ≡ some 0
unfolding cast_uint8 rc_plane.Base.Int.◌/ℤ◌
temperature_zero = refl

receiver_lost_example :
    (written : Bool) × (w₃ w₄ : Line) × (c' : SomController Unit Fixed) × (write_packet {W = Line}
        controller control_surface_packet []
      ≡ (written, w₃))
    × (send_telemetry line_queues c' w₃ ≡ some w₄)
    × (run_cycle line_queues som [] ≡ some (c', w₄))
    × (c'.debug_message
        ≡ count_loop (count_written written (count_read true (count_read true debug_message))))
    × IsIdle c'.onboard_message
    × (is_in_manual_mode c'.autopilot_manager ≡ true)
receiver_lost_example =
    receiver_lost line_queues som controller [] [] [] [] read_result 0 synced utility-IsConfigured
      opened refl imu_stalled temperature_zero

abbrev pub som_after : SomController Unit Fixed
som_after = record som {
  debug_message = record debug_message {
    serial_read_timeouts = 2;
    serial_writes = 1;
    main_loop_counter = 1;
  };
  attitude_message = record {
    course_heading = some (pos 0);
    roll_angle = some (pos 0);
    pitch_angle = some (pos 0);
    yaw_angle = some (pos 0);
  };
  onboard_message = record onboard_message { autopilot_type = 1 };
}

trigger_run : trigger manager rc_rx_packet imu_packet ≡ some (control_surface_packet, manager)
unfolding trigger rc_plane.Autopilot.Manual.trigger rc_plane.Autopilot.Utility.bind_rc_throttle
    rc_plane.Autopilot.Utility.bind_rc_aileron_deflection
    rc_plane.Autopilot.Utility.bind_rc_elevator_deflection
    rc_plane.Autopilot.Utility.bind_rc_rudder_deflection rc_plane.Base.Int.to_uint8
    rc_plane.Base.Int.to_int8 rc_plane.Base.Int.◌+ℤ◌ rc_plane.Base.Int.◌/ℤ◌ rc_plane.Base.Int.◌*ℤ◌
    rc_plane.Base.Int.◌-ℤ◌ rc_plane.Base.Int.negate
trigger_run = refl

pub cycle_run : run_cycle line_queues som [] ≡ some (som_after, 0 ∷ 0 ∷ 0 ∷ 0 ∷ [])
unfolding run_cycle read_packet rc_plane.Som.Controller.send_telemetry write_packet
    rc_plane.Base.Int.◌*ℤ◌ rc_plane.Common.Packet.Bytes.control_surface_to_bytes
    rc_plane.Base.Int.to_uint8
cycle_run = rw (trigger_run, temperature_zero) refl

round_run : run_rounds line_queues running 1 som [] ≡ some (som_after, 0 ∷ 0 ∷ 0 ∷ 0 ∷ [])
unfolding run_rounds
round_run = rw cycle_run refl

run_rounds-IsCounted_example :
    IsCounted (rounds_run line_queues running 1 som []) debug_message som_after.debug_message
run_rounds-IsCounted_example =
    run_rounds-IsCounted line_queues running 1 som som_after [] (0 ∷ 0 ∷ 0 ∷ 0 ∷ []) round_run

-- Five degrees below zero: an idle receiver packet, and a temperature that does not fit its byte.
abbrev cold : ImuPacket
cold = record imu_packet { temperature = 0xc0a00000 }

abbrev cold_line : Line
cold_line =
    0 ∷ 0 ∷ 0 ∷ 0 ∷ 0 ∷ 0 ∷ 0 ∷ 0 ∷ 0 ∷ 0 ∷ 0 ∷ 0 ∷ 0 ∷ 0 ∷ 0 ∷ 0 ∷ 0 ∷ 0 ∷ 0 ∷ 0 ∷ 0 ∷ 0 ∷ 0 ∷ 0
    ∷ 0 ∷ 0 ∷ 0 ∷ 0 ∷ 0 ∷ 0 ∷ 0 ∷ 0 ∷ 0 ∷ 0 ∷ 0 ∷ 160 ∷ 192 ∷ []

-- What is left after the receiver packet.
abbrev cold_rest : Line
cold_rest =
    0 ∷ 0 ∷ 0 ∷ 0 ∷ 0 ∷ 0 ∷ 0 ∷ 0 ∷ 0 ∷ 0 ∷ 0 ∷ 0 ∷ 0 ∷ 0 ∷ 0 ∷ 0 ∷ 0 ∷ 0 ∷ 0 ∷ 0 ∷ 0 ∷ 0 ∷ 0 ∷ 0
    ∷ 0 ∷ 0 ∷ 160 ∷ 192 ∷ []

cold_step : trigger manager rc_rx_packet cold ≡ some (control_surface_packet, manager)
unfolding trigger rc_plane.Autopilot.Manual.trigger rc_plane.Autopilot.Utility.bind_rc_throttle
    rc_plane.Autopilot.Utility.bind_rc_aileron_deflection
    rc_plane.Autopilot.Utility.bind_rc_elevator_deflection
    rc_plane.Autopilot.Utility.bind_rc_rudder_deflection rc_plane.Base.Int.to_uint8
    rc_plane.Base.Int.to_int8 rc_plane.Base.Int.◌+ℤ◌ rc_plane.Base.Int.◌/ℤ◌ rc_plane.Base.Int.◌*ℤ◌
    rc_plane.Base.Int.◌-ℤ◌ rc_plane.Base.Int.negate
cold_step = refl

cold_temperature : cast_uint8 (fixed_double.of_float32 cold.temperature) ≡ none
unfolding cast_uint8 rc_plane.Base.Int.◌/ℤ◌
cold_temperature = refl

cold_rc_rx :
    read_packet {W = Line} {P = RcRxPacket} controller cold_line
    ≡ some (
      record { packet = rc_rx_packet; did_timeout = false; bytes_read = 0 },
      controller,
      cold_rest,
    )
unfolding read_packet rc_plane.Common.Packet.Bytes.rc_rx_of_bytes rc_plane.Base.Int.int8_of_byte
cold_rc_rx = refl

cold_imu :
    read_packet {W = Line} {P = ImuPacket} controller cold_rest
    ≡ some (record { packet = cold; did_timeout = false; bytes_read = 0 }, controller, [])
unfolding read_packet rc_plane.Common.Packet.Bytes.imu_of_bytes
cold_imu = refl

cold_cycle : run_cycle line_queues som cold_line ≡ none
unfolding run_cycle
cold_cycle = rw cold_rc_rx (rw cold_imu (rw cold_step (rw cold_temperature refl)))

stopped_by_conversion_example :
    (rc_rx : ReadResult RcRxPacket) × (imu : ReadResult ImuPacket) × (s₁ s₂ : SerialController)
    × (w₁ w₂ : Line) × (read_packet controller cold_line ≡ some (rc_rx, s₁, w₁))
    × (read_packet s₁ w₁ ≡ some (imu, s₂, w₂))
    × ((trigger manager rc_rx.packet imu.packet ≡ none)
        ⊎ (cast_uint8 (fixed_double.of_float32 imu.packet.temperature) ≡ none))
stopped_by_conversion_example =
    stopped_by_conversion line_queues loopback-IsSerialPort som cold_line opened cold_cycle

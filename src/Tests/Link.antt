-- ===== src/Tests/Link.antt =====
-- The sketch and the controller at the two ends of a line: centred sticks, half throttle.
use rc_plane.Base.{
  ℕ, ◌*◌, ◌≡◌, refl, ◌==◌, if◌then◌else◌, true, Option, none, some, List, [], ◌∷◌, String, All,
  length, arith,
}
use rc_plane.Base.Int.{pos}
use rc_plane.Double.{cast_uint8}
use rc_plane.Double.Fixed.{Fixed, fixed_double}
use rc_plane.Common.Packet.{RcRxPacket, ImuPacket, ControlSurfacePacket, imu_packet}
use rc_plane.Autopilot.Manager.{trigger}
use rc_plane.Io.Telemetry.Queue.{MessageQueue, Queues, accepted}
use rc_plane.Io.Telemetry.Message.{debug_message, onboard_message}
use rc_plane.Mcu.{Board, Sketch, sketch, send_packets, read_sticks}
use rc_plane.Mcu.Sticks.{IsBoard}
use rc_plane.Som.Controller.{SomController}
use rc_plane.Link.{Link, link_board, exchange, exchanges}
use rc_plane.Autopilot.Utility.Limits.{IsInEnvelope}
use rc_plane.Mcu.Calm.{IsCalm}
use rc_plane.Link.Calm.{IsFlyable, exchanges-IsInEnvelope}
use rc_plane.Tests.Data.{utility, utility-IsConfigured}
use Prim.Native.String.{compare}
use Prim.Native.Nat.{Ordering}
use rc_plane.Link.Handshake.{shake, shake-IsClear}
use rc_plane.Link.PowerUp.{power_up}
use rc_plane.Som.Setup.Ready.{IsReady}
use rc_plane.Som.Handshake.{acknowledgement}
use rc_plane.Tests.Serial.{controller}
use rc_plane.Link.Round.{IsClear}
use rc_plane.Tests.Data.{manager}
use rc_plane.Tests.Som.{som, opened, synced}

abbrev pub toy_board : Board Unit
toy_board = record {
  pulse_in = λ pin w. (if pin == 6 then 1000 else 1500, w);
  millis = λ w. (5000, w);
  print_line = λ _ w. w;
  write_bytes = λ _ w. w;
  read_bytes = λ _ w. ([], w);
  analog_write = λ _ _ w. w;
  start = λ w. w;
  start_imu = λ w. w;
  update_imu = λ w. (imu_packet, w);
}

pub toy_board-IsBoard : IsBoard toy_board
toy_board-IsBoard = record {
  millis-lt = λ w. omega arith;
  imu_value = λ w. record {
    gyro_x_lt = omega arith;
    gyro_y_lt = omega arith;
    gyro_z_lt = omega arith;
    acc_x_lt = omega arith;
    acc_y_lt = omega arith;
    acc_z_lt = omega arith;
    temperature_lt = omega arith;
  };
}

abbrev toy_queue : {M : Type 0} → MessageQueue Unit Unit M
toy_queue = record {
  open_or_create = λ _ _ w. (some tt, w);
  open_only = λ _ w. (some tt, w);
  try_send = λ _ _ w. (accepted, w);
  receive = λ _ w. (none, w);
}

abbrev pub toy_queues : Queues Unit Unit Fixed
toy_queues = record {
  debug = toy_queue;
  attitude = toy_queue;
  onboard = toy_queue;
  remove = λ _ w. w;
}

abbrev pub no_text : String → List ℕ
no_text s = []

abbrev pub centred : RcRxPacket
centred = record {
  timestamp = 5000;
  state = 0;
  motor_stick_position = 50;
  aileron_stick_position = pos 0;
  elevator_stick_position = pos 0;
  rudder_stick_position = pos 0;
}

centred_sticks : read_sticks toy_board Fixed tt ≡ some (centred, tt)
unfolding read_sticks cast_uint8 rc_plane.Base.Int.◌-ℤ◌ rc_plane.Base.Int.◌*ℤ◌
    rc_plane.Base.Int.◌/ℤ◌ rc_plane.Base.Int.◌+ℤ◌ rc_plane.Base.Int.int8_of_byte
centred_sticks = refl

abbrev pub half_throttle : ControlSurfacePacket
half_throttle = record {
  motor_speed = 127;
  aileron_deflection = pos 0;
  elevator_deflection = pos 0;
  rudder_deflection = pos 0;
}

abbrev pub clear_link : Link Unit no_text
clear_link = record { env = tt; up = []; down = [] }

abbrev pub sent_sketch : Sketch
sent_sketch = record sketch { rc_rx = centred }

abbrev sent_link : Link Unit no_text
sent_link = record clear_link {
  up =
      136 ∷ 19 ∷ 0 ∷ 0 ∷ 0 ∷ 50 ∷ 0 ∷ 0 ∷ 0 ∷ 0 ∷ 0 ∷ 0 ∷ 0 ∷ 0 ∷ 0 ∷ 0 ∷ 0 ∷ 0 ∷ 0 ∷ 0 ∷ 0 ∷ 0 ∷ 0
      ∷ 0 ∷ 0 ∷ 0 ∷ 0 ∷ 0 ∷ 0 ∷ 0 ∷ 0 ∷ 0 ∷ 0 ∷ 0 ∷ 0 ∷ 0 ∷ 0 ∷ [];
}

sent :
    send_packets (link_board no_text toy_board) Fixed sketch clear_link
    ≡ some (sent_sketch, sent_link)
unfolding send_packets cast_uint8 rc_plane.Base.Int.◌-ℤ◌ rc_plane.Base.Int.◌*ℤ◌
    rc_plane.Base.Int.◌/ℤ◌ rc_plane.Base.Int.◌+ℤ◌ rc_plane.Base.Int.int8_of_byte
    rc_plane.Common.Packet.Bytes.rc_rx_to_bytes rc_plane.Base.Int.to_uint8
    rc_plane.Common.Packet.Bytes.imu_to_bytes
sent = refl

answered : trigger manager centred imu_packet ≡ some (half_throttle, manager)
unfolding trigger rc_plane.Autopilot.Manual.trigger rc_plane.Autopilot.Utility.bind_rc_throttle
    rc_plane.Autopilot.Utility.bind_rc_aileron_deflection
    rc_plane.Autopilot.Utility.bind_rc_elevator_deflection
    rc_plane.Autopilot.Utility.bind_rc_rudder_deflection rc_plane.Base.Int.to_uint8
    rc_plane.Base.Int.to_int8 rc_plane.Base.Int.◌+ℤ◌ rc_plane.Base.Int.◌/ℤ◌ rc_plane.Base.Int.◌*ℤ◌
    rc_plane.Base.Int.◌-ℤ◌ rc_plane.Base.Int.negate
answered = refl

temperature_cast : cast_uint8 (fixed_double.of_float32 0) ≡ some 0
unfolding cast_uint8 rc_plane.Base.Int.◌/ℤ◌
temperature_cast = refl

pub som-IsClear : IsClear som clear_link
som-IsClear = record {
  up_empty = refl;
  down_empty = refl;
  buffer_empty = refl;
  queues_open = opened;
  limit_fits = omega arith;
}

abbrev pub sketch_after : Sketch
sketch_after = record sent_sketch { control_surface = half_throttle }

-- The controller after n exchanges.
abbrev pub som_after : ℕ → SomController Unit Fixed
som_after n = record som {
  debug_message = record debug_message {
    serial_reads = 2 * n;
    serial_writes = n;
    main_loop_counter = n;
  };
  onboard_message = record onboard_message {
    mcu_timestamp = 5000;
    throttle = 127;
    autopilot_type = 1;
  };
}

-- Exchanges of the toy board, with all that they compute with.
unfoldable pub run_exchanges :
    ℕ
    → Sketch
    → SomController Unit Fixed
    → Link Unit no_text
    → Option (List Sketch × SomController Unit Fixed × Link Unit no_text)
unfolding exchanges exchange send_packets rc_plane.Mcu.take_answer cast_uint8 rc_plane.Base.Int.◌-ℤ◌
    rc_plane.Base.Int.◌*ℤ◌ rc_plane.Base.Int.◌/ℤ◌ rc_plane.Base.Int.◌+ℤ◌ rc_plane.Base.Int.negate
    rc_plane.Som.Cycle.run_cycle rc_plane.Io.Serial.read_packet rc_plane.Io.Serial.write_packet
    rc_plane.Common.Packet.Bytes.rc_rx_to_bytes rc_plane.Common.Packet.Bytes.imu_to_bytes
    rc_plane.Common.Packet.Bytes.rc_rx_of_bytes rc_plane.Common.Packet.Bytes.imu_of_bytes
    rc_plane.Common.Packet.Bytes.control_surface_to_bytes
    rc_plane.Common.Packet.Bytes.control_surface_of_bytes trigger rc_plane.Base.Int.int8_of_byte
    rc_plane.Som.Controller.send_telemetry rc_plane.Autopilot.Manual.trigger
    rc_plane.Autopilot.Utility.bind_rc_aileron_deflection
    rc_plane.Autopilot.Utility.bind_rc_elevator_deflection
    rc_plane.Autopilot.Utility.bind_rc_rudder_deflection rc_plane.Autopilot.Utility.bind_rc_throttle
    rc_plane.Base.Int.to_int8 rc_plane.Base.Int.to_uint8 rc_plane.Som.Loop.run_rounds
    rc_plane.Mcu.loops
run_exchanges = exchanges no_text toy_board toy_queues

exchanged_once :
    exchange no_text toy_board toy_queues sketch som clear_link
    ≡ some (sketch_after, som_after 1, clear_link)
unfolding run_exchanges
exchanged_once = refl

exchanged_again :
    exchange no_text toy_board toy_queues sketch_after (som_after 1) clear_link
    ≡ some (sketch_after, som_after 2, clear_link)
unfolding run_exchanges
exchanged_again = refl

exchanged :
    exchanges no_text toy_board toy_queues 2 sketch som clear_link
    ≡ some (sketch_after ∷ sketch_after ∷ [], som_after 2, clear_link)
unfolding exchanges
exchanged = rw (exchanged_once, exchanged_again) refl

toy_board-IsCalm : IsCalm toy_board Fixed
unfolding cast_uint8 rc_plane.Mcu.to_range rc_plane.Base.Int.◌-ℤ◌ rc_plane.Base.Int.◌*ℤ◌
    rc_plane.Base.Int.◌/ℤ◌ rc_plane.Base.Int.◌+ℤ◌
toy_board-IsCalm = record {
  motor_nominal = λ w. (50, refl, omega arith);
  aileron_nominal = λ w. (0, refl, omega arith);
  elevator_nominal = λ w. (0, refl, omega arith);
  rudder_nominal = λ w. (0, refl, omega arith);
  switch_low = λ w. omega arith;
  temperature_fits = λ w. (0, refl);
}

som-IsFlyable : IsFlyable utility som clear_link
som-IsFlyable = record { clear = som-IsClear; synced = synced; same_utility = refl }

exchanges-IsInEnvelope_example :
    (log : List Sketch) × (c' : SomController Unit Fixed) × (w' : Link Unit no_text) × (exchanges
        no_text toy_board toy_queues 50 sketch som clear_link
      ≡ some (log, c', w'))
    × (length log ≡ 50)
    × All (λ (s' : Sketch). IsInEnvelope utility s'.control_surface) log
    × IsFlyable utility c' w'
exchanges-IsInEnvelope_example =
    exchanges-IsInEnvelope no_text toy_board toy_board-IsBoard toy_board-IsCalm toy_queues utility
      50 sketch som clear_link utility-IsConfigured som-IsFlyable

-- The bytes of the two strings in use: what the sketch prints, and the configured terminator.
abbrev ascii : String → List ℕ
ascii s = elim (compare s "flush") [
  | Ordering.eq ↦ 102 ∷ 108 ∷ 117 ∷ 115 ∷ 104 ∷ []
  | _ ↦ 102 ∷ 108 ∷ 117 ∷ 115 ∷ 104 ∷ 13 ∷ 10 ∷ []
]

abbrev starting : SomController Unit Fixed
starting = record som {
  serial_controller = record controller { handshake_termination_str = "flush\r\n" };
}

-- Old bytes are on the line, the start of another announcement among them.
abbrev stale_link : Link Unit ascii
stale_link = record { env = tt; up = 9 ∷ 102 ∷ 108 ∷ []; down = [] }

shake-IsClear_example :
    (c' : SomController Unit Fixed) × (w' : Link Unit ascii) × (shake ascii toy_board sketch
        starting stale_link
      ≡ some (true, record sketch { handshake = acknowledgement }, c', w'))
    × (c'.autopilot_manager ≡ manager)
    × IsClear c' w'
shake-IsClear_example =
    shake-IsClear ascii toy_board sketch starting stale_link 2 refl refl refl refl opened
      (omega arith)

starting-IsReady : IsReady starting
starting-IsReady = record {
  manager_synced = synced;
  manager_manual = synced;
  utility_shared = refl;
  queues_open = opened;
  nothing_buffered = refl;
  nothing_counted = refl;
}

power_up_example :
    (s₁ : Sketch) × (c₁ c₂ : SomController Unit Fixed) × (w₁ w₂ : Link Unit ascii) × (log : List
      Sketch)
    × (shake ascii toy_board sketch starting stale_link ≡ some (true, s₁, c₁, w₁))
    × (exchanges ascii toy_board toy_queues 50 s₁ c₁ w₁ ≡ some (log, c₂, w₂))
    × (length log ≡ 50)
    × All (λ (s' : Sketch). IsInEnvelope utility s'.control_surface) log
power_up_example =
    power_up ascii toy_board toy_board-IsBoard toy_board-IsCalm toy_queues utility 50 2 sketch
      starting stale_link starting-IsReady refl utility-IsConfigured refl refl refl

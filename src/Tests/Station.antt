-- ===== src/Tests/Station.antt =====
-- The programs on the ground at concrete values.
use rc_plane.Base.{
  All, ◌≢◌, ◌≡◌, refl, true, false, none, some, List, [], ◌∷◌, ◌++◌, String, length, arith,
}
use rc_plane.Base.Int.{ℤ, pos, negsuc, IsWithin}
use rc_plane.Double.Fixed.{Fixed, fixed_double}
use rc_plane.Io.Telemetry.Message.{
  DebugMessage, AttitudeMessage, OnboardStateMessage, debug_message, attitude_message,
  onboard_message,
}
use rc_plane.Io.Telemetry.Queue.{MessageQueue, Queues, accepted}
use rc_plane.Io.Telemetry.Receiver
use rc_plane.Io.Telemetry.Receiver.{TelemetryReceiverMq, receive_onboard_message}
use rc_plane.Io.Telemetry.Backlog.{Messages, apart_queues, IsSending, IsReceiving, IsWaiting}
use rc_plane.Io.Serial.Loopback.{loopback}
use rc_plane.Som.Controller.{send_telemetry}
use rc_plane.Som.Loop.{run_rounds}
use rc_plane.Station.{Qt, ControlStation, handle_messages, show_messages}
use rc_plane.Station.Attitude.{Trig, AttitudeIndicator, bind_pitch}
use rc_plane.Station.Delivery.{published_then_emitted}
use rc_plane.Io.Telemetry.Print.{IsShowable}
use rc_plane.Station.Emitted.{emit_rounds-handle_messages}
use rc_plane.Station.Shown.{published-IsShowable}
use rc_plane.Station.Thread.{emit_rounds, run_thread, thread_undefined}
use rc_plane.Io.Config.{Parsed, not_open}
use rc_plane.Station.Main.{station_main}
use rc_plane.Station.Missing.{ground_not_open}
use rc_plane.Tests.Setup.{Json, json_library, json_library-IsJson}
use rc_plane.Pc.{exited, got, read_rounds, pc_main}
use rc_plane.Pc.Reading.{read_rounds-IsWaiting}
use rc_plane.Tests.Som.{som, som_after, running, line_queues, cycle_run}
use rc_plane.Tests.Telemetry.{two_queue, two_queue-IsQueue, opened_transmitter, closed_receiver}

abbrev pub World : Type 0
World = List DebugMessage × List (AttitudeMessage Fixed) × List OnboardStateMessage

abbrev pub two_queues : Queues World Unit Fixed
two_queues = apart_queues two_queue two_queue two_queue (λ _ w. w)

abbrev pub opened_receiver : TelemetryReceiverMq Unit
opened_receiver = record closed_receiver {
  debug_message_queue = some tt;
  attitude_message_queue = some tt;
  onboard_message_queue = some tt;
}

pub opened_transmitter-IsSending : IsSending opened_transmitter tt tt tt
opened_transmitter-IsSending = record {
  debug_sends = refl;
  attitude_sends = refl;
  onboard_sends = refl;
}

pub opened_receiver-IsReceiving : IsReceiving opened_receiver tt tt tt
opened_receiver-IsReceiving = record {
  debug_receives = refl;
  attitude_receives = refl;
  onboard_receives = refl;
}

-- A message that waits before that of the controller.
abbrev waiting : Messages Fixed
waiting = (record debug_message { serial_reads = 7 }, attitude_message, onboard_message)

abbrev fresh : Messages Fixed
fresh = (debug_message, attitude_message, onboard_message)

shown : IsShowable onboard_message
shown = (omega arith, omega arith)

abbrev world_before : World
world_before = (waiting.0 ∷ [], waiting.1 ∷ [], waiting.2 ∷ [])

abbrev world_after : World
world_after = (waiting.0 ∷ fresh.0 ∷ [], waiting.1 ∷ fresh.1 ∷ [], waiting.2 ∷ fresh.2 ∷ [])

published_then_emitted_example :
    (send_telemetry two_queues som world_before ≡ some world_after)
    × (w : World) × (emit_rounds two_queues 2 opened_receiver world_after
        ≡ some (waiting ∷ fresh ∷ [], w))
    × IsWaiting two_queue two_queue two_queue two_queue-IsQueue two_queue-IsQueue two_queue-IsQueue
        tt tt tt [] w
unfolding two_queue-IsQueue
published_then_emitted_example =
    published_then_emitted two_queue two_queue two_queue (λ _ w. w) two_queue-IsQueue
      two_queue-IsQueue two_queue-IsQueue tt tt tt som opened_receiver (waiting ∷ []) world_before
      world_after opened_transmitter-IsSending opened_receiver-IsReceiving
      (refl, refl, refl, (shown, tt)) shown refl refl refl

read_rounds-IsWaiting_example :
    (w : World) × (read_rounds two_queues 2 1 opened_receiver world_after
      ≡ got (waiting ∷ fresh ∷ [], w))
    × IsWaiting two_queue two_queue two_queue two_queue-IsQueue two_queue-IsQueue two_queue-IsQueue
        tt tt tt [] w
unfolding two_queue-IsQueue
read_rounds-IsWaiting_example =
    read_rounds-IsWaiting two_queue two_queue two_queue (λ _ w. w) two_queue-IsQueue
      two_queue-IsQueue two_queue-IsQueue tt tt tt 0 opened_receiver (waiting ∷ fresh ∷ [])
      world_after opened_receiver-IsReceiving (refl, refl, refl, (shown, (shown, tt)))

-- Queues that were not created.
abbrev missing_queue : {M : Type 0} → MessageQueue Unit Unit M
missing_queue = record {
  open_or_create = λ _ _ w. (none, w);
  open_only = λ _ w. (none, w);
  try_send = λ _ _ w. (accepted, w);
  receive = λ _ w. (none, w);
}

abbrev missing_queues : Queues Unit Unit Fixed
missing_queues = record {
  debug = missing_queue;
  attitude = missing_queue;
  onboard = missing_queue;
  remove = λ _ w. w;
}

init_fails : Receiver.init missing_queues closed_receiver tt ≡ (false, closed_receiver, tt)
unfolding Receiver.init
init_fails = refl

thread_undefined_example : run_thread missing_queues 1 closed_receiver tt ≡ none
thread_undefined_example =
    thread_undefined missing_queues closed_receiver closed_receiver tt tt 0 refl refl refl
      init_fails

-- A number on a label is kept as it is. The sine and the cosine are those of small angles.
data Text : Type 0 where
  integer : ℤ → Text
  real : Fixed → Text
  plain : String → Text

abbrev qt : Qt Text Fixed
qt = record { number = integer; number_double = real; from_std_string = plain }

abbrev trig : Trig Fixed
trig = record {
  pi = some (pos 3142);
  sin = λ x. x;
  cos = λ _. some (pos 1000);
  scale = some (pos 1700);
}

abbrev horizon : AttitudeIndicator Fixed
horizon = record {
  back_rotation = some (pos 0);
  face_rotation = some (pos 0);
  ring_rotation = some (pos 0);
  face_x = some (pos 0);
  face_y = some (pos 0);
  old_x_position = some (pos 0);
  old_y_position = some (pos 0);
}

abbrev blank : ControlStation Text Fixed
blank = record {
  ml_count = plain "";
  tx_ok = plain "";
  tx_to = plain "";
  rx_ok = plain "";
  rx_to = plain "";
  mtm = plain "";
  thl = plain "";
  adf = plain "";
  edf = plain "";
  rdf = plain "";
  apt = plain "";
  gps = plain "";
  tmp = plain "";
  chd = plain "";
  attitude_indicator = horizon;
  heading = some (pos 0);
}

-- 45 degrees up are shown as 30.
steep : bind_pitch {F = Fixed} (some (pos 45000)) ≡ some (pos 30000)
unfolding bind_pitch rc_plane.Base.Int.◌*ℤ◌
steep = refl

som-IsShowable : IsShowable som.onboard_message
som-IsShowable = (omega arith, omega arith)

not_run : run_rounds line_queues running 0 som [] ≡ some (som, [])
unfolding run_rounds
not_run = refl

published-IsShowable_example :
    (gps : String) × (handle_messages trig qt som_after.debug_message som_after.attitude_message
        som_after.onboard_message blank
      ≡ some (
          show_messages trig qt "MAN" gps som_after.debug_message som_after.attitude_message
            som_after.onboard_message blank))
    × IsShowable som_after.onboard_message
unfolding rc_plane.Autopilot.Manager.is_in_manual_mode
published-IsShowable_example =
    published-IsShowable line_queues running trig qt 0 som som som_after [] [] []
      (0 ∷ 0 ∷ 0 ∷ 0 ∷ []) blank som-IsShowable not_run cycle_run

abbrev no_file : String → Unit {0} → Parsed Json × Unit {0}
no_file path w = (not_open, w)

ground_not_open_example :
    (station_main trig qt missing_queues json_library no_file 5 blank tt ≡ none)
    × (pc_main missing_queues json_library no_file 5 1 tt ≡ exited)
ground_not_open_example =
    ground_not_open json_library json_library-IsJson trig qt missing_queues no_file 5 1 blank tt tt
      tt refl refl

emitted :
    emit_rounds two_queues 2 opened_receiver world_after ≡ some (waiting ∷ fresh ∷ [], ([], [], []))
unfolding emit_rounds rc_plane.Io.Telemetry.Print.print_onboard rc_plane.Io.Telemetry.Message.at
emitted = refl

emit_rounds-handle_messages_example :
    All
      (λ (m : Messages Fixed).
        (s : ControlStation Text Fixed) → handle_messages trig qt m.0 m.1 m.2 s ≢ none)
      (waiting ∷ fresh ∷ [])
emit_rounds-handle_messages_example =
    emit_rounds-handle_messages two_queues trig qt 2 opened_receiver (waiting ∷ fresh ∷ [])
      world_after ([], [], []) emitted

-- A message whose enumeration holds no enumerator is not received, but its exception leaves.
unnamed :
    receive_onboard_message two_queues opened_receiver onboard_message
      ([], [], record onboard_message { gps_fix = 4 } ∷ [])
    ≡ none
unfolding receive_onboard_message rc_plane.Io.Telemetry.Print.print_onboard
    rc_plane.Io.Telemetry.Message.at
unnamed = refl

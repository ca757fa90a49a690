-- ===== src/Tests/Interleaved.antt =====
-- The two processes over queues of at most two messages.
use rc_plane.Base.{
  ℕ, ◌+◌, ◌≤◌, ◌≡◌, refl, false, Bool, Option, some, List, [], ◌∷◌, ◌++◌, ◌>>=◌, arith,
}
use rc_plane.Double.Fixed.{Fixed, fixed_double}
use rc_plane.Io.Telemetry.Message.{debug_message, attitude_message, onboard_message}
use rc_plane.Io.Telemetry.Transmitter.{
  send_debug_message, send_attitude_message, send_onboard_message,
}
use rc_plane.Io.Telemetry.Receiver.{receive_debug_message}
use rc_plane.Io.Telemetry.Backlog.{Messages}
use rc_plane.Station.Thread.{receive_messages}
use rc_plane.Station.Interleaved.{
  idle, has_debug, Pipeline, send_debug, send_attitude, send_onboard, receive_debug, Reach, start,
  later, ThreadCalls, controller_step, thread_step,
}
use rc_plane.Station.Interleaved.Ordered.{waiting_in, onboards_of}
use rc_plane.Station.Interleaved.Order.{emitted_first}
use rc_plane.Station.Interleaved.Progress.{thread_catches_up}
use rc_plane.Tests.Telemetry.{two_queue, two_queue-IsQueue, opened_transmitter, one_read, two_reads}
use rc_plane.Tests.Station.{
  World, two_queues, opened_receiver, opened_transmitter-IsSending, opened_receiver-IsReceiving,
}

abbrev Reached : Pipeline World Fixed → Type 0
Reached s =
    Reach two_queues
      (waiting_in two_queue two_queue two_queue two_queue-IsQueue two_queue-IsQueue
        two_queue-IsQueue tt tt tt)
      opened_transmitter opened_receiver ([], [], []) s

abbrev message : Messages Fixed
message = (one_read, attitude_message, onboard_message)

-- The thread takes the debug message before the other two are sent.
abbrev overtaken : Pipeline World Fixed
overtaken = record {
  world = ([], attitude_message ∷ [], onboard_message ∷ []);
  publisher = idle;
  collector = has_debug one_read;
  published = message ∷ [];
  emitted = [];
}

overtaken-Reached : Reached overtaken
unfolding two_queue-IsQueue send_debug_message send_attitude_message send_onboard_message
    receive_debug_message
overtaken-Reached =
    later
      (later
        (later
          (later start (controller_step (send_debug message (one_read ∷ [], [], []) refl refl)))
          (thread_step (receive_debug one_read ([], [], []) refl (λ e. cc) refl)))
        (controller_step (send_attitude message ([], attitude_message ∷ [], []) refl refl)))
      (controller_step
        (send_onboard message ([], attitude_message ∷ [], onboard_message ∷ []) refl refl))

emitted_first_example :
    (rest : List (Messages Fixed)) × ([] ++ rest ≡ message ∷ [])
    × (onboard_message ∷ [] ≡ onboards_of rest)
unfolding two_queue-IsQueue
emitted_first_example =
    emitted_first two_queue two_queue two_queue two_queue-IsQueue two_queue-IsQueue
      two_queue-IsQueue (λ _ w. w) tt tt tt opened_transmitter opened_receiver
      opened_transmitter-IsSending opened_receiver-IsReceiving ([], [], []) overtaken refl refl refl
      overtaken-Reached

thread_catches_up_example :
    (k : ℕ) × (s' : Pipeline World Fixed) × ThreadCalls two_queues
      (waiting_in two_queue two_queue two_queue two_queue-IsQueue two_queue-IsQueue
        two_queue-IsQueue tt tt tt)
      opened_transmitter
      opened_receiver
      k
      overtaken
      s'
    × (k + 1 ≤ 5)
    × (s'.emitted ≡ message ∷ [])
    × (s'.published ≡ message ∷ [])
    × (s'.publisher ≡ idle)
unfolding two_queue-IsQueue
thread_catches_up_example =
    thread_catches_up two_queue two_queue two_queue two_queue-IsQueue two_queue-IsQueue
      two_queue-IsQueue (λ _ w. w) tt tt tt opened_transmitter opened_receiver
      opened_transmitter-IsSending opened_receiver-IsReceiving ([], [], []) overtaken refl refl refl
      overtaken-Reached ((omega arith, omega arith), tt)

-- A full queue: the debug message is refused, the thread then makes room, and the other two are
-- accepted.
abbrev refused_one : World → Option (Bool × World)
refused_one w = do
  (sent, w₁) ← send_debug_message two_queues opened_transmitter two_reads w
  (_, w₂) ← receive_messages two_queues opened_receiver w₁
  (_, w₃) ← send_attitude_message two_queues opened_transmitter attitude_message w₂
  (_, w₄) ←
      send_onboard_message two_queues opened_transmitter (record onboard_message { throttle = 2 })
        w₃
  some (sent, w₄)

-- From then on the messages that are received together are of different cycles.
shifted :
    refused_one (
      debug_message ∷ one_read ∷ [],
      attitude_message ∷ attitude_message ∷ [],
      onboard_message ∷ record onboard_message { throttle = 1 } ∷ [],
    )
    ≡ some (
      false,
      (
        one_read ∷ [],
        attitude_message ∷ attitude_message ∷ [],
        record onboard_message { throttle = 1 } ∷ record onboard_message { throttle = 2 } ∷ [],
      ),
    )
unfolding send_debug_message send_attitude_message send_onboard_message receive_messages
    rc_plane.Io.Telemetry.Print.print_onboard rc_plane.Io.Telemetry.Message.at
shifted = refl

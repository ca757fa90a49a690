-- ===== src/Tests/Transport.antt =====
-- The interfaces of the telemetry over queues of at most two messages.
use rc_plane.Base.{◌≡◌, refl, some, List, [], ◌∷◌}
use rc_plane.Double.Fixed.{Fixed, fixed_double}
use rc_plane.Io.Telemetry.Message.{debug_message, attitude_message}
use rc_plane.Io.Telemetry.Transmitter.{send_debug_message, send_attitude_message}
use rc_plane.Io.Telemetry.Transport.{InFlight, IsTransport}
use rc_plane.Io.Telemetry.Transport.Mixed.{
  Message, debug, attitude, sort_out, send_mixed, receive_mixed,
}
use rc_plane.Io.Telemetry.Transport.OverQueues.{
  mq_transmitter, mq_receiver, waiting, mq-IsTransport, mq_sends_then_receives,
}
use rc_plane.Tests.Telemetry.{two_queue, two_queue-IsQueue, opened_transmitter, one_read, two_reads}
use rc_plane.Tests.Station.{
  World, two_queues, opened_receiver, opened_transmitter-IsSending, opened_receiver-IsReceiving,
}

abbrev in_flight : World → InFlight Fixed
in_flight = waiting two_queue two_queue two_queue-IsQueue two_queue-IsQueue tt tt

mq-IsTransport_example :
    IsTransport
      (mq_transmitter two_queues)
      (mq_receiver two_queues)
      in_flight
      opened_transmitter
      opened_receiver
mq-IsTransport_example =
    mq-IsTransport two_queue two_queue two_queue two_queue-IsQueue two_queue-IsQueue (λ _ w. w) tt
      tt tt opened_transmitter opened_receiver opened_transmitter-IsSending
      opened_receiver-IsReceiving

-- The third debug message does not fit.
abbrev mixed : List (Message Fixed)
mixed = debug debug_message ∷ debug one_read ∷ attitude attitude_message ∷ debug two_reads ∷ []

abbrev accepted : List (Message Fixed)
accepted = debug debug_message ∷ debug one_read ∷ attitude attitude_message ∷ []

abbrev full : World
full = (debug_message ∷ one_read ∷ [], attitude_message ∷ [], [])

mixed_sent :
    send_mixed (mq_transmitter two_queues) opened_transmitter mixed ([], [], [])
    ≡ some (accepted, full)
unfolding send_mixed send_debug_message send_attitude_message
mixed_sent = refl

-- The attitude is asked for first.
abbrev wanted : List (Message Fixed)
wanted = attitude attitude_message ∷ debug debug_message ∷ debug one_read ∷ []

mq_sends_then_receives_example :
    (w₂ : World) × (receive_mixed (mq_receiver two_queues) opened_receiver wanted full
      ≡ some (wanted, w₂))
    × (w₂.0 ≡ [])
    × (w₂.1 ≡ [])
unfolding two_queue-IsQueue sort_out
mq_sends_then_receives_example =
    mq_sends_then_receives two_queue two_queue two_queue two_queue-IsQueue two_queue-IsQueue
      (λ _ w. w) tt tt tt opened_transmitter opened_receiver opened_transmitter-IsSending
      opened_receiver-IsReceiving mixed accepted wanted wanted ([], [], []) full refl refl
      mixed_sent refl refl

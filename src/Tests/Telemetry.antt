-- ===== src/Tests/Telemetry.antt =====
-- The transport over queues of at most two messages, which a world of three lists holds.
use rc_plane.Base.{
  ◌≡◌, ◌≢◌, refl, true, Option, none, some, List, [], ◌∷◌, ◌++◌, length, leb, if◌then◌else◌, arith,
}
use rc_plane.Double.Fixed.{Fixed, fixed_double}
use rc_plane.Io.Telemetry.Message.{DebugMessage, debug_message}
use rc_plane.Io.Telemetry.Queue.{MessageQueue, Queues, Sending, accepted, refused, IsQueue}
use rc_plane.Io.Telemetry.Transmitter
use rc_plane.Io.Telemetry.Transmitter.{
  TelemetryTransmitterMq, send_debug_message, send_attitude_message, send_onboard_message,
}
use rc_plane.Io.Telemetry.Receiver.{TelemetryReceiverMq}

-- One queue, whose handle is the unit, and whose world is its messages.
abbrev try_send_two : {M : Type 0} → M → List M → Sending × List M
try_send_two m w = if leb (length w) 1 then (accepted, w ++ (m ∷ [])) else (refused, w)

abbrev receive_first : {M : Type 0} → List M → Option M × List M
receive_first [] = (none, [])
receive_first (m ∷ w) = (some m, w)

abbrev pub two_queue : {M : Type 0} → MessageQueue (List M) Unit M
two_queue = record {
  open_or_create = λ _ _ w. (some tt, w);
  open_only = λ _ w. (some tt, w);
  try_send = λ _ m w. try_send_two m w;
  receive = λ _ w. receive_first w;
}

pub two_queue_accepted :
    {M : Type 0} (m : M) (w w' : List M) → try_send_two m w ≡ (accepted, w') → w' ≡ w ++ (m ∷ [])
two_queue_accepted m w w' e = ground arith

pub two_queue_failed :
    {M : Type 0} (m : M) (w w' : List M) (s : Sending)
    → try_send_two m w ≡ (s, w')
    → s ≢ accepted
    → w' ≡ w
two_queue_failed m w w' s e n = ground arith

pub two_queue_receive :
    {M : Type 0} (m : M) (rest w : List M)
    → w ≡ m ∷ rest
    → (w' : List M) × (receive_first w ≡ (some m, w')) × (w' ≡ rest)
two_queue_receive m rest [] e = cc
two_queue_receive m rest (m' ∷ w) e = (w, cc, cc)

unfoldable pub two_queue-IsQueue : {M : Type 0} → IsQueue {M = M} two_queue
two_queue-IsQueue = record {
  contents = λ _ w. w;
  contents-accepted = λ _ m w w' e. two_queue_accepted m w w' e;
  contents-failed = λ _ m w w' s e n. two_queue_failed m w w' s e n;
  receive-contents = λ _ m rest w e. two_queue_receive m rest w e;
}

abbrev pub one_read : DebugMessage
one_read = record debug_message { serial_reads = 1 }

abbrev pub two_reads : DebugMessage
two_reads = record debug_message { serial_reads = 2 }

-- Queues that forget their messages, in a world without state.
abbrev open_queue : {M : Type 0} → MessageQueue Unit Unit M
open_queue = record {
  open_or_create = λ _ _ w. (some tt, w);
  open_only = λ _ w. (some tt, w);
  try_send = λ _ _ w. (accepted, w);
  receive = λ _ w. (none, w);
}

abbrev pub open_queues : Queues Unit Unit Fixed
open_queues = record {
  debug = open_queue;
  attitude = open_queue;
  onboard = open_queue;
  remove = λ _ w. w;
}

abbrev closed_transmitter : TelemetryTransmitterMq Unit
closed_transmitter = record {
  debug_message_queue_name = "debug";
  attitude_message_queue_name = "attitude";
  onboard_message_queue_name = "onboard";
  message_queue_size = 100;
  debug_message_queue = none;
  attitude_message_queue = none;
  onboard_message_queue = none;
}

abbrev pub opened_transmitter : TelemetryTransmitterMq Unit
opened_transmitter = record closed_transmitter {
  debug_message_queue = some tt;
  attitude_message_queue = some tt;
  onboard_message_queue = some tt;
}

transmitter_opens :
    Transmitter.init open_queues closed_transmitter tt ≡ (true, opened_transmitter, tt)
unfolding Transmitter.init
transmitter_opens = refl

abbrev pub closed_receiver : TelemetryReceiverMq Unit
closed_receiver = record {
  debug_message_queue_name = "debug";
  attitude_message_queue_name = "attitude";
  onboard_message_queue_name = "onboard";
  message_queue_size = 100;
  debug_message_queue = none;
  attitude_message_queue = none;
  onboard_message_queue = none;
}

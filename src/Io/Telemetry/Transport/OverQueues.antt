-- ===== src/Io/Telemetry/Transport/OverQueues.antt =====
-- The classes over message queues as implementations of the two interfaces.
use rc_plane.Base.{
  ◌≡◌, refl, Bool, arith, carry_pair, true, false, Option, some, List, [], ap, inl, inr, String,
}
use rc_plane.Io.Telemetry.Message.{DebugMessage, AttitudeMessage, OnboardStateMessage}
use rc_plane.Io.Telemetry.Queue.{MessageQueue, Queues, IsQueue}
use rc_plane.Io.Telemetry.Transmitter
use rc_plane.Io.Telemetry.Transmitter.{
  TelemetryTransmitterMq, is_accepted, send, send_debug_message, send_attitude_message,
}
use rc_plane.Io.Telemetry.Receiver
use rc_plane.Io.Telemetry.Receiver.{
  TelemetryReceiverMq, receive, log_received, receive_debug_message, receive_attitude_message,
}
use rc_plane.Io.Telemetry.Backlog.{part_queue, apart_queues, IsSending, IsReceiving}
use rc_plane.Io.Telemetry.Delivery.{send_returns}
use rc_plane.Io.Telemetry.Transport.Mixed.{
  Message, sort_out, send_mixed, receive_mixed, kind, send_then_receive_mixed,
}
use mathlib.Core.List.{map}
use rc_plane.Io.Telemetry.Transport.{
  ITelemetryTransmitter, ITelemetryReceiver, IsTransmitter, IsReceiver, InFlight, IsTransport,
}

module _ {W Q F : Type 0} (qs : Queues W Q F) where
  abbrev pub mq_transmitter : ITelemetryTransmitter (TelemetryTransmitterMq Q) W F
  mq_transmitter = record {
    init = Transmitter.init qs;
    send_debug_message = send_debug_message qs;
    send_attitude_message = send_attitude_message qs;
  }

  abbrev pub mq_receiver : ITelemetryReceiver (TelemetryReceiverMq Q) W F
  mq_receiver = record {
    init = Receiver.init qs;
    receive_debug_message = receive_debug_message qs;
    receive_attitude_message = receive_attitude_message qs;
  }

  -- The transmitter over message queues: an `init` that returned true leaves both sends defined.
  mq_transmitter-IsTransmitter : IsTransmitter mq_transmitter
  unfolding Transmitter.init send_debug_message send_attitude_message send
  mq_transmitter-IsTransmitter = record {
    send_debug_message-init = λ t t' w w' w'' m e. ground arith;
    send_attitude_message-init = λ t t' w w' w'' m e. ground arith;
  }

  -- The receiver over message queues: an `init` that returned true leaves both receives defined.
  mq_receiver-IsReceiver : IsReceiver mq_receiver
  unfolding Receiver.init receive_debug_message receive_attitude_message receive log_received
  mq_receiver-IsReceiver = record {
    receive_debug_message-init = λ t t' w w' w'' m e. ground arith;
    receive_attitude_message-init = λ t t' w w' w'' m e. ground arith;
  }

pub send-part_queue :
    {W V Q M : Type 0} (part : W → V) (put : V → W → W) (queue : MessageQueue V Q M) (q : Q) (m : M)
    (w : W) (sent : Bool) (v : V)
    → send queue (some q) m (part w) ≡ some (sent, v)
    → send (part_queue part put queue) (some q) m w ≡ some (sent, put v w)
unfolding send
send-part_queue {W = W} part put queue q m w sent v e =
    let (s, v') = queue.try_send q m (part w) in
    carry_pair
      (λ b u. ◌≡◌ {A = Option (Bool × W)} (some (is_accepted s, put v' w)) (some (b, put u w)))
      (is_accepted s) sent v' v e refl

-- What waits in the queues with these two handles.
abbrev pub waiting :
    {D A O Q F : Type 0} (debug : MessageQueue D Q DebugMessage)
    (attitude : MessageQueue A Q (AttitudeMessage F)) (laws₁ : IsQueue debug)
    (laws₂ : IsQueue attitude) (q₁ q₂ : Q)
    → D × A × O
    → InFlight F
waiting debug attitude laws₁ laws₂ q₁ q₂ (d, a, o) = record {
  debugs = laws₁.contents q₁ d;
  attitudes = laws₂.contents q₂ a;
}

module _ {D A O Q F : Type 0} (debug : MessageQueue D Q DebugMessage)
    (attitude : MessageQueue A Q (AttitudeMessage F))
    (onboard : MessageQueue O Q OnboardStateMessage) (laws₁ : IsQueue debug)
    (laws₂ : IsQueue attitude) (remove : String → D × A × O → D × A × O) (q₁ q₂ q₃ : Q)
    (t : TelemetryTransmitterMq Q) (r : TelemetryReceiverMq Q) (sending : IsSending t q₁ q₂ q₃)
    (receiving : IsReceiving r q₁ q₂ q₃) where
  -- The transmitter and the receiver over message queues that meet their laws, once both have opened
  -- the same queues, keep the contract of the two interfaces.
  pub mq-IsTransport :
      IsTransport
        (mq_transmitter (apart_queues debug attitude onboard remove))
        (mq_receiver (apart_queues debug attitude onboard remove))
        (waiting debug attitude laws₁ laws₂ q₁ q₂)
        t
        r
  unfolding send_debug_message send_attitude_message receive_debug_message receive_attitude_message
      receive log_received
  mq-IsTransport = record {
    send_debug_message-cases = λ m (d, a, o).
        let (d', cases) = send_returns debug laws₁ q₁ m d in
        let sends =
          send-part_queue (λ (w : D × A × O). w.0) (λ v w. (v, w.1, w.2)) debug q₁ m (d, a, o) in
        (
          (d', a, o),
          elim cases [
            | inl (h, c) ↦ inl (rw sending.debug_sends (sends true d' h), rw c refl)
            | inr (h, c) ↦ inr (rw sending.debug_sends (sends false d' h), rw c refl)
          ],
        );
    send_attitude_message-cases = λ m (d, a, o).
        let (a', cases) = send_returns attitude laws₂ q₂ m a in
        let sends =
          send-part_queue (λ (w : D × A × O). w.1) (λ v w. (w.0, v, w.2)) attitude q₂ m (d, a, o) in
        (
          (d, a', o),
          elim cases [
            | inl (h, c) ↦ inl (rw sending.attitude_sends (sends true a' h), rw c refl)
            | inr (h, c) ↦ inr (rw sending.attitude_sends (sends false a' h), rw c refl)
          ],
        );
    receive_debug_message-first = λ old m rest (d, a, o) e.
        let (d', h, c) = laws₁.receive-contents q₁ m rest d e in
        ((d', a, o), rw (receiving.debug_receives, h) refl, rw c refl);
    receive_attitude_message-first = λ old m rest (d, a, o) e.
        let (a', h, c) = laws₂.receive-contents q₂ m rest a e in
        ((d, a', o), rw (receiving.attitude_receives, h) refl, rw c refl);
  }

  -- Over message queues that meet their laws and that the transmitter and the receiver have opened: if
  -- debug and attitude messages were sent, in any order and while both queues were empty, then calls
  -- that receive in any order of the two kinds, as many of each kind as messages of it were accepted,
  -- return, get the accepted messages of each kind in their order, and leave both queues empty.
  pub mq_sends_then_receives :
      (ms sent olds wanted : List (Message F)) (w w₁ : D × A × O)
      → laws₁.contents q₁ w.0 ≡ []
      → laws₂.contents q₂ w.1 ≡ []
      → send_mixed (mq_transmitter (apart_queues debug attitude onboard remove)) t ms w
        ≡ some (sent, w₁)
      → sort_out wanted ≡ sort_out sent
      → map kind olds ≡ map kind wanted
      → (w₂ : D × A × O) × (receive_mixed
            (mq_receiver (apart_queues debug attitude onboard remove))
            r
            olds
            w₁
          ≡ some (wanted, w₂))
        × (laws₁.contents q₁ w₂.0 ≡ [])
        × (laws₂.contents q₂ w₂.1 ≡ [])
  unfolding sort_out
  mq_sends_then_receives ms sent olds wanted w w₁ e₁ e₂ sends same kinds =
      let (w₂, received, left) =
        send_then_receive_mixed (mq_transmitter (apart_queues debug attitude onboard remove))
          (mq_receiver (apart_queues debug attitude onboard remove))
          (waiting debug attitude laws₁ laws₂ q₁ q₂) t r mq-IsTransport ms sent olds wanted w w₁
          (rw (e₁, e₂) refl) sends same kinds in
      (
        w₂,
        received,
        ap (λ (f : InFlight F). f.debugs) left,
        ap (λ (f : InFlight F). f.attitudes) left,
      )

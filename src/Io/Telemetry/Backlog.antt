-- ===== src/Io/Telemetry/Backlog.antt =====
-- Three queues apart from each other, and the messages that wait in them.
use rc_plane.Base.{◌≡◌, some, List, String, All}
use rc_plane.Io.Telemetry.Print.{IsShowable}
use mathlib.Core.List.{map}
use rc_plane.Io.Telemetry.Message.{DebugMessage, AttitudeMessage, OnboardStateMessage}
use rc_plane.Io.Telemetry.Queue.{MessageQueue, Queues, IsQueue}
use rc_plane.Io.Telemetry.Transmitter.{TelemetryTransmitterMq}
use rc_plane.Io.Telemetry.Receiver.{TelemetryReceiverMq}

-- A queue in the part of a world that `put` and `take` reach.
abbrev pub part_queue :
    {W V Q M : Type 0} → (W → V) → (V → W → W) → MessageQueue V Q M → MessageQueue W Q M
part_queue part put queue = record {
  open_or_create = λ name n w. let (q, v) = queue.open_or_create name n (part w) in (q, put v w);
  open_only = λ name w. let (q, v) = queue.open_only name (part w) in (q, put v w);
  try_send = λ q m w. let (sending, v) = queue.try_send q m (part w) in (sending, put v w);
  receive = λ q w. let (m, v) = queue.receive q (part w) in (m, put v w);
}

-- Queues with three different names: each has its own part of the world.
abbrev pub apart_queues :
    {D A O Q F : Type 0}
    → MessageQueue D Q DebugMessage
    → MessageQueue A Q (AttitudeMessage F)
    → MessageQueue O Q OnboardStateMessage
    → (String → D × A × O → D × A × O)
    → Queues (D × A × O) Q F
apart_queues debug attitude onboard remove = record {
  debug = part_queue (λ w. w.0) (λ v w. (v, w.1, w.2)) debug;
  attitude = part_queue (λ w. w.1) (λ v w. (w.0, v, w.2)) attitude;
  onboard = part_queue (λ w. w.2) (λ v w. (w.0, w.1, v)) onboard;
  remove = remove;
}

-- What is published and received together.
abbrev pub Messages : Type 0 → Type 0
Messages F = DebugMessage × AttitudeMessage F × OnboardStateMessage

-- The transmitter and the receiver have opened the three queues.
pub record IsSending {Q : Type 0} (t : TelemetryTransmitterMq Q) (q₁ q₂ q₃ : Q) : Type 0 where
  pub debug_sends : t.debug_message_queue ≡ some q₁
  pub attitude_sends : t.attitude_message_queue ≡ some q₂
  pub onboard_sends : t.onboard_message_queue ≡ some q₃

pub record IsReceiving {Q : Type 0} (t : TelemetryReceiverMq Q) (q₁ q₂ q₃ : Q) : Type 0 where
  pub debug_receives : t.debug_message_queue ≡ some q₁
  pub attitude_receives : t.attitude_message_queue ≡ some q₂
  pub onboard_receives : t.onboard_message_queue ≡ some q₃

module _ {D A O Q F : Type 0} (debug : MessageQueue D Q DebugMessage)
    (attitude : MessageQueue A Q (AttitudeMessage F))
    (onboard : MessageQueue O Q OnboardStateMessage) (laws₁ : IsQueue debug)
    (laws₂ : IsQueue attitude) (laws₃ : IsQueue onboard) (q₁ q₂ q₃ : Q) where
  -- The messages in the three queues belong together, and each can be shown.
  abbrev pub IsWaiting : List (Messages F) → D × A × O → Type 0
  IsWaiting ms (d, a, o) =
      (laws₁.contents q₁ d ≡ map (λ (m : Messages F). m.0) ms)
      × (laws₂.contents q₂ a ≡ map (λ (m : Messages F). m.1) ms)
      × (laws₃.contents q₃ o ≡ map (λ (m : Messages F). m.2) ms)
      × All (λ (m : Messages F). IsShowable m.2) ms

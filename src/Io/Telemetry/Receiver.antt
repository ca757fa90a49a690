-- ===== src/Io/Telemetry/Receiver.antt =====
-- impl/src/io/telemetry/TelemetryReceiverMQ.cpp and its header.
use rc_plane.Base.{ℕ, Bool, true, false, Option, none, some, List, String, ◌>>=◌}
use rc_plane.Base.Stream.{Piece}
use rc_plane.Io.Telemetry.Message.{DebugMessage, AttitudeMessage, OnboardStateMessage}
use rc_plane.Io.Telemetry.Print.{print_debug, print_attitude, print_onboard}
use rc_plane.Io.Telemetry.Queue.{MessageQueue, Queues}

pub record TelemetryReceiverMq (Q : Type 0) : Type 0 where
  pub debug_message_queue_name : String
  pub attitude_message_queue_name : String
  pub onboard_message_queue_name : String
  pub message_queue_size : ℕ
  pub debug_message_queue : Option Q
  pub attitude_message_queue : Option Q
  pub onboard_message_queue : Option Q

abbrev delivered : {W M : Type 0} → Option M → M → W → Option (Bool × M × W)
delivered none message w = some (false, message, w)
delivered (some m) message w = some (true, m, w)

-- `receive` into the message of the caller, which an exception leaves as it was. A null pointer is
-- undefined, here `none`.
unfoldable pub receive :
    {W Q M : Type 0} → MessageQueue W Q M → Option Q → M → W → Option (Bool × M × W)
receive queue none message w = none
receive queue (some q) message w =
    let (result, w') = queue.receive q w in delivered result message w'

-- The log of a message that came, whose text is not kept. An exception of its leaves the operation,
-- which catches those of the queue only.
unfoldable pub log_received :
    {W M F : Type 0} → (M → Option (List (Piece F))) → Bool × M × W → Option (Bool × M × W)
log_received print (false, message, w) = some (false, message, w)
log_received print (true, message, w) = print message >>= λ _. some (true, message, w)

module _ {W Q F : Type 0} (qs : Queues W Q F) where
  unfoldable pub init : TelemetryReceiverMq Q → W → Bool × TelemetryReceiverMq Q × W
  init t w =
      let (debug, w₁) = qs.debug.open_only t.debug_message_queue_name w in
      elim debug [
        | none ↦ (false, t, w₁)
        | some q₁ ↦
            let t₁ : TelemetryReceiverMq Q = record t { debug_message_queue = some q₁ } in
            let (attitude, w₂) = qs.attitude.open_only t.attitude_message_queue_name w₁ in
            elim attitude [
              | none ↦ (false, t₁, w₂)
              | some q₂ ↦
                  let t₂ : TelemetryReceiverMq Q = record t₁ { attitude_message_queue = some q₂ } in
                  let (onboard, w₃) = qs.onboard.open_only t.onboard_message_queue_name w₂ in
                  elim onboard [
                    | none ↦ (false, t₂, w₃)
                    | some q₃ ↦ (true, record t₂ { onboard_message_queue = some q₃ }, w₃)
                  ]
            ]
      ]

  unfoldable pub receive_debug_message :
      TelemetryReceiverMq Q → DebugMessage → W → Option (Bool × DebugMessage × W)
  unfolding receive log_received
  receive_debug_message t message w = do
    received ← receive qs.debug t.debug_message_queue message w
    log_received (λ m. some (print_debug {F = F} m)) received

  unfoldable pub receive_attitude_message :
      TelemetryReceiverMq Q → AttitudeMessage F → W → Option (Bool × AttitudeMessage F × W)
  unfolding receive log_received
  receive_attitude_message t message w = do
    received ← receive qs.attitude t.attitude_message_queue message w
    log_received (λ m. some (print_attitude m)) received

  unfoldable pub receive_onboard_message :
      TelemetryReceiverMq Q → OnboardStateMessage → W → Option (Bool × OnboardStateMessage × W)
  unfolding receive log_received
  receive_onboard_message t message w = do
    received ← receive qs.onboard t.onboard_message_queue message w
    log_received (print_onboard {F = F}) received

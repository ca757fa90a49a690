-- ===== src/Io/Telemetry/Transmitter.antt =====
-- impl/src/io/telemetry/TelemetryTransmitterMQ.cpp and its header.
use rc_plane.Base.{ℕ, Bool, true, false, Option, none, some, String}
use rc_plane.Io.Telemetry.Message.{DebugMessage, AttitudeMessage, OnboardStateMessage}
use rc_plane.Io.Telemetry.Queue.{MessageQueue, Queues, Sending, accepted, refused, thrown}

-- A queue is a `unique_ptr`, null until `init` has opened it.
pub record TelemetryTransmitterMq (Q : Type 0) : Type 0 where
  pub debug_message_queue_name : String
  pub attitude_message_queue_name : String
  pub onboard_message_queue_name : String
  pub message_queue_size : ℕ
  pub debug_message_queue : Option Q
  pub attitude_message_queue : Option Q
  pub onboard_message_queue : Option Q

abbrev pub is_accepted : Sending → Bool
is_accepted accepted = true
is_accepted refused = false
is_accepted thrown = false

-- `try_send` through the pointer: a null pointer is undefined, here `none`.
unfoldable pub send : {W Q M : Type 0} → MessageQueue W Q M → Option Q → M → W → Option (Bool × W)
send queue none message w = none
send queue (some q) message w =
    let (sending, w') = queue.try_send q message w in some (is_accepted sending, w')

module _ {W Q F : Type 0} (qs : Queues W Q F) where
  -- The queues are opened in turn; the exception of any of them ends the sequence.
  unfoldable pub init : TelemetryTransmitterMq Q → W → Bool × TelemetryTransmitterMq Q × W
  init t w =
      let (debug, w₁) = qs.debug.open_or_create t.debug_message_queue_name t.message_queue_size w in
      elim debug [
        | none ↦ (false, t, w₁)
        | some q₁ ↦
            let t₁ : TelemetryTransmitterMq Q = record t { debug_message_queue = some q₁ } in
            let (attitude, w₂) =
              qs.attitude.open_or_create t.attitude_message_queue_name t.message_queue_size w₁ in
            elim attitude [
              | none ↦ (false, t₁, w₂)
              | some q₂ ↦
                  let t₂ : TelemetryTransmitterMq Q = record t₁ {
                    attitude_message_queue = some q₂;
                  } in
                  let (onboard, w₃) =
                    qs.onboard.open_or_create t.onboard_message_queue_name t.message_queue_size
                      w₂ in
                  elim onboard [
                    | none ↦ (false, t₂, w₃)
                    | some q₃ ↦ (true, record t₂ { onboard_message_queue = some q₃ }, w₃)
                  ]
            ]
      ]

  -- The destructor.
  unfoldable pub destroy : TelemetryTransmitterMq Q → W → W
  destroy t w =
      qs.remove t.onboard_message_queue_name
        (qs.remove t.attitude_message_queue_name (qs.remove t.debug_message_queue_name w))

  unfoldable pub send_debug_message :
      TelemetryTransmitterMq Q → DebugMessage → W → Option (Bool × W)
  unfolding send
  send_debug_message t message w = send qs.debug t.debug_message_queue message w

  unfoldable pub send_attitude_message :
      TelemetryTransmitterMq Q → AttitudeMessage F → W → Option (Bool × W)
  unfolding send
  send_attitude_message t message w = send qs.attitude t.attitude_message_queue message w

  unfoldable pub send_onboard_message :
      TelemetryTransmitterMq Q → OnboardStateMessage → W → Option (Bool × W)
  unfolding send
  send_onboard_message t message w = send qs.onboard t.onboard_message_queue message w

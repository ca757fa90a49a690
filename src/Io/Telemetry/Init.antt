-- ===== src/Io/Telemetry/Init.antt =====
-- impl/src/io/telemetry: what `init` of the transmitter and of the receiver leaves for the later calls.
use rc_plane.Base.{◌≡◌, ◌≢◌, Bool, true, none, arith, ◌↔◌}
use rc_plane.Io.Telemetry.Message.{DebugMessage, AttitudeMessage, OnboardStateMessage}
use rc_plane.Io.Telemetry.Queue.{Queues}
use rc_plane.Io.Telemetry.Transmitter
use rc_plane.Io.Telemetry.Transmitter.{
  TelemetryTransmitterMq, send, send_debug_message, send_attitude_message, send_onboard_message,
}
use rc_plane.Io.Telemetry.Receiver
use rc_plane.Io.Telemetry.Receiver.{
  TelemetryReceiverMq, receive, log_received, receive_debug_message, receive_attitude_message,
}

module _ {W Q F : Type 0} (qs : Queues W Q F) where
  -- On a transmitter whose queues are all closed, `init` returns true exactly if it leaves all three
  -- open.
  pub init_iff_open :
      (t t' : TelemetryTransmitterMq Q) (w w' : W) (ok : Bool)
      → t.debug_message_queue ≡ none
      → t.attitude_message_queue ≡ none
      → t.onboard_message_queue ≡ none
      → Transmitter.init qs t w ≡ (ok, t', w')
      → (ok ≡ true) ↔ (
          (t'.debug_message_queue ≢ none)
          × (t'.attitude_message_queue ≢ none)
          × (t'.onboard_message_queue ≢ none))
  unfolding Transmitter.init
  init_iff_open t t' w w' ok e₁ e₂ e₃ e = ground arith

  pub init_opens :
      (t t' : TelemetryTransmitterMq Q) (w w' : W)
      → Transmitter.init qs t w ≡ (true, t', w')
      → (t'.debug_message_queue ≢ none)
        × (t'.attitude_message_queue ≢ none)
        × (t'.onboard_message_queue ≢ none)
  unfolding Transmitter.init
  init_opens t t' w w' e = ground arith

  -- After an `init` of the transmitter that returned true, every call of a send operation returns.
  pub sends_defined :
      (t t' : TelemetryTransmitterMq Q) (w w' w'' : W) (debug : DebugMessage)
      (attitude : AttitudeMessage F) (onboard : OnboardStateMessage)
      → Transmitter.init qs t w ≡ (true, t', w')
      → (send_debug_message qs t' debug w'' ≢ none)
        × (send_attitude_message qs t' attitude w'' ≢ none)
        × (send_onboard_message qs t' onboard w'' ≢ none)
  unfolding Transmitter.init send_debug_message send_attitude_message send_onboard_message send
  sends_defined t t' w w' w'' debug attitude onboard e = ground arith

  -- After an `init` of the receiver that returned true, every call that receives a debug or an
  -- attitude message returns.
  pub receives_defined :
      (t t' : TelemetryReceiverMq Q) (w w' w'' : W) (debug : DebugMessage)
      (attitude : AttitudeMessage F)
      → Receiver.init qs t w ≡ (true, t', w')
      → (receive_debug_message qs t' debug w'' ≢ none)
        × (receive_attitude_message qs t' attitude w'' ≢ none)
  unfolding Receiver.init receive_debug_message receive_attitude_message receive log_received
  receives_defined t t' w w' w'' debug attitude e = ground arith

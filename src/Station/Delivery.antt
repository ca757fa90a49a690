-- ===== src/Station/Delivery.antt =====
-- The messages on their way from the controller to the window.
use rc_plane.Io.Telemetry.Print.{IsShowable, print_onboard-IsShowable}
use rc_plane.Base.{
  Option-some, All-append, ◌≡◌, refl, sym, ◌∙◌, some, List, [], ◌∷◌, ◌++◌, String, length,
}
use mathlib.Core.List.{map-append}
use rc_plane.Double.{Double}
use rc_plane.Io.Telemetry.Message.{DebugMessage, AttitudeMessage, OnboardStateMessage}
use rc_plane.Io.Telemetry.Queue.{MessageQueue, Queues, IsQueue, accepted}
use rc_plane.Io.Telemetry.Transmitter.{
  send, send_debug_message, send_attitude_message, send_onboard_message,
}
use rc_plane.Io.Telemetry.Receiver.{
  TelemetryReceiverMq, receive, receive_debug_message, receive_attitude_message,
  receive_onboard_message, log_received,
}
use rc_plane.Io.Telemetry.Backlog.{Messages, apart_queues, IsSending, IsReceiving, IsWaiting}
use rc_plane.Som.Controller.{SomController, send_telemetry}
use rc_plane.Station.Thread.{receive_messages, emit_rounds}

-- What `send_telemetry` publishes.
abbrev pub published : {Q F : Type 0} → SomController Q F → Messages F
published c = (c.debug_message, c.attitude_message, c.onboard_message)

module _ {D A O Q F : Type 0} ⦃d : Double F⦄ (debug : MessageQueue D Q DebugMessage)
    (attitude : MessageQueue A Q (AttitudeMessage F))
    (onboard : MessageQueue O Q OnboardStateMessage) (remove : String → D × A × O → D × A × O)
    (laws₁ : IsQueue debug) (laws₂ : IsQueue attitude) (laws₃ : IsQueue onboard)
    (q₁ q₂ q₃ : Q) where
  abbrev queues : Queues (D × A × O) Q F
  queues = apart_queues debug attitude onboard remove

  abbrev IsLeft : List (Messages F) → D × A × O → Type 0
  IsLeft ms w = IsWaiting debug attitude onboard laws₁ laws₂ laws₃ q₁ q₂ q₃ ms w

  receive_messages_lem :
      (r : TelemetryReceiverMq Q) (m : Messages F) (ms : List (Messages F)) (w : D × A × O)
      → IsReceiving r q₁ q₂ q₃
      → IsLeft (m ∷ ms) w
      → (w' : D × A × O) × (receive_messages queues r w ≡ some (m, w')) × IsLeft ms w'
  unfolding receive_messages receive_debug_message receive_attitude_message receive_onboard_message
      receive log_received
  receive_messages_lem r m ms w h (c₁, c₂, c₃, (showable, rest)) =
      let (w₁, e₁, d₁) = laws₁.receive-contents q₁ m.0 _ w.0 c₁ in
      let (w₂, e₂, d₂) = laws₂.receive-contents q₂ m.1 _ w.1 c₂ in
      let (w₃, e₃, d₃) = laws₃.receive-contents q₃ m.2 _ w.2 c₃ in
      let (pieces, printed) = Option-some ((print_onboard-IsShowable {F = F} m.2).1 showable) in
      (
        (w₁, w₂, w₃),
        rw (h.debug_receives, h.attitude_receives, h.onboard_receives, e₁, e₂, e₃, printed) refl,
        (d₁, d₂, d₃, rest),
      )

  -- The thread emits what waits, in order.
  pub emit_rounds_lem :
      (r : TelemetryReceiverMq Q) (ms : List (Messages F)) (w : D × A × O)
      → IsReceiving r q₁ q₂ q₃
      → IsLeft ms w
      → (w' : D × A × O) × (emit_rounds queues (length ms) r w ≡ some (ms, w')) × IsLeft [] w'
  unfolding emit_rounds
  emit_rounds_lem r [] w h left = (w, refl, left)
  emit_rounds_lem r (m ∷ ms) w h left =
      let (w₁, e, left₁) = receive_messages_lem r m ms w h left in
      let (w₂, e₂, left₂) = emit_rounds_lem r ms w₁ h left₁ in (w₂, rw (e, e₂) refl, left₂)

  send_telemetry_lem :
      (c : SomController Q F) (ms : List (Messages F)) (w w' : D × A × O)
      → IsSending c.telemetry_transmitter q₁ q₂ q₃
      → IsLeft ms w
      → IsShowable c.onboard_message
      → debug.try_send q₁ c.debug_message w.0 ≡ (accepted, w'.0)
      → attitude.try_send q₂ c.attitude_message w.1 ≡ (accepted, w'.1)
      → onboard.try_send q₃ c.onboard_message w.2 ≡ (accepted, w'.2)
      → (send_telemetry queues c w ≡ some w') × IsLeft (ms ++ published c ∷ []) w'
  unfolding send_telemetry send_debug_message send_attitude_message send_onboard_message send
  send_telemetry_lem c ms w w' h (c₁, c₂, c₃, all) last e₁ e₂ e₃ = (
    rw (h.debug_sends, h.attitude_sends, h.onboard_sends, e₁, e₂, e₃) refl,
    (
      laws₁.contents-accepted q₁ c.debug_message w.0 w'.0 e₁
          ∙ rw c₁ (sym (map-append (λ (m : Messages F). m.0) ms (published c ∷ []))),
      laws₂.contents-accepted q₂ c.attitude_message w.1 w'.1 e₂
          ∙ rw c₂ (sym (map-append (λ (m : Messages F). m.1) ms (published c ∷ []))),
      laws₃.contents-accepted q₃ c.onboard_message w.2 w'.2 e₃
          ∙ rw c₃ (sym (map-append (λ (m : Messages F). m.2) ms (published c ∷ []))),
      All-append (λ (m : Messages F). IsShowable m.2) ms (published c ∷ []) all (last, tt),
    ),
  )

  -- Over three queues that meet their laws: if messages wait in them, they and what the controller
  -- sends can be shown, and each of the three accepts that, the thread's next rounds emit the messages that waited, in order, and
  -- then those of the controller, and the queues are then empty.
  pub published_then_emitted :
      (c : SomController Q F) (r : TelemetryReceiverMq Q) (ms : List (Messages F))
      (w w' : D × A × O)
      → IsSending c.telemetry_transmitter q₁ q₂ q₃
      → IsReceiving r q₁ q₂ q₃
      → IsLeft ms w
      → IsShowable c.onboard_message
      → debug.try_send q₁ c.debug_message w.0 ≡ (accepted, w'.0)
      → attitude.try_send q₂ c.attitude_message w.1 ≡ (accepted, w'.1)
      → onboard.try_send q₃ c.onboard_message w.2 ≡ (accepted, w'.2)
      → (send_telemetry queues c w ≡ some w')
        × (w'' : D × A × O) × (emit_rounds queues (length (ms ++ published c ∷ [])) r w'
            ≡ some (ms ++ published c ∷ [], w''))
        × IsLeft [] w''
  published_then_emitted c r ms w w' h k left last e₁ e₂ e₃ =
      let (sent, left₁) = send_telemetry_lem c ms w w' h left last e₁ e₂ e₃ in
      let (w'', emitted, left₂) = emit_rounds_lem r (ms ++ published c ∷ []) w' k left₁ in
      (sent, w'', emitted, left₂)

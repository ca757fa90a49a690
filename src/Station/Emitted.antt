-- ===== src/Station/Emitted.antt =====
-- What the thread hands to the window: the receiver has printed it, so the window can show it.
use rc_plane.Base.{
  ℕ, zero, suc, ◌≡◌, ◌≢◌, Bool, none, some, List, [], ◌∷◌, All, >>=-eq-some, ap, some_pair, arith,
}
use rc_plane.Double.{Double}
use rc_plane.Io.Telemetry.Backlog.{Messages}
use rc_plane.Io.Telemetry.Message.{
  OnboardStateMessage, debug_message, attitude_message, onboard_message,
}
use rc_plane.Io.Telemetry.Print.{IsShowable, print_onboard-IsShowable}
use rc_plane.Io.Telemetry.Queue.{Queues}
use rc_plane.Io.Telemetry.Receiver.{
  TelemetryReceiverMq, receive, log_received, receive_debug_message, receive_attitude_message,
  receive_onboard_message,
}
use rc_plane.Station.{Qt, ControlStation, handle_messages}
use rc_plane.Station.Attitude.{Trig}
use rc_plane.Station.Shown.{handle_messages-IsShowable}
use rc_plane.Station.Thread.{receive_messages, emit_rounds}

module _ {W Q F : Type 0} ⦃d : Double F⦄ (qs : Queues W Q F) where
  -- A message that cannot be shown does not come back from the receiver.
  pub receive_onboard_message-IsShowable :
      (t : TelemetryReceiverMq Q) (m m' : OnboardStateMessage) (received : Bool) (w w' : W)
      → IsShowable m
      → receive_onboard_message qs t m w ≡ some (received, m', w')
      → IsShowable m'
  unfolding receive_onboard_message receive log_received
  receive_onboard_message-IsShowable t m m' received w w' showable e =
      ground (arith, print_onboard-IsShowable {F = F} m')

  receive_messages-IsShowable :
      (t : TelemetryReceiverMq Q) (ms : Messages F) (w w' : W)
      → receive_messages qs t w ≡ some (ms, w')
      → IsShowable ms.2
  unfolding receive_messages
  receive_messages-IsShowable t ms w w' e =
      let ((_, debug, w₁), _, e₁) = >>=-eq-some (receive_debug_message qs t debug_message w) _ e in
      let ((_, attitude, w₂), _, e₂) =
        >>=-eq-some (receive_attitude_message qs t attitude_message w₁) _ e₁ in
      let ((received, onboard, w₃), came, e₃) =
        >>=-eq-some (receive_onboard_message qs t onboard_message w₂) _ e₂ in
      let showable =
        receive_onboard_message-IsShowable t onboard_message onboard received w₂ w₃
          (omega arith, omega arith) came in
      rw (← (ap (λ (m : Messages F). m.2) (some_pair (debug, attitude, onboard) ms w₃ w' e₃).0))
        showable

  -- Over any queues, and whatever is in them: what the thread emits in rounds that return can be
  -- shown, so that the slot of the window does not throw.
  pub emit_rounds-handle_messages :
      {T : Type 0} (trig : Trig F) (qt : Qt T F) (n : ℕ) (t : TelemetryReceiverMq Q)
      (log : List (Messages F)) (w w' : W)
      → emit_rounds qs n t w ≡ some (log, w')
      → All
          (λ (m : Messages F).
            (s : ControlStation T F) → handle_messages trig qt m.0 m.1 m.2 s ≢ none)
          log
  unfolding emit_rounds
  emit_rounds-handle_messages trig qt zero t log w w' e = rw (← (some_pair [] log w w' e).0) tt
  emit_rounds-handle_messages trig qt (suc n) t log w w' e =
      let ((m, w₁), came, e₁) = >>=-eq-some (receive_messages qs t w) _ e in
      let ((rest, w₂), ran, e₂) = >>=-eq-some (emit_rounds qs n t w₁) _ e₁ in
      let showable = receive_messages-IsShowable t m w w₁ came in
      rw (← (some_pair (m ∷ rest) log w₂ w' e₂).0) (
        λ s. (handle_messages-IsShowable trig qt m.0 m.1 m.2 s).1 showable,
        emit_rounds-handle_messages trig qt n t rest w₁ w₂ ran,
      )

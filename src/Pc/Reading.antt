-- ===== src/Pc/Reading.antt =====
-- What the program on the ground reads of what waits in the queues.
use rc_plane.Io.Telemetry.Print.{print_onboard-IsShowable}
use rc_plane.Base.{Option-some, ℕ, suc, ◌≡◌, refl, List, [], ◌∷◌, String, length}
use rc_plane.Double.{Double}
use rc_plane.Io.Telemetry.Message.{DebugMessage, AttitudeMessage, OnboardStateMessage}
use rc_plane.Io.Telemetry.Queue.{MessageQueue, IsQueue}
use rc_plane.Io.Telemetry.Receiver.{
  TelemetryReceiverMq, receive, receive_debug_message, receive_attitude_message,
  receive_onboard_message, log_received,
}
use rc_plane.Io.Telemetry.Backlog.{Messages, apart_queues, IsReceiving, IsWaiting}
use rc_plane.Pc.{got, poll, read_messages, read_rounds}

module _ {D A O Q F : Type 0} ⦃d : Double F⦄ (debug : MessageQueue D Q DebugMessage)
    (attitude : MessageQueue A Q (AttitudeMessage F))
    (onboard : MessageQueue O Q OnboardStateMessage) (remove : String → D × A × O → D × A × O)
    (laws₁ : IsQueue debug) (laws₂ : IsQueue attitude) (laws₃ : IsQueue onboard)
    (q₁ q₂ q₃ : Q) where
  read_messages_lem :
      (k : ℕ) (r : TelemetryReceiverMq Q) (m : Messages F) (ms : List (Messages F)) (w : D × A × O)
      → IsReceiving r q₁ q₂ q₃
      → IsWaiting debug attitude onboard laws₁ laws₂ laws₃ q₁ q₂ q₃ (m ∷ ms) w
      → (w' : D × A × O) × (read_messages (apart_queues debug attitude onboard remove) (suc k) r w
          ≡ got (m, w'))
        × IsWaiting debug attitude onboard laws₁ laws₂ laws₃ q₁ q₂ q₃ ms w'
  unfolding read_messages poll receive_debug_message receive_attitude_message
      receive_onboard_message receive log_received
  read_messages_lem k r m ms w h (c₁, c₂, c₃, (showable, rest)) =
      let (w₁, e₁, d₁) = laws₁.receive-contents q₁ m.0 _ w.0 c₁ in
      let (w₂, e₂, d₂) = laws₂.receive-contents q₂ m.1 _ w.1 c₂ in
      let (w₃, e₃, d₃) = laws₃.receive-contents q₃ m.2 _ w.2 c₃ in
      let (pieces, printed) = Option-some ((print_onboard-IsShowable {F = F} m.2).1 showable) in
      (
        (w₁, w₂, w₃),
        rw (h.debug_receives, h.attitude_receives, h.onboard_receives, e₁, e₂, e₃, printed) refl,
        (d₁, d₂, d₃, rest),
      )

  -- Over three queues that meet their laws, and in which messages wait that can be shown: with at least one call for
  -- each message, as many rounds as there are messages end, and read them all, in order.
  pub read_rounds-IsWaiting :
      (k : ℕ) (r : TelemetryReceiverMq Q) (ms : List (Messages F)) (w : D × A × O)
      → IsReceiving r q₁ q₂ q₃
      → IsWaiting debug attitude onboard laws₁ laws₂ laws₃ q₁ q₂ q₃ ms w
      → (w' : D × A × O) × (read_rounds
            (apart_queues debug attitude onboard remove)
            (length ms)
            (suc k)
            r
            w
          ≡ got (ms, w'))
        × IsWaiting debug attitude onboard laws₁ laws₂ laws₃ q₁ q₂ q₃ [] w'
  unfolding read_rounds
  read_rounds-IsWaiting k r [] w h left = (w, refl, left)
  read_rounds-IsWaiting k r (m ∷ ms) w h left =
      let (w₁, e, left₁) = read_messages_lem k r m ms w h left in
      let (w₂, e₂, left₂) = read_rounds-IsWaiting k r ms w₁ h left₁ in (w₂, rw (e, e₂) refl, left₂)

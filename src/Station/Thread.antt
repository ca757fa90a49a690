-- ===== src/Station/Thread.antt =====
-- control_station/TelemetryThread.hpp: the thread that receives the messages and hands them to the
-- window. Its loop does not end: its rounds are counted by fuel, and what is stated holds for every
-- number of rounds.
use rc_plane.Base.{
  ℕ, zero, suc, ◌≡◌, refl, false, Option, none, some, List, [], ◌∷◌, ◌>>=◌, >>=-none, arith,
}
use rc_plane.Double.{Double}
use rc_plane.Io.Telemetry.Message.{debug_message, attitude_message, onboard_message}
use rc_plane.Io.Telemetry.Backlog.{Messages}
use rc_plane.Io.Telemetry.Queue.{Queues}
use rc_plane.Io.Telemetry.Receiver
use rc_plane.Io.Telemetry.Receiver.{
  TelemetryReceiverMq, receive, receive_debug_message, receive_attitude_message,
  receive_onboard_message,
}

module _ {W Q F : Type 0} ⦃d : Double F⦄ (qs : Queues W Q F) where
  -- One round of the loop: the results of the three calls are not looked at.
  unfoldable pub receive_messages : TelemetryReceiverMq Q → W → Option (Messages F × W)
  unfolding receive_debug_message receive_attitude_message receive_onboard_message
  receive_messages t w = do
    (_, debug, w) ← receive_debug_message qs t debug_message w
    (_, attitude, w) ← receive_attitude_message qs t attitude_message w
    (_, onboard, w) ← receive_onboard_message qs t onboard_message w
    some ((debug, attitude, onboard), w)

  -- What n rounds emit.
  unfoldable pub emit_rounds : ℕ → TelemetryReceiverMq Q → W → Option (List (Messages F) × W)
  unfolding receive_messages
  emit_rounds zero t w = some ([], w)
  emit_rounds (suc n) t w = do
    (messages, w₁) ← receive_messages t w
    (rest, w₂) ← emit_rounds n t w₁
    some (messages ∷ rest, w₂)

  -- The result of `init` is not looked at.
  unfoldable pub run_thread : ℕ → TelemetryReceiverMq Q → W → Option (List (Messages F) × W)
  unfolding emit_rounds
  run_thread n t w = let (_, t', w') = Receiver.init qs t w in emit_rounds n t' w'

  init_failed :
      (t t' : TelemetryReceiverMq Q) (w w' : W)
      → t.debug_message_queue ≡ none
      → t.attitude_message_queue ≡ none
      → t.onboard_message_queue ≡ none
      → Receiver.init qs t w ≡ (false, t', w')
      → t'.onboard_message_queue ≡ none
  unfolding Receiver.init
  init_failed t t' w w' e₁ e₂ e₃ e = ground arith

  null_onboard :
      (t : TelemetryReceiverMq Q) (w : W)
      → t.onboard_message_queue ≡ none
      → receive_messages t w ≡ none
  unfolding receive_messages receive receive_onboard_message
  null_onboard t w e = >>=-none (receive_debug_message qs t debug_message w) _ λ (_, debug, w₁).
      >>=-none (receive_attitude_message qs t attitude_message w₁) _ λ (_, attitude, w₂). rw e refl

  -- If the queues were closed and `init` returned false, the thread dereferences a null pointer in its
  -- first round.
  pub thread_undefined :
      (t t' : TelemetryReceiverMq Q) (w w' : W) (n : ℕ)
      → t.debug_message_queue ≡ none
      → t.attitude_message_queue ≡ none
      → t.onboard_message_queue ≡ none
      → Receiver.init qs t w ≡ (false, t', w')
      → run_thread (suc n) t w ≡ none
  unfolding run_thread
  thread_undefined t t' w w' n e₁ e₂ e₃ e =
      rw e (rw (null_onboard t' w' (init_failed t t' w w' e₁ e₂ e₃ e)) refl)

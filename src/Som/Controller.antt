-- ===== src/Som/Controller.antt =====
-- impl/include/rcplane/som/SomController.hpp, impl/include/rcplane/common/Helpers.hpp and the
-- telemetry of impl/src/som/SomController.cpp: the state of the controller.
use rc_plane.Base.{ℕ, ◌+◌, ◌%◌, ◌^◌, Bool, Option, some, ◌>>=◌}
use rc_plane.Io.Serial.{SerialController}
use rc_plane.Io.Telemetry.Message.{DebugMessage, AttitudeMessage, OnboardStateMessage}
use rc_plane.Io.Telemetry.Queue.{Queues}
use rc_plane.Io.Telemetry.Transmitter.{
  TelemetryTransmitterMq, send_debug_message, send_attitude_message, send_onboard_message,
}
use rc_plane.Autopilot.Manager.{AutopilotManager}

-- What runs to its end returns a value, and `RCPLANE_ASSERT` ends the process with `exit(1)`.
pub data Ending (A : Type 0) : Type 0 where
  returned : A → Ending A
  exited : Ending A

-- The event loop of Boost.Asio, which another thread stops, and the sleep of the standard library.
pub record Host (W : Type 0) : Type 0 where
  pub is_stopped : W → Bool × W
  pub sleep_ms : ℕ → W → W

pub record SomController (Q F : Type 0) : Type 0 where
  pub handshake_attempts : ℕ
  pub main_loop_delay : ℕ
  pub serial_controller : SerialController
  pub autopilot_manager : AutopilotManager F
  pub debug_message : DebugMessage
  pub attitude_message : AttitudeMessage F
  pub onboard_message : OnboardStateMessage
  pub telemetry_transmitter : TelemetryTransmitterMq Q

-- `++` on an `uint32_t`.
abbrev pub next : ℕ → ℕ
next n = (n + 1) % 2 ^ 32

-- A message that is not accepted is logged and dropped.
unfoldable pub send_telemetry : {W Q F : Type 0} → Queues W Q F → SomController Q F → W → Option W
unfolding send_debug_message send_attitude_message send_onboard_message
send_telemetry qs c w = do
  (_, w₁) ← send_debug_message qs c.telemetry_transmitter c.debug_message w
  (_, w₂) ← send_attitude_message qs c.telemetry_transmitter c.attitude_message w₁
  (_, w₃) ← send_onboard_message qs c.telemetry_transmitter c.onboard_message w₂
  some w₃

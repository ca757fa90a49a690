-- ===== src/Som/Loop.antt =====
-- impl/src/som/SomController.cpp, `runMainLoop`, and impl/src/som/main.cpp. The loop runs until
-- another thread stops the event loop, which need not happen: its rounds are counted by fuel, and
-- what is stated holds for every number of rounds.
pub mod Accounting
use rc_plane.Base.{ℕ, zero, suc, Bool, true, false, Option, none, some, ◌>>=◌}
use rc_plane.Double.{Double}
use rc_plane.Io.Serial.{SerialPort}
use rc_plane.Io.Telemetry.Queue.{Queues}
use rc_plane.Som.Controller.{Ending, returned, exited, Host, SomController, send_telemetry}
use rc_plane.Som.Cycle.{run_cycle}
use rc_plane.Som.Handshake.{handshake_mcu}

module _ {W Q F : Type 0} ⦃port : SerialPort W⦄ ⦃d : Double F⦄ (qs : Queues W Q F)
    (host : Host W) where
  -- At most n rounds of the loop.
  unfoldable pub run_rounds : ℕ → SomController Q F → W → Option (SomController Q F × W)
  run_rounds zero c w = some (c, w)
  run_rounds (suc n) c w =
      let (stopped, w₁) = host.is_stopped w in
      elim stopped [
        | true ↦ some (c, w₁)
        | false ↦ do (c', w₂) ← run_cycle qs c w₁; run_rounds n c' w₂
      ]

  -- `runMainLoop`, up to n rounds of its loop.
  unfoldable pub run_main_loop : ℕ → SomController Q F → W → Option (Ending (SomController Q F × W))
  unfolding run_rounds
  run_main_loop n c w = do
    w₁ ← send_telemetry qs c w
    let (stopped, w₂) = host.is_stopped (host.sleep_ms c.main_loop_delay w₁)
    elim stopped [
      | true ↦ some exited
      | false ↦ do result ← run_rounds n c w₂; some (returned result)
    ]

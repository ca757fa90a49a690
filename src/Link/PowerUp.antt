-- ===== src/Link/PowerUp.antt =====
-- From the constructor of the controller and the start of the sketch to any number of exchanges.
use rc_plane.Base.{ℕ, suc, ◌≡◌, sym, ◌∙◌, true, some, List, [], ◌++◌, String, All, length, arith}
use rc_plane.Base.Int.{IsInt8}
use rc_plane.Double.{Double}
use rc_plane.Autopilot.Utility.{AutopilotUtility}
use rc_plane.Autopilot.Utility.Sticks.{IsConfigured}
use rc_plane.Autopilot.Utility.Limits.{IsInEnvelope}
use rc_plane.Io.Telemetry.Queue.{Queues}
use rc_plane.Mcu.{Board, Sketch}
use rc_plane.Mcu.Calm.{IsCalm}
use rc_plane.Mcu.Sticks.{IsBoard}
use rc_plane.Som.Controller.{SomController}
use rc_plane.Som.Handshake.{acknowledgement}
use rc_plane.Som.Setup.Ready.{IsReady}
use rc_plane.Link.{Link, find_end, exchanges}
use rc_plane.Link.Calm.{exchanges-IsInEnvelope}
use rc_plane.Link.Handshake.{announcement, shake, shake-IsClear}

module _ {E Q F : Type 0} ⦃d : Double F⦄ (text : String → List ℕ) (board : Board E)
    (laws : IsBoard board) (calm : IsCalm board F) (qs : Queues E Q F) where
  -- A controller as the constructor leaves it, with configured limits and at least one attempt, and a line whose
  -- old bytes and the announcement end with the first match of the terminator, with nothing on its way to the sketch: on a calm
  -- board that meets its laws the handshake succeeds, any number of exchanges follow, and every
  -- answer that the sketch got is within the limits.
  pub power_up :
      (u : AutopilotUtility) (n attempts : ℕ) (s : Sketch) (c : SomController Q F) (w : Link E text)
      → IsReady c
      → c.autopilot_manager.manual_autopilot.utility ≡ u
      → IsConfigured u
      → c.handshake_attempts ≡ suc attempts
      → w.down ≡ []
      → find_end (text c.serial_controller.handshake_termination_str) (w.up ++ announcement text)
        ≡ some (length (w.up ++ announcement text))
      → (s₁ : Sketch) × (c₁ c₂ : SomController Q F) × (w₁ w₂ : Link E text) × (log : List Sketch)
        × (shake text board s c w ≡ some (true, s₁, c₁, w₁))
        × (exchanges text board qs n s₁ c₁ w₁ ≡ some (log, c₂, w₂))
        × (length log ≡ n)
        × All (λ (s' : Sketch). IsInEnvelope u s'.control_surface) log
  power_up u n attempts s c w ready same configured some_attempt down ends =
      let m = c.autopilot_manager in
      let shared : m.stabilize_autopilot.utility ≡ u = sym ready.utility_shared ∙ same in
      let limit : IsInt8 m.stabilize_autopilot.utility.max_elevator_deflection =
        rw shared (omega (arith, configured.elevator_limit)) in
      let (c₁, w₁, shaken, kept, clear) =
        shake-IsClear text board s c w attempts some_attempt ready.nothing_buffered down ends
          ready.queues_open limit in
      let s₁ : Sketch = record s { handshake = acknowledgement } in
      let (log, c₂, w₂, ran, count, all, _) =
        exchanges-IsInEnvelope text board laws calm qs u n s₁ c₁ w₁ configured (record {
          clear = clear;
          synced = rw kept ready.manager_synced;
          same_utility = rw kept same;
        }) in
      (s₁, c₁, c₂, w₁, w₂, log, shaken, ran, count, all)

-- ===== src/Station/Shown.antt =====
-- Which messages the window can show, and that those of the controller are among them.
use rc_plane.Base.{
  ℕ, zero, suc, ◌≤◌, ◌≡◌, ◌≢◌, ◌↔◌, refl, ap, ◌∙◌, inl, inr, Bool, true, false, some, none, String,
  if◌then◌else◌, some_pair, Option-some, arith,
}
use rc_plane.Double.{Double}
use rc_plane.Autopilot.Manager.{is_in_manual_mode}
use rc_plane.Io.Serial.{SerialPort}
use rc_plane.Io.Telemetry.Message.{
  DebugMessage, AttitudeMessage, OnboardStateMessage, at, autopilot_type_to_str, names_defined,
}
use rc_plane.Io.Telemetry.Message.AutopilotType
use rc_plane.Io.Telemetry.Print.{IsShowable}
use rc_plane.Io.Telemetry.Queue.{Queues}
use rc_plane.Som.Controller.{Host, SomController}
use rc_plane.Som.Cycle.{after_cycle, onboard_state, run_cycle}
use rc_plane.Som.Cycle.After.{run_cycle-after_cycle}
use rc_plane.Som.Loop.{run_rounds}
use rc_plane.Som.Loop.Accounting.{round_cases}
use rc_plane.Station.{Qt, ControlStation, handle_messages, show_messages}
use rc_plane.Station.Attitude.{Trig}

module _ {T F : Type 0} ⦃d : Double F⦄ (trig : Trig F) (qt : Qt T F) where
  pub handle_messages-IsShowable :
      (debug : DebugMessage) (attitude : AttitudeMessage F) (onboard : OnboardStateMessage)
      (s : ControlStation T F)
      → (handle_messages trig qt debug attitude onboard s ≢ none) ↔ IsShowable onboard
  unfolding handle_messages
  handle_messages-IsShowable debug attitude onboard s =
      ground (arith, names_defined onboard.autopilot_type onboard.gps_fix)

mode_name :
    (manual : Bool)
    → at
        (if manual then AutopilotType.manual_autopilot else AutopilotType.stabilize_autopilot)
        autopilot_type_to_str
      ≡ some (if manual then "MAN" else "SBL")
unfolding at
mode_name true = refl
mode_name false = refl

module _ {W Q F : Type 0} ⦃port : SerialPort W⦄ ⦃d : Double F⦄ (qs : Queues W Q F)
    (host : Host W) where
  cycle-IsShowable :
      (c c' : SomController Q F) (w w' : W)
      → IsShowable c.onboard_message
      → run_cycle qs c w ≡ some (c', w')
      → IsShowable c'.onboard_message
        × (c'.onboard_message.autopilot_type ≡ (
            if is_in_manual_mode c'.autopilot_manager
            then AutopilotType.manual_autopilot
            else AutopilotType.stabilize_autopilot))
  unfolding after_cycle onboard_state
  cycle-IsShowable c c' w w' (_, gps) h =
      let (rc_rx, imu, _, packet, manager, temperature, _, same) =
        run_cycle-after_cycle qs c c' w w' h in
      let mode : (if is_in_manual_mode manager
            then AutopilotType.manual_autopilot
            else AutopilotType.stabilize_autopilot)
          ≤ AutopilotType.stabilize_autopilot =
        ground arith in
      rw same ((mode, gps), refl)

  rounds-IsShowable :
      (n : ℕ) (c c' : SomController Q F) (w w' : W)
      → IsShowable c.onboard_message
      → run_rounds qs host n c w ≡ some (c', w')
      → IsShowable c'.onboard_message
  unfolding run_rounds
  rounds-IsShowable zero c c' w w' h e = rw (← (some_pair c c' w w' e).0) h
  rounds-IsShowable (suc n) c c' w w' h e = elim (round_cases qs host n c c' w w' e) [
    | inl same ↦ rw same h
    | inr (c₁, w₁, w₂, ran, rest) ↦
        rounds-IsShowable n c₁ c' w₂ w' (cycle-IsShowable c c₁ w₁ w₂ h ran).0 rest
  ]

  module _ {T : Type 0} (trig : Trig F) (qt : Qt T F) where
    -- After any number of rounds that started with a message that can be shown, what the next cycle
    -- publishes can be shown again, whatever is on the window, and is shown under the name of the mode that the
    -- manager is in.
    pub published-IsShowable :
        (n : ℕ) (c c₁ c' : SomController Q F) (w w₁ w₂ w' : W) (s : ControlStation T F)
        → IsShowable c.onboard_message
        → run_rounds qs host n c w ≡ some (c₁, w₁)
        → run_cycle qs c₁ w₂ ≡ some (c', w')
        → (gps : String) × (handle_messages trig qt c'.debug_message c'.attitude_message
              c'.onboard_message s
            ≡ some (
                show_messages trig qt
                  (if is_in_manual_mode c'.autopilot_manager then "MAN" else "SBL")
                  gps
                  c'.debug_message
                  c'.attitude_message
                  c'.onboard_message
                  s))
          × IsShowable c'.onboard_message
    unfolding handle_messages
    published-IsShowable n c c₁ c' w w₁ w₂ w' s h ran cycled =
        let before = rounds-IsShowable n c c₁ w w₁ h ran in
        let (showable, mode) = cycle-IsShowable c₁ c' w₂ w' before cycled in
        let (_, gps_named) =
          names_defined c'.onboard_message.autopilot_type c'.onboard_message.gps_fix in
        let (gps, named) = Option-some (gps_named.0 showable.1) in
        let mode_named =
          ap (λ k. at k autopilot_type_to_str) mode
          ∙ mode_name (is_in_manual_mode c'.autopilot_manager) in
        (gps, rw (mode_named, named) refl, showable)

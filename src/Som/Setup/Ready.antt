-- ===== src/Som/Setup/Ready.antt =====
-- What the constructor establishes for the operations that follow.
use rc_plane.Base.{
  ℕ, ◌≡◌, ◌≢◌, refl, Bool, true, false, Option, some, [], >>=-eq-some, arith, Bool-cases, inl, inr,
  String,
}
use mathlib.Core.Option.{some-injective}
use rc_plane.Double.{Double}
use rc_plane.Io.Config.{JsonLibrary, ConfigManager, Parsed, config_manager, load_config, read_value}
use rc_plane.Io.Config.Constructors.{
  read_serial_controller, read_utility, read_gains, read_transmitter,
}
use rc_plane.Io.Serial.{SerialPort, SerialController, open_serial}
use rc_plane.Io.Telemetry.Message.{debug_message}
use rc_plane.Io.Telemetry.Queue.{Queues}
use rc_plane.Io.Telemetry.Transmitter
use rc_plane.Io.Telemetry.Transmitter.{TelemetryTransmitterMq}
use rc_plane.Io.Telemetry.Init.{init_opens}
use rc_plane.Autopilot.Manager.{autopilot_manager, is_manual}
use rc_plane.Autopilot.Manager.Modes.{IsSynced}
use rc_plane.Som.Controller.{Ending, returned, exited, SomController}
use rc_plane.Som.Failsafe.{IsOpen}
use rc_plane.Som.Setup.{equip, build, construct, given_or_default, equipped, assert}
use rc_plane.Autopilot.Utility.{AutopilotUtility}
use rc_plane.Autopilot.Stabilize.{Gains}

-- What holds of a constructed controller: the manager is in manual mode and in step with its last
-- state, both autopilots have the same limits, the queues are open, nothing is buffered, and no
-- event is counted.
pub record IsReady {Q F : Type 0} (c : SomController Q F) : Type 0 where
  pub manager_synced : IsSynced c.autopilot_manager
  pub manager_manual : is_manual c.autopilot_manager.autopilot ≡ true
  pub utility_shared :
      c.autopilot_manager.manual_autopilot.utility ≡ c.autopilot_manager.stabilize_autopilot.utility
  pub queues_open : IsOpen c.telemetry_transmitter
  pub nothing_buffered : c.serial_controller.stream_buffer ≡ []
  pub nothing_counted : c.debug_message ≡ debug_message

returned_pair :
    {A B : Type 0} (a a' : A) (b b' : B)
    → ◌≡◌ {A = Ending (A × B)} (returned (a, b)) (returned (a', b'))
    → a ≡ a'
returned_pair a a' b b' e = cc

exited_returned : {A : Type 0} (a : A) → exited ≢ returned a
exited_returned a e = cc

module _ {W Q F J : Type 0} ⦃port : SerialPort W⦄ ⦃d : Double F⦄ (qs : Queues W Q F)
    (library : JsonLibrary J F) where
  equipped-IsReady :
      (utility : AutopilotUtility) (gains : Gains F) (attempts delay : ℕ)
      (serial : SerialController) (t t' : TelemetryTransmitterMq Q) (w w' : W)
      → serial.stream_buffer ≡ []
      → Transmitter.init qs t w ≡ (true, t', w')
      → IsReady (equipped attempts delay serial utility gains t')
  unfolding equipped autopilot_manager is_manual
  equipped-IsReady utility gains attempts delay serial t t' w w' empty e =
      let (debug, attitude, onboard) = init_opens qs t t' w w' e in
      record {
        manager_synced = refl;
        manager_manual = refl;
        utility_shared = refl;
        queues_open = record {
          debug_open = debug;
          attitude_open = attitude;
          onboard_open = onboard;
        };
        nothing_buffered = empty;
        nothing_counted = refl;
      }

  assert-IsReady :
      (utility : AutopilotUtility) (gains : Gains F) (attempts delay : ℕ)
      (serial : SerialController) (t t' : TelemetryTransmitterMq Q) (w w₁ w' : W) (ok : Bool)
      (c : SomController Q F)
      → serial.stream_buffer ≡ []
      → Transmitter.init qs t w ≡ (ok, t', w₁)
      → assert {A = SomController Q F × W} ok (equipped attempts delay serial utility gains t', w₁)
        ≡ returned (c, w')
      → IsReady c
  unfolding assert
  assert-IsReady utility gains attempts delay serial t t' w w₁ w' false c empty e h =
      absurd (exited_returned (c, w') h)
  assert-IsReady utility gains attempts delay serial t t' w w₁ w' true c empty e h =
      rw (← returned_pair _ c w₁ w' h)
        (equipped-IsReady utility gains attempts delay serial t t' w w₁ empty e)

  equip-IsReady :
      (config : ConfigManager J) (attempts delay : ℕ) (serial : SerialController) (w w' : W)
      (c : SomController Q F)
      → serial.stream_buffer ≡ []
      → equip qs library config attempts delay serial w ≡ some (returned (c, w'))
      → IsReady c
  unfolding equip
  equip-IsReady config attempts delay serial w w' c empty e =
      let (utility, _, e₁) = >>=-eq-some (read_utility library config) _ e in
      let (gains, _, e₂) = >>=-eq-some (read_gains library config) _ e₁ in
      let (t, _, e₃) = >>=-eq-some (read_transmitter library config) _ e₂ in
      let init = Transmitter.init qs t w in
      assert-IsReady utility gains attempts delay serial t init.1 w init.2 w' init.0 c empty refl
        (some-injective _ _ e₃)

  serial_controller_empty :
      (config : ConfigManager J) (serial : SerialController)
      → read_serial_controller library config ≡ some serial
      → serial.stream_buffer ≡ []
  unfolding read_serial_controller
  serial_controller_empty config serial e = ground arith

  exited_some :
      {A : Type 0} (a : A) → ◌≡◌ {A = Option (Ending A)} (some exited) (some (returned a)) → ⊥
  exited_some a e = cc

  build-IsReady :
      (config : ConfigManager J) (w w' : W) (c : SomController Q F)
      → build qs library config w ≡ some (returned (c, w'))
      → IsReady c
  unfolding build
  build-IsReady config w w' c e =
      let (attempts, _, e₁) = >>=-eq-some (read_value library library.get_uint32 config _) _ e in
      let (delay, _, e₂) = >>=-eq-some (read_value library library.get_uint32 config _) _ e₁ in
      let (serial, h, e₃) = >>=-eq-some (read_serial_controller library config) _ e₂ in
      elim (Bool-cases (open_serial serial w).0) [
        | inl opened ↦
            equip-IsReady config attempts delay serial (open_serial serial w).1 w' c
              (serial_controller_empty config serial h) (rw opened at e₃)
        | inr shut ↦ absurd (exited_some (c, w') (rw shut at e₃))
      ]

  -- A controller that the constructor returns is ready, whatever the configuration and the devices.
  pub construct-IsReady :
      (read_file : String → W → Parsed J × W) (path : Option String) (w w' : W)
      (c : SomController Q F)
      → construct qs library read_file path w ≡ some (returned (c, w'))
      → IsReady c
  unfolding construct
  construct-IsReady read_file path w w' c e =
      let start : ConfigManager J = config_manager library in
      let ((loaded, config), _, e₁) =
        >>=-eq-some (load_config start (read_file (given_or_default path) w).0) _ e in
      elim (Bool-cases loaded) [
        | inl yes_loaded ↦ build-IsReady config _ w' c (rw yes_loaded at e₁)
        | inr not_loaded ↦ absurd (exited_some (c, w') (rw not_loaded at e₁))
      ]

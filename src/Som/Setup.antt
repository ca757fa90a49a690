-- ===== src/Som/Setup.antt =====
-- impl/src/som/SomController.cpp, the constructor, and impl/src/som/main.cpp.
pub mod Ready
use rc_plane.Base.{ℕ, Bool, true, false, Option, none, some, ◌>>=◌, if◌then◌else◌, String}
use rc_plane.Double.{Double}
use rc_plane.Io.Config.{JsonLibrary, ConfigManager, Parsed, config_manager, load_config, read_value}
use rc_plane.Io.Config.Constructors.{
  read_serial_controller, read_utility, read_gains, read_transmitter,
}
use rc_plane.Io.Serial.{SerialPort, SerialController, open_serial}
use rc_plane.Io.Telemetry.Message.{debug_message, attitude_message, onboard_message}
use rc_plane.Io.Telemetry.Queue.{Queues}
use rc_plane.Io.Telemetry.Transmitter
use rc_plane.Io.Telemetry.Transmitter.{TelemetryTransmitterMq}
use rc_plane.Autopilot.Utility.{AutopilotUtility}
use rc_plane.Autopilot.Stabilize.{Gains}
use rc_plane.Autopilot.Manager.{autopilot_manager}
use rc_plane.Som.Controller.{Ending, returned, exited, Host, SomController}
use rc_plane.Som.Handshake.{handshake_mcu}
use rc_plane.Som.Loop.{run_main_loop}

-- `k_defaultConfigPath`.
abbrev pub default_config_path : String
default_config_path = "configs/config.json"

abbrev pub given_or_default : Option String → String
given_or_default none = default_config_path
given_or_default (some path) = path

-- The members once everything is constructed.
unfoldable pub equipped :
    {Q F : Type 0} ⦃d : Double F⦄
    → ℕ
    → ℕ
    → SerialController
    → AutopilotUtility
    → Gains F
    → TelemetryTransmitterMq Q
    → SomController Q F
unfolding autopilot_manager
equipped attempts delay serial utility gains transmitter = record {
  handshake_attempts = attempts;
  main_loop_delay = delay;
  serial_controller = serial;
  autopilot_manager = autopilot_manager utility gains;
  debug_message = debug_message;
  attitude_message = attitude_message;
  onboard_message = onboard_message;
  telemetry_transmitter = transmitter;
}

-- `RCPLANE_ASSERT`.
unfoldable pub assert : {A : Type 0} → Bool → A → Ending A
assert true a = returned a
assert false a = exited

module _ {W Q F J : Type 0} ⦃port : SerialPort W⦄ ⦃d : Double F⦄ (qs : Queues W Q F)
    (library : JsonLibrary J F) where
  -- The constructor from the autopilots on.
  unfoldable pub equip :
      ConfigManager J → ℕ → ℕ → SerialController → W → Option (Ending (SomController Q F × W))
  unfolding Transmitter.init read_utility read_gains read_transmitter equipped assert
  equip config attempts delay serial w = do
    utility ← read_utility library config
    gains ← read_gains library config
    transmitter ← read_transmitter library config
    let (ready, opened, w') = Transmitter.init qs transmitter w
    some (assert ready (equipped attempts delay serial utility gains opened, w'))

  -- The constructor once the file is loaded.
  unfoldable pub build : ConfigManager J → W → Option (Ending (SomController Q F × W))
  unfolding equip read_value read_serial_controller open_serial
  build config w = do
    attempts ←
        read_value library library.get_uint32 config "rcplane.som.som_controller.handshake_attempts"
    delay ←
        read_value library library.get_uint32 config "rcplane.som.som_controller.main_loop_delay_ms"
    serial ← read_serial_controller library config
    let (opened, w') = open_serial serial w
    if opened then equip config attempts delay serial w' else some exited

  module _ (read_file : String → W → Parsed J × W) where
    -- The constructor. An empty path is `none`.
    unfoldable pub construct : Option String → W → Option (Ending (SomController Q F × W))
    unfolding build load_config
    construct path w =
        let (file, w') = read_file (given_or_default path) w in
        do
          (loaded, config) ← load_config (config_manager library) file
          if loaded then build config w' else some exited

    -- `main`, with at most n rounds of the main loop: whether it returns EXIT_SUCCESS.
    unfoldable pub som_main : Host W → ℕ → Option String → W → Option (Ending Bool)
    unfolding construct handshake_mcu run_main_loop
    som_main host n path w = do
      constructed ← construct path w
      elim constructed [
        | exited ↦ some exited
        | returned (c, w₁) ↦ do
          shaken ← handshake_mcu c w₁
          elim shaken [
            | exited ↦ some exited
            | returned (false, c', w₂) ↦ some (returned false)
            | returned (true, c', w₂) ↦ do
              ran ← run_main_loop qs host n c' w₂
              elim ran [ exited ↦ some exited | returned _ ↦ some (returned true) ]
          ]
      ]

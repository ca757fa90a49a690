-- ===== src/Station/Main.antt =====
-- control_station/main.cpp: the file is loaded, the thread is started, and the window handles what it
-- emits, in order.
use rc_plane.Base.{ℕ, Option, some, List, [], ◌∷◌, String, ◌>>=◌}
use rc_plane.Double.{Double}
use rc_plane.Io.Config.{JsonLibrary, Parsed, config_manager, load_config}
use rc_plane.Io.Config.Constructors.{read_receiver}
use rc_plane.Io.Telemetry.Backlog.{Messages}
use rc_plane.Io.Telemetry.Queue.{Queues}
use rc_plane.Station.{Qt, ControlStation, handle_messages}
use rc_plane.Station.Attitude.{Trig}
use rc_plane.Station.Thread.{run_thread}

abbrev pub station_config_path : String
station_config_path = "../configs/config.json"

module _ {T F : Type 0} ⦃d : Double F⦄ (trig : Trig F) (qt : Qt T F) where
  -- The slot, once for each signal.
  unfoldable pub handle_all : List (Messages F) → ControlStation T F → Option (ControlStation T F)
  unfolding handle_messages
  handle_all [] s = some s
  handle_all ((debug, attitude, onboard) ∷ rest) s = do
    s' ← handle_messages trig qt debug attitude onboard s
    handle_all rest s'

  -- Up to n rounds of the thread. The result of `loadConfig` is not looked at.
  unfoldable pub station_main :
      {W Q J : Type 0}
      → Queues W Q F
      → JsonLibrary J F
      → (String → W → Parsed J × W)
      → ℕ
      → ControlStation T F
      → W
      → Option (ControlStation T F × W)
  unfolding handle_all load_config read_receiver run_thread
  station_main qs library read_file n window w = do
    let (file, w₁) = read_file station_config_path w
    (_, config) ← load_config (config_manager library) file
    receiver ← read_receiver library config
    (emitted, w₂) ← run_thread qs n receiver w₁
    window' ← handle_all emitted window
    some (window', w₂)

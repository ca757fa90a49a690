-- ===== src/Station/Missing.antt =====
-- The two programs on the ground without their configuration file.
use rc_plane.Base.{ℕ, ◌≡◌, refl, Bool, false, none, String}
use rc_plane.Double.{Double}
use rc_plane.Io.Config.{JsonLibrary, Parsed, not_open, load_config}
use rc_plane.Io.Config.Constructors.{read_receiver}
use rc_plane.Io.Config.Missing.{IsJson, accumulate-null, get_value-null}
use rc_plane.Io.Telemetry.Queue.{Queues}
use rc_plane.Som.Setup.{default_config_path}
use rc_plane.Station.{Qt, ControlStation}
use rc_plane.Station.Attitude.{Trig}
use rc_plane.Station.Main.{station_config_path, station_main}
use rc_plane.Pc.{exited, pc_main}

module _ {J F : Type 0} (library : JsonLibrary J F) (laws : IsJson library) where
  -- Nothing can be read of a configuration that was not loaded.
  read_receiver-null :
      {Q : Type 0} (loaded : Bool)
      → read_receiver library {Q = Q} (record { json = library.null; config_loaded = loaded })
        ≡ none
  unfolding read_receiver
  read_receiver-null loaded =
      let path : String = "rcplane.io.telemetry.debug_mq_name" in
      let (unread, _, _, _, _) =
        get_value-null library laws (record { json = library.null; config_loaded = loaded }) path
          (accumulate-null library laws (library.split_at_dots path)) in
      rw unread refl

  -- If the file cannot be opened, the reader exits, and the control station, which does not look at
  -- the result of `loadConfig`, ends with an exception that leaves its main function.
  pub ground_not_open :
      {W Q T : Type 0} ⦃d : Double F⦄ (trig : Trig F) (qt : Qt T F) (qs : Queues W Q F)
      (read_file : String → W → Parsed J × W) (n k : ℕ) (window : ControlStation T F) (w w₁ w₂ : W)
      → read_file station_config_path w ≡ (not_open, w₁)
      → read_file default_config_path w ≡ (not_open, w₂)
      → (station_main trig qt qs library read_file n window w ≡ none)
        × (pc_main qs library read_file n k w ≡ exited)
  unfolding station_main pc_main load_config
  ground_not_open trig qt qs read_file n k window w w₁ w₂ e₁ e₂ =
      (rw e₁ (rw (read_receiver-null false) refl), rw e₂ refl)

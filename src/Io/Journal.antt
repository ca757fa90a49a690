-- ===== src/Io/Journal.antt =====
-- impl/include/rcplane/io/Journal.hpp: the sink that writes the log to the terminal, and the macros that
-- make its records. The core of Boost.Log is a parameter.
pub mod Colour
use rc_plane.Base.{Bool, true, false, List, [], ◌∷◌, ◌++◌, String}

-- The levels of `boost::log::trivial`, from the lowest.
pub data Severity : Type 0 where
  trace debug info warning error fatal : Severity

-- What is put on `std::cout`: `escape "s"` is the text `s` after the escape character.
pub data Output : Type 0 where
  escape : String → Output
  text : String → Output

-- What a record has for the sink: the attributes as they are printed, and the message.
pub record LogRecord : Type 0 where
  pub severity : Severity
  pub time_stamp : String
  pub thread_id : String
  pub severity_name : String
  pub message : List String

-- The switch. Two levels have no colour.
unfoldable pub colour_of : Severity → List Output
colour_of trace = escape "[38;5;241m" ∷ []
colour_of debug = escape "[38;5;245m" ∷ []
colour_of warning = escape "[38;5;184m" ∷ []
colour_of error = escape "[38;5;196m" ∷ []
colour_of info = []
colour_of fatal = []

abbrev pub texts : List String → List Output
texts [] = []
texts (s ∷ ss) = text s ∷ texts ss

-- What stands in front of the message.
abbrev pub heading : LogRecord → List String
heading r = "[" ∷ r.time_stamp ∷ "] [" ∷ r.thread_id ∷ "] " ∷ "[" ∷ r.severity_name ∷ "] " ∷ []

unfoldable pub consume : LogRecord → List Output
unfolding colour_of
consume r =
    colour_of r.severity
    ++ (texts (heading r) ++ (texts r.message ++ (escape "[0m" ∷ text "\n" ∷ [])))

-- The core: what the macros call. A record has a level and its message.
pub record LogCore (W : Type 0) : Type 0 where
  pub add_common_attributes : W → W
  pub add_sink : (LogRecord → List Output) → W → W
  pub set_filter : Severity → W → W
  pub set_logging_enabled : Bool → W → W
  pub push : Severity → List String → W → W

module _ {W : Type 0} (core : LogCore W) where
  -- `RCPLANE_LOG_INIT`. The filter lets through what is at least at the level.
  unfoldable pub log_init : W → W
  unfolding consume
  log_init w = core.set_filter trace (core.add_sink consume (core.add_common_attributes w))

  -- `RCPLANE_LOG_EXTERNAL`, and with the name of the class as the tag `RCPLANE_LOG`.
  unfoldable pub log_external : Severity → String → List String → W → W
  log_external level tag message w = core.push level ("[" ∷ tag ∷ "] " ∷ message) w

  -- `RCPLANE_LOG_METHOD`.
  unfoldable pub log_method : String → String → W → W
  log_method class_name function w = core.push trace (class_name ∷ "::" ∷ function ∷ []) w

  -- `RCPLANE_LOG_ENABLE` and `RCPLANE_LOG_DISABLE`.
  unfoldable pub log_enable : W → W
  log_enable w = core.set_logging_enabled true w

  unfoldable pub log_disable : W → W
  log_disable w = core.set_logging_enabled false w

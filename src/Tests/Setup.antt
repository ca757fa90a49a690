-- ===== src/Tests/Setup.antt =====
-- The configuration, the constructor and the sketch at concrete values.
use rc_plane.Base.{ℕ, ◌≡◌, refl, Bool, true, false, none, some, [], ◌∷◌, String}
use rc_plane.Base.Int.{ℤ, pos, negsuc}
use rc_plane.Double.Fixed.{Fixed, fixed_double}
use rc_plane.Io.Config.{
  JsonLibrary, ConfigManager, Parsed, parsed, JsonException, type_error, Result, ok, raised,
  accumulate, get_value,
}
use rc_plane.Io.Config.Missing.{IsJson, get_value-missing}
use rc_plane.Io.Serial.Loopback.{Line, loopback}
use rc_plane.Autopilot.Manager.{manual, is_in_manual_mode, is_in_stabilize_mode}
use rc_plane.Mcu.{packet_state}
use rc_plane.Mcu.Flags.{mode_follows_switch}
use rc_plane.Som.Controller.{SomController, returned}
use rc_plane.Som.Setup.{construct, equipped}
use rc_plane.Som.Setup.Ready.{IsReady, construct-IsReady}
use rc_plane.Tests.Data.{utility, gains, sticks, assisted, tilted, deflected}
use rc_plane.Tests.Autopilot.{stabilizing, flight_run, trigger_run}
use rc_plane.Tests.Som.{line_queues}

-- Every path is split alike. A value is null, a text, a number, or an object whose members are all the same.
pub data Json : Type 0 where
  null : Json
  text : String → Json
  number : ℕ → Json
  object : Json → Json

abbrev pub element : Json → String → Result Json
element null part = ok null
element (text s) part = raised type_error
element (number n) part = raised type_error
element (object j) part = ok j

abbrev pub get_text : Json → Result String
get_text (text s) = ok s
get_text _ = raised type_error

abbrev pub get_number : Json → Result ℕ
get_number (number n) = ok n
get_number _ = raised type_error

abbrev pub get_integer : Json → Result ℤ
get_integer (number n) = ok (pos n)
get_integer _ = raised type_error

abbrev pub get_fixed : Json → Result Fixed
get_fixed (number n) = ok (some (pos n))
get_fixed _ = raised type_error

-- Without indentation, and with one name for all members.
abbrev pub dump : Json → String
dump null = "null"
dump (text s) = s
dump (number n) = "number"
dump (object j) = "object"

abbrev pub json_library : JsonLibrary Json Fixed
json_library = record {
  null = null;
  split_at_dots = λ _. "motor" ∷ "speed" ∷ "max" ∷ [];
  element = element;
  get_string = get_text;
  get_uint32 = get_number;
  get_uint8 = get_number;
  get_int8 = get_integer;
  get_double = get_fixed;
  dump = λ j _. dump j;
}

abbrev is_object : Json → Bool
is_object (object j) = true
is_object _ = false

-- An object whose members are null has none.
abbrev has_key : Json → String → Bool
has_key (object null) _ = false
has_key (object j) _ = true
has_key _ _ = false

absent :
    (j : Json) (part : String)
    → is_object j ≡ true
    → has_key j part ≡ false
    → element j part ≡ ok null
absent (object null) part h k = refl
absent (object (object j)) part h k = cc
absent (object (text s)) part h k = cc
absent (object (number n)) part h k = cc
absent null part h k = cc
absent (text s) part h k = cc
absent (number n) part h k = cc

element_raised :
    (j : Json) (part : String) (e : JsonException) → element j part ≡ raised e → e ≡ type_error
element_raised null part e h = cc
element_raised (text s) part e h = cc
element_raised (number n) part e h = cc
element_raised (object j) part e h = cc

pub json_library-IsJson : IsJson json_library
json_library-IsJson = record {
  is_object = is_object;
  has_key = has_key;
  element-absent = absent;
  element-raised = element_raised;
  element-null = λ part. refl;
  get_string-null = refl;
  get_uint32-null = refl;
  get_uint8-null = refl;
  get_int8-null = refl;
  get_double-null = refl;
}

abbrev nested_config : ConfigManager Json
nested_config = record { json = object (object null); config_loaded = true }

reaches_object : accumulate json_library (object (object null)) ("motor" ∷ []) ≡ ok (object null)
unfolding accumulate
reaches_object = refl

get_value-missing_example :
    (get_value json_library json_library.get_string nested_config "motor.speed.max"
      ≡ raised type_error)
    × (get_value json_library json_library.get_uint32 nested_config "motor.speed.max"
        ≡ raised type_error)
    × (get_value json_library json_library.get_uint8 nested_config "motor.speed.max"
        ≡ raised type_error)
    × (get_value json_library json_library.get_int8 nested_config "motor.speed.max"
        ≡ raised type_error)
    × (get_value json_library json_library.get_double nested_config "motor.speed.max"
        ≡ raised type_error)
unfolding json_library-IsJson
get_value-missing_example =
    get_value-missing json_library json_library-IsJson nested_config "motor.speed.max" "speed"
      ("motor" ∷ []) ("max" ∷ []) (object null) refl reaches_object refl refl

-- The switch is off and the roll stick is moved.
sticks_state : sticks.state ≡ packet_state 1500 (negsuc 49) (pos 2)
unfolding packet_state
sticks_state = refl

mode_follows_switch_example :
    (is_in_manual_mode (record stabilizing { autopilot = manual; prev_state = 0 }) ≡ true)
    × (is_in_stabilize_mode (record stabilizing { autopilot = manual; prev_state = 0 }) ≡ false)
mode_follows_switch_example =
    mode_follows_switch utility gains ((assisted, tilted) ∷ []) stabilizing
      (record stabilizing { autopilot = manual; prev_state = 0 }) sticks tilted deflected 1500
      (negsuc 49) (pos 2) flight_run sticks_state trigger_run

-- A library whose one value is the number 20, which can be read as anything.
abbrev lenient : JsonLibrary ℕ Fixed
lenient = record {
  null = 0;
  split_at_dots = λ path. path ∷ [];
  element = λ j _. ok j;
  get_string = λ _. ok "name";
  get_uint32 = λ j. ok j;
  get_uint8 = λ j. ok j;
  get_int8 = λ j. ok (pos j);
  get_double = λ j. ok (some (pos j));
  dump = λ _ _. "20";
}

abbrev twenty_file : String → Line → Parsed ℕ × Line
twenty_file _ w = (parsed 20, w)

abbrev twenty : SomController Unit Fixed
twenty =
    equipped 20 20
      (record {
        tty_dev = "name";
        baud_rate = 20;
        read_timeout_ms = 20;
        write_timeout_ms = 20;
        handshake_termination_str = "name";
        stream_buffer = [];
      })
      (record {
        max_throttle = 20;
        max_aileron_deflection = pos 20;
        max_elevator_deflection = pos 20;
        max_rudder_deflection = pos 20;
      })
      (record {
        max_aileron_deflection = some (pos 20);
        kp = some (pos 20);
        ki = some (pos 20);
        kd = some (pos 20);
        tau = some (pos 20);
        max_integral_error = some (pos 20);
      })
      (record {
        debug_message_queue_name = "name";
        attitude_message_queue_name = "name";
        onboard_message_queue_name = "name";
        message_queue_size = 20;
        debug_message_queue = some tt;
        attitude_message_queue = some tt;
        onboard_message_queue = some tt;
      })

constructed : construct line_queues lenient twenty_file none [] ≡ some (returned (twenty, []))
unfolding construct
constructed = refl

construct-IsReady_example : IsReady twenty
construct-IsReady_example =
    construct-IsReady line_queues lenient twenty_file none [] [] twenty constructed

-- ===== src/Io/Config.antt =====
-- impl/src/io/ConfigManager.cpp and impl/include/rcplane/io/ConfigManager.hpp: the configuration file.
-- The JSON library, the split of a path at its dots and the file are parameters. An exception of
-- the parser is `none`, and those of the walk along a path are told apart.
pub mod Missing
pub mod Constructors
pub mod Loads
use rc_plane.Base.{ℕ, Bool, true, false, Option, none, some, List, [], ◌∷◌, String}
use rc_plane.Base.Int.{ℤ}

-- The exceptions of the JSON library that the walk along a path can meet.
pub data JsonException : Type 0 where
  type_error out_of_range : JsonException

pub data Result (A : Type 0) : Type 0 where
  raised : JsonException → Result A
  ok : A → Result A

infixl 5 ◌>>=◌
abbrev pub ◌>>=◌ : {A B : Type 0} → Result A → (A → Result B) → Result B
raised e >>= _ = raised e
ok a >>= next = next a

-- For callers in which an exception is `none`.
abbrev pub to_option : {A : Type 0} → Result A → Option A
to_option (ok a) = some a
to_option (raised e) = none

-- `element` is `operator[]` on a value that may be changed, the `get_` fields are instances of `get<T>`, and
-- `dump` takes the width of the indentation.
pub record JsonLibrary (J F : Type 0) : Type 0 where
  pub null : J
  pub split_at_dots : String → List String
  pub element : J → String → Result J
  pub get_string : J → Result String
  pub get_uint32 : J → Result ℕ
  pub get_uint8 : J → Result ℕ
  pub get_int8 : J → Result ℤ
  pub get_double : J → Result F
  pub dump : J → ℕ → String

-- What opening and parsing a file comes to.
pub data Parsed (J : Type 0) : Type 0 where
  not_open parse_error : Parsed J
  parsed : J → Parsed J

pub record ConfigManager (J : Type 0) : Type 0 where
  pub json : J
  pub config_loaded : Bool

-- `m_json` and `m_configLoaded` after the constructor, where the former is null.
abbrev pub config_manager : {J F : Type 0} → JsonLibrary J F → ConfigManager J
config_manager library = record { json = library.null; config_loaded = false }

unfoldable pub is_config_loaded : {J : Type 0} → ConfigManager J → Bool
is_config_loaded c = c.config_loaded

unfoldable pub load_config :
    {J : Type 0} → ConfigManager J → Parsed J → Option (Bool × ConfigManager J)
load_config c not_open = some (false, c)
load_config c parse_error = none
load_config c (parsed j) = some (true, record { json = j; config_loaded = true })

module _ {J F : Type 0} (library : JsonLibrary J F) where
  -- `std::accumulate` over the parts of the path. It works on copies.
  unfoldable pub accumulate : J → List String → Result J
  accumulate j [] = ok j
  accumulate j (part ∷ parts) = do j' ← library.element j part; accumulate j' parts

  unfoldable pub get_value : {A : Type 0} → (J → Result A) → ConfigManager J → String → Result A
  unfolding accumulate
  get_value get c path = do j ← accumulate c.json (library.split_at_dots path); get j

  -- `getValue` in a constructor, which an exception leaves.
  unfoldable pub read_value : {A : Type 0} → (J → Result A) → ConfigManager J → String → Option A
  unfolding get_value
  read_value get c path = to_option (get_value get c path)

  unfoldable pub dump_config : ConfigManager J → String
  dump_config c = library.dump c.json 2

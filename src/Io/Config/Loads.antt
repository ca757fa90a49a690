-- ===== src/Io/Config/Loads.antt =====
-- impl/src/io/ConfigManager.cpp: several files loaded in turn.
use rc_plane.Base.{◌≡◌, refl, Bool, true, false, ◌||◌, none, some, List, [], ◌∷◌, arith}
use rc_plane.Io.Config.{
  JsonLibrary, ConfigManager, Parsed, not_open, parse_error, parsed, config_manager, load_config,
  is_config_loaded, dump_config,
}

-- What a call leaves, also where it throws: the parser throws before the assignment.
unfoldable pub after_load : {J : Type 0} → ConfigManager J → Parsed J → ConfigManager J
unfolding load_config
after_load c file = elim (load_config c file) [ none ↦ c | some (_, c') ↦ c' ]

unfoldable pub after_loads : {J : Type 0} → ConfigManager J → List (Parsed J) → ConfigManager J
unfolding after_load
after_loads c [] = c
after_loads c (file ∷ files) = after_loads (after_load c file) files

-- The last value that was parsed, or the given one.
last_parsed : {J : Type 0} → J → List (Parsed J) → J
last_parsed j [] = j
last_parsed j (not_open ∷ files) = last_parsed j files
last_parsed j (parse_error ∷ files) = last_parsed j files
last_parsed j (parsed j' ∷ files) = last_parsed j' files

has_parsed : {J : Type 0} → List (Parsed J) → Bool
has_parsed [] = false
has_parsed (not_open ∷ files) = has_parsed files
has_parsed (parse_error ∷ files) = has_parsed files
has_parsed (parsed j ∷ files) = true

after_loads_lem :
    {J : Type 0} (c : ConfigManager J) (files : List (Parsed J))
    → after_loads c files ≡ record {
      json = last_parsed c.json files;
      config_loaded = c.config_loaded || has_parsed files;
    }
unfolding after_loads last_parsed has_parsed
after_loads_lem c [] = ground arith
after_loads_lem c (not_open ∷ files) = after_loads_lem c files
after_loads_lem c (parse_error ∷ files) = after_loads_lem c files
after_loads_lem c (parsed j ∷ files) =
    let rest = after_loads_lem (record { json = j; config_loaded = true }) files in ground arith

-- From the constructor on, and after any files, of which some may have been missing and some
-- malformed: a configuration counts as loaded exactly if one of them was parsed, and it is the last
-- of these that is dumped, with an indentation of two.
after_loads-dump_config :
    {J F : Type 0} (library : JsonLibrary J F) (files : List (Parsed J))
    → (is_config_loaded (after_loads (config_manager library) files) ≡ has_parsed files)
      × (dump_config library (after_loads (config_manager library) files)
          ≡ library.dump (last_parsed library.null files) 2)
unfolding is_config_loaded dump_config
after_loads-dump_config library files =
    let e = after_loads_lem (config_manager library) files in (rw e refl, rw e refl)

-- ===== src/Io/Config/Missing.antt =====
-- A path that does not exist.
use rc_plane.Base.{
  ◌≡◌, ◌⊎◌, inl, inr, refl, ◌∙◌, ap, Bool, true, false, List, [], ◌∷◌, ◌++◌, String,
}
use rc_plane.Io.Config.{
  JsonLibrary, ConfigManager, JsonException, type_error, Result, ok, raised, ◌>>=◌, accumulate,
  get_value,
}

-- What nlohmann/json documents: `operator[]` on a value that may be changed inserts null under a key
-- that an object does not have, makes an object of null first, and throws a type error on any other
-- value; and `get<T>` throws nothing but a type error, which it does on null for the types in use.
pub record IsJson {J F : Type 0} (library : JsonLibrary J F) : Type 0 where
  pub is_object : J → Bool
  pub has_key : J → String → Bool
  pub element-null : (part : String) → library.element library.null part ≡ ok library.null
  pub element-absent :
      (j : J) (part : String)
      → is_object j ≡ true
      → has_key j part ≡ false
      → library.element j part ≡ ok library.null
  pub element-raised :
      (j : J) (part : String) (e : JsonException)
      → library.element j part ≡ raised e
      → e ≡ type_error
  pub get_string-null : library.get_string library.null ≡ raised type_error
  pub get_uint32-null : library.get_uint32 library.null ≡ raised type_error
  pub get_uint8-null : library.get_uint8 library.null ≡ raised type_error
  pub get_int8-null : library.get_int8 library.null ≡ raised type_error
  pub get_double-null : library.get_double library.null ≡ raised type_error

-- How a chain came to its outcome.
chain_cases :
    {A B : Type 0} (m : Result A) (next : A → Result B) (outcome : Result B)
    → (m >>= next) ≡ outcome
    → ((e : JsonException) × (m ≡ raised e) × (raised e ≡ outcome))
      ⊎ ((a : A) × (m ≡ ok a) × (next a ≡ outcome))
chain_cases (raised e) next outcome h = inl (e, refl, h)
chain_cases (ok a) next outcome h = inr (a, refl, h)

module _ {J F : Type 0} (library : JsonLibrary J F) (laws : IsJson library) where
  -- Before any file is loaded, each path leads to null.
  pub accumulate-null :
      (parts : List String) → accumulate library library.null parts ≡ ok library.null
  unfolding accumulate
  accumulate-null [] = refl
  accumulate-null (part ∷ parts) = rw (laws.element-null part) (accumulate-null parts)

  -- A walk that goes on where another one ended.
  accumulate-append :
      (front rest : List String) (j j' : J)
      → accumulate library j front ≡ ok j'
      → accumulate library j (front ++ rest) ≡ accumulate library j' rest
  unfolding accumulate
  accumulate-append [] rest j j' e = ap (λ (x : J). accumulate library x rest) (same j j' e)
    where
      same : (j j' : J) → ◌≡◌ {A = Result J} (ok j) (ok j') → j ≡ j'
      same j j' e = cc
  accumulate-append (part ∷ front) rest j j' e =
      elim (chain_cases (library.element j part) _ (ok j') e) [
        | inl (_, _, refused) ↦ cc
        | inr (j₁, h, k) ↦ rw h (accumulate-append front rest j₁ j' k)
      ]

  -- The walk past a missing key ends at null.
  accumulate-missing :
      (front rest : List String) (key : String) (j j' : J)
      → accumulate library j front ≡ ok j'
      → laws.is_object j' ≡ true
      → laws.has_key j' key ≡ false
      → accumulate library j (front ++ key ∷ rest) ≡ ok library.null
  unfolding accumulate
  accumulate-missing front rest key j j' e object absent =
      accumulate-append front (key ∷ rest) j j' e
      ∙ rw (laws.element-absent j' key object absent) (accumulate-null rest)

  pub get_value-null :
      (c : ConfigManager J) (path : String)
      → accumulate library c.json (library.split_at_dots path) ≡ ok library.null
      → (get_value library library.get_string c path ≡ raised type_error)
        × (get_value library library.get_uint32 c path ≡ raised type_error)
        × (get_value library library.get_uint8 c path ≡ raised type_error)
        × (get_value library library.get_int8 c path ≡ raised type_error)
        × (get_value library library.get_double c path ≡ raised type_error)
  unfolding get_value
  get_value-null c path e = (
    rw e laws.get_string-null,
    rw e laws.get_uint32-null,
    rw e laws.get_uint8-null,
    rw e laws.get_int8-null,
    rw e laws.get_double-null,
  )

  -- If the keys at the front of a path lead to an object that does not have the next key, then
  -- `getValue` throws a type error for each of the five types, whatever follows in the path.
  pub get_value-missing :
      (c : ConfigManager J) (path key : String) (front rest : List String) (j : J)
      → library.split_at_dots path ≡ front ++ key ∷ rest
      → accumulate library c.json front ≡ ok j
      → laws.is_object j ≡ true
      → laws.has_key j key ≡ false
      → (get_value library library.get_string c path ≡ raised type_error)
        × (get_value library library.get_uint32 c path ≡ raised type_error)
        × (get_value library library.get_uint8 c path ≡ raised type_error)
        × (get_value library library.get_int8 c path ≡ raised type_error)
        × (get_value library library.get_double c path ≡ raised type_error)
  get_value-missing c path key front rest j split e object absent = get_value-null c path (
      ap (accumulate library c.json) split
      ∙ accumulate-missing front rest key c.json j e object absent)

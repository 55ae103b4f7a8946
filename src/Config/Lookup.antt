-- ===== src/Config/Lookup.antt =====
-- crates/m3-config/src/settings.rs: the value of a key and where it comes from. What is logged about
-- leftover environment names is left out, since it changes no value.
pub mod Origin
pub mod Accessors
use m3_core_rs.Base.{
  ◌≡◌, refl, Bool, true, Option, none, some, List, if◌then◌else◌, ℤ, int_le, Chars, lookup,
  Bool-cases, inl, inr, is_empty, trim,
}
use m3_core_rs.Config.{
  Key, Value, bool_value, int_value, str_value, path_value, Toml, Misfit, Read, good, bad,
  from_toml,
}

-- Where a value comes from: the flag, the file or neither.
pub data Source : Type 0 where
  set : Chars → Source
  from_file : Chars → Chars → Source
  by_default : Source

pub data ConfigError : Type 0 where
  in_set : Chars → Misfit → ConfigError
  in_file : Chars → Key → Misfit → ConfigError
  kind_mismatch : Key → Value → ConfigError
  does_not_fit : Key → ℤ → Source → ConfigError

pub data Got (A : Type 0) : Type 0 where
  ok : A → Got A
  err : ConfigError → Got A

-- The file's path and the config root, whether the file exists, the values of the file and of the
-- flag, and the way to expand `~`.
pub record Config : Type 0 where
  pub location : Chars
  pub root : Chars
  pub present : Bool
  pub file : List (Chars × Toml)
  pub set_values : List (Chars × Toml)
  pub home : Option (Option Chars)

module _ (components : Chars → Chars) where
  set_value : Key → Read Value → Got (Option (Value × Source))
  set_value key (bad e) = err (in_set key.name e)
  set_value key (good v) = ok (some (v, set key.name))

  file_value : Config → Key → Read Value → Got (Option (Value × Source))
  file_value cfg key (bad e) = err (in_file cfg.location key e)
  file_value cfg key (good v) = ok (some (v, from_file key.name cfg.location))

  got : Config → Key → Option Toml → Option Toml → Got (Option (Value × Source))
  unfolding set_value file_value from_toml
  got cfg key (some raw) of_file = set_value key (from_toml components key.kind raw cfg.home)
  got cfg key none (some raw) = file_value cfg key (from_toml components key.kind raw cfg.home)
  got cfg key none none = ok none

  unfoldable pub get : Config → Key → Got (Option (Value × Source))
  unfolding got lookup
  get cfg key = got cfg key (lookup key.name cfg.set_values) (lookup key.name cfg.file)

  bool_from : Key → Bool → Got (Option (Value × Source)) → Got (Bool × Source)
  bool_from key d (err e) = err e
  bool_from key d (ok none) = ok (d, by_default)
  bool_from key d (ok (some (bool_value b, s))) = ok (b, s)
  bool_from key d (ok (some (other, s))) = err (kind_mismatch key other)

  unfoldable pub bool_or : Config → Key → Bool → Got (Bool × Source)
  unfolding bool_from get
  bool_or cfg key d = bool_from key d (get cfg key)

  -- `fits` is the conversion to the caller's integer type.
  int_from : (ℤ → Bool) → Key → ℤ → Got (Option (Value × Source)) → Got (ℤ × Source)
  int_from fits key d (err e) = err e
  int_from fits key d (ok none) = ok (d, by_default)
  int_from fits key d (ok (some (int_value i, s))) =
      if fits i then ok (i, s) else err (does_not_fit key i s)
  int_from fits key d (ok (some (other, s))) = err (kind_mismatch key other)

  unfoldable pub int_or : (ℤ → Bool) → Config → Key → ℤ → Got (ℤ × Source)
  unfolding int_from get
  int_or fits cfg key d = int_from fits key d (get cfg key)

  str_from : Key → Got (Option (Value × Source)) → Got (Option (Chars × Source))
  str_from key (err e) = err e
  str_from key (ok none) = ok none
  str_from key (ok (some (str_value v, s))) = ok (some (v, s))
  str_from key (ok (some (other, s))) = err (kind_mismatch key other)

  unfoldable pub string : Config → Key → Got (Option (Chars × Source))
  unfolding str_from get
  string cfg key = str_from key (get cfg key)

  path_from : Key → Got (Option (Value × Source)) → Got (Option (Chars × Source))
  path_from key (err e) = err e
  path_from key (ok none) = ok none
  path_from key (ok (some (path_value v, s))) = ok (some (v, s))
  path_from key (ok (some (other, s))) = err (kind_mismatch key other)

  unfoldable pub path : Config → Key → Got (Option (Chars × Source))
  unfolding path_from get
  path cfg key = path_from key (get cfg key)

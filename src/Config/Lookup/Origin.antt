-- ===== src/Config/Lookup/Origin.antt =====
-- crates/m3-config/src/settings.rs: where the value that `get` answers comes from.
use m3_core_rs.Base.{
  ◌≡◌, refl, true, Option, none, some, ℤ, int_le, Chars, lookup, Bool-cases, inl, inr, is_empty,
  trim,
}
use m3_core_rs.Config.{
  Kind, of_bool, of_int, of_str, of_path, Key, Value, bool_value, int_value, str_value, path_value,
  Toml, string, float, datetime, integer, boolean, array, table, Read, good, bad, int_in_range,
  path_of, from_toml,
}
use m3_core_rs.Config.Lookup.{
  Source, set, from_file, by_default, ConfigError, in_set, in_file, Config, Got, ok, err, set_value,
  file_value, got, get,
}

-- A value of the key's type.
abbrev pub Typed : Kind → Value → Type 0
Typed of_bool (bool_value b) = Unit
Typed (of_int lo hi) (int_value i) = (int_le lo i ≡ true) × (int_le i hi ≡ true)
Typed of_str (str_value s) = Unit
Typed of_path (path_value p) = Unit
Typed kind value = ⊥

-- A refusal of what the flag or the file says.
abbrev pub Misread : ConfigError → Type 0
Misread (in_set name e) = Unit
Misread (in_file file key e) = Unit
Misread e = ⊥

module _ (components : Chars → Chars) where
  abbrev ReadTyped : Kind → Read Value → Type 0
  ReadTyped kind (good v) = Typed kind v
  ReadTyped kind (bad e) = Unit

  int_in_range-ReadTyped : (lo hi v : ℤ) → ReadTyped (of_int lo hi) (int_in_range lo hi v)
  unfolding int_in_range
  int_in_range-ReadTyped lo hi v = elim (Bool-cases (int_le lo v)) [
    | inl l ↦ elim (Bool-cases (int_le v hi)) [ inl h ↦ rw (l, h) (l, h) | inr h ↦ rw (l, h) tt ]
    | inr l ↦ rw l tt
  ]

  path_of-ReadTyped :
      (home : Option (Option Chars)) (raw : Chars) → ReadTyped of_path (path_of components home raw)
  unfolding path_of
  path_of-ReadTyped home raw = elim (Bool-cases (is_empty (trim raw))) [
    | inl e ↦ rw e tt
    | inr e ↦ rw e tt
  ]

  from_toml-ReadTyped :
      (kind : Kind) (raw : Toml) (home : Option (Option Chars))
      → ReadTyped kind (from_toml components kind raw home)
  unfolding from_toml
  from_toml-ReadTyped of_bool (string s) home = tt
  from_toml-ReadTyped of_bool (float s) home = tt
  from_toml-ReadTyped of_bool (datetime s) home = tt
  from_toml-ReadTyped of_bool (integer i) home = tt
  from_toml-ReadTyped of_bool (boolean b) home = tt
  from_toml-ReadTyped of_bool (array a) home = tt
  from_toml-ReadTyped of_bool (table t) home = tt
  from_toml-ReadTyped (of_int lo hi) (string s) home = tt
  from_toml-ReadTyped (of_int lo hi) (float s) home = tt
  from_toml-ReadTyped (of_int lo hi) (datetime s) home = tt
  from_toml-ReadTyped (of_int lo hi) (integer i) home = int_in_range-ReadTyped lo hi i
  from_toml-ReadTyped (of_int lo hi) (boolean b) home = tt
  from_toml-ReadTyped (of_int lo hi) (array a) home = tt
  from_toml-ReadTyped (of_int lo hi) (table t) home = tt
  from_toml-ReadTyped of_str (string s) home = tt
  from_toml-ReadTyped of_str (float s) home = tt
  from_toml-ReadTyped of_str (datetime s) home = tt
  from_toml-ReadTyped of_str (integer i) home = tt
  from_toml-ReadTyped of_str (boolean b) home = tt
  from_toml-ReadTyped of_str (array a) home = tt
  from_toml-ReadTyped of_str (table t) home = tt
  from_toml-ReadTyped of_path (string s) home = path_of-ReadTyped home s
  from_toml-ReadTyped of_path (float s) home = tt
  from_toml-ReadTyped of_path (datetime s) home = tt
  from_toml-ReadTyped of_path (integer i) home = tt
  from_toml-ReadTyped of_path (boolean b) home = tt
  from_toml-ReadTyped of_path (array a) home = tt
  from_toml-ReadTyped of_path (table t) home = tt

  pub get-set :
      (cfg : Config) (key : Key) (raw : Toml) (v : Value)
      → lookup key.name cfg.set_values ≡ some raw
      → from_toml components key.kind raw cfg.home ≡ good v
      → get components cfg key ≡ ok (some (v, set key.name))
  unfolding get got set_value
  get-set cfg key raw v l e = rw (l, e) refl

  -- The value is the one of the flag, or else the one of the file.
  abbrev pub Origin : Config → Key → Value → Source → Type 0
  Origin cfg key v (set name) =
      (raw : Toml) × (name ≡ key.name)
      × (lookup key.name cfg.set_values ≡ some raw)
      × (from_toml components key.kind raw cfg.home ≡ good v)
  Origin cfg key v (from_file name path) =
      (raw : Toml) × (name ≡ key.name)
      × (path ≡ cfg.location)
      × (lookup key.name cfg.set_values ≡ none)
      × (lookup key.name cfg.file ≡ some raw)
      × (from_toml components key.kind raw cfg.home ≡ good v)
  Origin cfg key v by_default = ⊥

  abbrev pub Sound : Config → Key → Got (Option (Value × Source)) → Type 0
  Sound cfg key (err e) = Misread e
  Sound cfg key (ok none) =
      (lookup key.name cfg.set_values ≡ none) × (lookup key.name cfg.file ≡ none)
  Sound cfg key (ok (some (v, s))) = Typed key.kind v × Origin cfg key v s

  set_value-Sound :
      (cfg : Config) (key : Key) (raw : Toml) (r : Read Value)
      → lookup key.name cfg.set_values ≡ some raw
      → from_toml components key.kind raw cfg.home ≡ r
      → ReadTyped key.kind r
      → Sound cfg key (set_value components key r)
  unfolding set_value
  set_value-Sound cfg key raw (good v) l e t = (t, (raw, refl, l, e))
  set_value-Sound cfg key raw (bad x) l e t = tt

  file_value-Sound :
      (cfg : Config) (key : Key) (raw : Toml) (r : Read Value)
      → lookup key.name cfg.set_values ≡ none
      → lookup key.name cfg.file ≡ some raw
      → from_toml components key.kind raw cfg.home ≡ r
      → ReadTyped key.kind r
      → Sound cfg key (file_value components cfg key r)
  unfolding file_value
  file_value-Sound cfg key raw (good v) l m e t = (t, (raw, refl, refl, l, m, e))
  file_value-Sound cfg key raw (bad x) l m e t = tt

  got-Sound :
      (cfg : Config) (key : Key) (of_set of_file : Option Toml)
      → lookup key.name cfg.set_values ≡ of_set
      → lookup key.name cfg.file ≡ of_file
      → Sound cfg key (got components cfg key of_set of_file)
  unfolding got
  got-Sound cfg key (some raw) of_file l m =
      set_value-Sound cfg key raw _ l refl (from_toml-ReadTyped key.kind raw cfg.home)
  got-Sound cfg key none (some raw) l m =
      file_value-Sound cfg key raw _ l m refl (from_toml-ReadTyped key.kind raw cfg.home)
  got-Sound cfg key none none l m = (l, m)

  pub get-Sound : (cfg : Config) (key : Key) → Sound cfg key (get components cfg key)
  unfolding get
  get-Sound cfg key = got-Sound cfg key _ _ refl refl

  -- A value that is found for a key is of the key's type, in its range for an integer, and comes from
  -- the flag if that sets the key, and otherwise from the file, as the source says.
  pub get-Origin :
      (cfg : Config) (key : Key) (v : Value) (s : Source)
      → get components cfg key ≡ ok (some (v, s))
      → Typed key.kind v × Origin cfg key v s
  get-Origin cfg key v s e = coe_sound (get-Sound cfg key) e
    where
      coe_sound :
          {g : Got (Option (Value × Source))}
          → Sound cfg key g
          → g ≡ ok (some (v, s))
          → Typed key.kind v × Origin cfg key v s
      coe_sound y e = rw e at y

-- ===== src/Config/Lookup/Accessors.antt =====
-- crates/m3-config/src/settings.rs: what `bool_or`, `int_or`, `string` and `path` answer for a key.
use m3_core_rs.Base.{◌≡◌, refl, Bool, true, Option, none, some, ℤ, int_le, Chars}
use m3_core_rs.Config.{
  Kind, of_bool, of_int, of_str, of_path, Key, Value, bool_value, int_value, str_value, path_value,
}
use m3_core_rs.Config.Lookup.{
  Source, set, from_file, by_default, Config, Got, ok, err, bool_from, int_from, str_from,
  path_from, bool_or, int_or, string, path,
}
use m3_core_rs.Config.Lookup.Origin.{Typed, Misread, Origin, Sound, get-Sound}

-- A value, or a refusal of what the flag or the file says.
abbrev pub Answered : {A : Type 0} → Got A → Type 0
Answered (ok a) = Unit
Answered (err e) = Misread e

-- An integer between two others from the flag or the file, or else the default.
abbrev pub Ranged : ℤ → ℤ → ℤ → Got (ℤ × Source) → Type 0
Ranged lo hi d (ok (i, by_default)) = i ≡ d
Ranged lo hi d (ok (i, set name)) = (int_le lo i ≡ true) × (int_le i hi ≡ true)
Ranged lo hi d (ok (i, from_file name file)) = (int_le lo i ≡ true) × (int_le i hi ≡ true)
Ranged lo hi d (err e) = Misread e

-- What the accessor for the kind of the key answers.
abbrev pub Accessed :
    Kind
    → ℤ
    → Got (Bool × Source)
    → Got (ℤ × Source)
    → Got (Option (Chars × Source))
    → Got (Option (Chars × Source))
    → Type 0
Accessed of_bool d b i s p = Answered b
Accessed (of_int lo hi) d b i s p = Ranged lo hi d i
Accessed of_str d b i s p = Answered s
Accessed of_path d b i s p = Answered p

-- An integer of the key's range fits the caller's type.
abbrev pub Fits : Kind → (ℤ → Bool) → Type 0
Fits kind fits = (i : ℤ) → Typed kind (int_value i) → fits i ≡ true

module _ (components : Chars → Chars) where
  int_found :
      (fits : ℤ → Bool) (cfg : Config) (key : Key) (lo hi d i : ℤ) (s : Source)
      → (int_le lo i ≡ true) × (int_le i hi ≡ true)
      → fits i ≡ true
      → Origin components cfg key (int_value i) s
      → Ranged lo hi d (int_from components fits key d (ok (some (int_value i, s))))
  unfolding int_from
  int_found fits cfg key lo hi d i (set name) r f o = rw f r
  int_found fits cfg key lo hi d i (from_file name file) r f o = rw f r
  int_found fits cfg key lo hi d i by_default r f o = elim o [ ]

  -- The answer of `get` for a key of the kind.
  abbrev Found : Kind → Config → Key → Got (Option (Value × Source)) → Type 0
  Found kind cfg key (err e) = Misread e
  Found kind cfg key (ok none) = Unit
  Found kind cfg key (ok (some (v, s))) = Typed kind v × Origin components cfg key v s

  Sound-Found :
      (cfg : Config) (key : Key) (g : Got (Option (Value × Source)))
      → Sound components cfg key g
      → Found key.kind cfg key g
  Sound-Found cfg key (err e) y = y
  Sound-Found cfg key (ok none) y = tt
  Sound-Found cfg key (ok (some (v, s))) y = y

  value-Accessed :
      (fits : ℤ → Bool) (cfg : Config) (key : Key) (b : Bool) (d : ℤ) (kind : Kind) (v : Value)
      (s : Source)
      → Fits kind fits
      → Typed kind v × Origin components cfg key v s
      → Accessed kind d
          (bool_from components key b (ok (some (v, s))))
          (int_from components fits key d (ok (some (v, s))))
          (str_from components key (ok (some (v, s))))
          (path_from components key (ok (some (v, s))))
  unfolding bool_from int_from str_from path_from
  value-Accessed fits cfg key b d of_bool (bool_value v) s f y = tt
  value-Accessed fits cfg key b d of_bool (int_value i) s f y = elim y.0 [ ]
  value-Accessed fits cfg key b d of_bool (str_value v) s f y = elim y.0 [ ]
  value-Accessed fits cfg key b d of_bool (path_value v) s f y = elim y.0 [ ]
  value-Accessed fits cfg key b d (of_int lo hi) (bool_value v) s f y = elim y.0 [ ]
  value-Accessed fits cfg key b d (of_int lo hi) (int_value i) s f y =
      int_found fits cfg key lo hi d i s y.0 (f i y.0) y.1
  value-Accessed fits cfg key b d (of_int lo hi) (str_value v) s f y = elim y.0 [ ]
  value-Accessed fits cfg key b d (of_int lo hi) (path_value v) s f y = elim y.0 [ ]
  value-Accessed fits cfg key b d of_str (bool_value v) s f y = elim y.0 [ ]
  value-Accessed fits cfg key b d of_str (int_value i) s f y = elim y.0 [ ]
  value-Accessed fits cfg key b d of_str (str_value v) s f y = tt
  value-Accessed fits cfg key b d of_str (path_value v) s f y = elim y.0 [ ]
  value-Accessed fits cfg key b d of_path (bool_value v) s f y = elim y.0 [ ]
  value-Accessed fits cfg key b d of_path (int_value i) s f y = elim y.0 [ ]
  value-Accessed fits cfg key b d of_path (str_value v) s f y = elim y.0 [ ]
  value-Accessed fits cfg key b d of_path (path_value v) s f y = tt

  found-Accessed :
      (fits : ℤ → Bool) (cfg : Config) (key : Key) (b : Bool) (d : ℤ) (kind : Kind)
      (g : Got (Option (Value × Source)))
      → Fits kind fits
      → Found kind cfg key g
      → Accessed kind d
          (bool_from components key b g)
          (int_from components fits key d g)
          (str_from components key g)
          (path_from components key g)
  unfolding bool_from int_from str_from path_from
  found-Accessed fits cfg key b d of_bool (err e) f y = y
  found-Accessed fits cfg key b d of_bool (ok none) f y = tt
  found-Accessed fits cfg key b d (of_int lo hi) (err e) f y = y
  found-Accessed fits cfg key b d (of_int lo hi) (ok none) f y = refl
  found-Accessed fits cfg key b d of_str (err e) f y = y
  found-Accessed fits cfg key b d of_str (ok none) f y = tt
  found-Accessed fits cfg key b d of_path (err e) f y = y
  found-Accessed fits cfg key b d of_path (ok none) f y = tt
  found-Accessed fits cfg key b d kind (ok (some (v, s))) f y =
      value-Accessed fits cfg key b d kind v s f y

  -- The accessor for the kind of a key never finds a value of another kind: it refuses only what the
  -- flag or the file says. The answer of `int_or` is in the key's range or the default, and always
  -- fits, where the key's range fits the caller's type.
  pub typed_answers :
      (fits : ℤ → Bool) (cfg : Config) (key : Key) (b : Bool) (d : ℤ)
      → Fits key.kind fits
      → Accessed key.kind d
          (bool_or components cfg key b)
          (int_or components fits cfg key d)
          (string components cfg key)
          (path components cfg key)
  unfolding bool_or int_or string path
  typed_answers fits cfg key b d f =
      found-Accessed fits cfg key b d key.kind _ f
        (Sound-Found cfg key _ (get-Sound components cfg key))

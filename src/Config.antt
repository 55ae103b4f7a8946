-- ===== src/Config.antt =====
-- crates/m3-config/src/settings.rs: the settings of m3_config.toml and of `--set`: the keys, the
-- values of TOML, and the value of a key. Texts are code points. A refusal keeps what its message is
-- made of.
pub mod Carets
pub mod Lookup
pub mod Flag
mod Tests
use m3_core_rs.Base.{
  ℕ, ◌+◌, ◌≡◌, Bool, true, false, not, ◌&&◌, ◌||◌, Option, none, some, List, [], ◌∷◌, ◌++◌, map,
  ◌==◌, if◌then◌else◌, is_empty, ℤ, int_le, Chars, ascii, text_eq, trim, to_ascii_lowercase,
  strip_prefix,
}

pub data Kind : Type 0 where
  of_bool : Kind
  of_int : ℤ → ℤ → Kind
  of_str of_path : Kind

pub record Key : Type 0 where
  pub name : Chars
  pub kind : Kind
  pub legacy_env : List Chars
  -- Whether `--set` may change it.
  pub flag : Bool

abbrev pub bool_key : Chars → List Chars → Key
bool_key name legacy = record { name = name; kind = of_bool; legacy_env = legacy; flag = true }

abbrev pub int_key : Chars → List Chars → ℤ → ℤ → Key
int_key name legacy lo hi = record {
  name = name;
  kind = of_int lo hi;
  legacy_env = legacy;
  flag = true;
}

abbrev pub string_key : Chars → List Chars → Key
string_key name legacy = record { name = name; kind = of_str; legacy_env = legacy; flag = true }

abbrev pub path_key : Chars → List Chars → Key
path_key name legacy = record { name = name; kind = of_path; legacy_env = legacy; flag = true }

abbrev pub locator : Key → Key
locator key = record key { flag = false }

pub data Value : Type 0 where
  bool_value : Bool → Value
  int_value : ℤ → Value
  str_value path_value : Chars → Value

-- `toml::Value`, of which floats and dates are their text, and a table is its entries.
mutual
  pub data Toml : Type 0 where
    string float datetime : Chars → Toml
    integer : ℤ → Toml
    boolean : Bool → Toml
    array : Items → Toml
    table : Entries → Toml

  pub data Items : Type 0 where
    no_item : Items
    item : Toml → Items → Items

  pub data Entries : Type 0 where
    no_entry : Entries
    entry : Chars → Toml → Entries → Entries

-- Why a value is not of its key's type.
pub data Misfit : Type 0 where
  out_of_range : ℤ → Kind → Misfit
  empty_path : Misfit
  expected : Kind → Toml → Misfit

pub data Read (A : Type 0) : Type 0 where
  good : A → Read A
  bad : Misfit → Read A

unfoldable pub parse_bool : Chars → Option Bool
parse_bool raw =
    let word = map to_ascii_lowercase (trim raw) in
    if text_eq word (ascii "1")
      || text_eq word (ascii "true")
      || text_eq word (ascii "yes")
      || text_eq word (ascii "on")
    then some true
    else if text_eq word (ascii "0")
        || text_eq word (ascii "false")
        || text_eq word (ascii "no")
        || text_eq word (ascii "off")
    then some false
    else none

unfoldable pub int_in_range : ℤ → ℤ → ℤ → Read Value
int_in_range lo hi v =
    if not (int_le lo v) || not (int_le v hi)
    then bad (out_of_range v (of_int lo hi))
    else good (int_value v)

-- `PathBuf::join` with a text, on Unix.
join : Chars → Chars → Chars
join base [] = base ++ ascii "/"
join base (c ∷ rest) = if c == b'/' then c ∷ rest else base ++ b'/' ∷ c ∷ rest

or_else {ℓ} : {A : Type ℓ} → Option A → Option A → Option A
or_else none o = o
or_else (some a) o = some a

expand : Option Chars → Option Chars → Chars → Chars
unfolding join
expand (some []) (some home) p = home
expand (some (c ∷ rest)) (some home) p = join home (c ∷ rest)
expand rest home p = p

-- The argument is the user's home directory, with no slash behind it.
unfoldable pub expand_user : Option Chars → Chars → Chars
unfolding expand or_else strip_prefix
expand_user home p =
    let rest = or_else (strip_prefix (ascii "~/") p) (strip_prefix (ascii "~\\") p) in
    if text_eq p (ascii "~") then expand (some []) home p else expand rest home p

-- `home` is the way to expand `~`, if there is one; `components` rebuilds a path.
module _ (components : Chars → Chars) where
  expanded : Option (Option Chars) → Chars → Chars
  unfolding expand_user
  expanded none p = p
  expanded (some home) p = expand_user home p

  unfoldable pub path_of : Option (Option Chars) → Chars → Read Value
  unfolding expanded
  path_of home raw =
      if is_empty (trim raw)
      then bad empty_path
      else good (path_value (components (expanded home (trim raw))))

  unfoldable pub from_toml : Kind → Toml → Option (Option Chars) → Read Value
  unfolding path_of int_in_range
  from_toml of_bool (boolean b) home = good (bool_value b)
  from_toml (of_int lo hi) (integer i) home = int_in_range lo hi i
  from_toml of_str (string s) home = good (str_value s)
  from_toml of_path (string s) home = path_of home s
  from_toml kind other home = bad (expected kind other)

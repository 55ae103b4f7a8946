-- ===== src/Config/Tests.antt =====
-- Two settings, and the theorems on them.
use m3_core_rs.Base.{
  ◌≡◌, refl, Bool, ◌&&◌, ℤ, negsuc, int_le, leb, arith, true, some, List, [], ◌∷◌, pos, Chars,
  ascii, lookup, text_eq, trim_start, trim_end, is_whitespace, strip_prefix,
}
use m3_core_rs.Config.{
  Key, int_key, path_key, locator, Value, path_value, integer, string, table, no_entry, entry,
  from_toml, int_in_range, path_of, expand_user,
}
use m3_core_rs.Config.Carets.{ok, literal, carets_to_toml, run, step, finish, prepend}
use m3_core_rs.Config.Carets.Quoting.{in_carets, toml_string, carets_to_toml-in_carets}
use m3_core_rs.Config.Lookup.{Config, set, from_file, get, bool_or, int_or, path}
use m3_core_rs.Config.Lookup.Origin.{Typed, Origin, get-Origin}
use m3_core_rs.Config.Lookup.Accessors.{Accessed, Fits, typed_answers}
use m3_core_rs.Config.Lookup
use m3_core_rs.Config.Flag.{
  accepted, Document, parsed, find_key, leaves, entry_problem, problems, set_leaves, document,
  parse_set,
}
use m3_core_rs.Config.Flag.Accepted.{parse_set-get}

carets_to_toml-in_carets_example :
    (carets_to_toml (in_carets (ascii "a^\"b\\")) ≡ ok (literal (ascii "a^\"b\\")))
    × (toml_string (literal (ascii "a^\"b\\")) ≡ some (ascii "a^\"b\\"))
carets_to_toml-in_carets_example = carets_to_toml-in_carets (ascii "a^\"b\\")

carets_test : carets_to_toml (ascii "{a=^x^^^}") ≡ ok (ascii "{a=\"x^\"}")
unfolding carets_to_toml run step finish prepend literal
carets_test = refl

abbrev components : Chars → Chars
components p = p

abbrev port : Key
port = int_key (ascii "embed.port") (ascii "M3_PORT" ∷ []) (pos 1) (pos 65535)

abbrev secrets : Key
secrets = locator (path_key (ascii "secrets.file") [])

abbrev keys : List Key
keys = port ∷ secrets ∷ []

abbrev parse : Chars → Document
parse toml = parsed (
    entry (ascii "set")
      (table (
        entry (ascii "embed") (table (entry (ascii "port") (integer (pos 8083)) no_entry))
          no_entry))
      no_entry)

abbrev cfg : Config
cfg = record {
  location = ascii "/etc/m3_config.toml";
  root = ascii "/etc";
  present = true;
  file = (ascii "secrets.file", string (ascii "~/s.toml")) ∷ [];
  set_values = (ascii "embed.port", integer (pos 8083)) ∷ [];
  home = some (some (ascii "/home/a"));
}

secrets_found :
    get components cfg secrets
    ≡ Lookup.ok (
        some (
          path_value (ascii "/home/a/s.toml"),
          from_file (ascii "secrets.file") (ascii "/etc/m3_config.toml"),
        ))
unfolding get from_toml path_of expand_user strip_prefix lookup text_eq trim_start trim_end
    is_whitespace
secrets_found = refl

get-Origin_example :
    Typed secrets.kind (path_value (ascii "/home/a/s.toml"))
    × Origin components cfg secrets
        (path_value (ascii "/home/a/s.toml"))
        (from_file (ascii "secrets.file") (ascii "/etc/m3_config.toml"))
get-Origin_example = get-Origin components cfg secrets _ _ secrets_found

abbrev text : Chars
text = ascii "{embed.port=8083}"

set_accepted : parse_set components parse text keys ≡ accepted cfg.set_values
unfolding parse_set carets_to_toml run step finish prepend document set_leaves leaves problems
    entry_problem find_key from_toml int_in_range lookup text_eq trim_start trim_end is_whitespace
set_accepted = refl

port_set : lookup (ascii "embed.port") cfg.set_values ≡ some (integer (pos 8083))
unfolding lookup text_eq
port_set = refl

parse_set-get_example :
    (key : Key) × (v : Value) × (find_key (ascii "embed.port") keys ≡ some key)
    × (key.flag ≡ true)
    × (get components cfg key ≡ Lookup.ok (some (v, set (ascii "embed.port"))))
parse_set-get_example =
    parse_set-get components parse text keys cfg (ascii "embed.port") (integer (pos 8083))
      set_accepted port_set

-- `u16::try_from`.
abbrev fits_u16 : ℤ → Bool
fits_u16 i = int_le (pos 0) i && int_le i (pos 65535)

port_found :
    int_or components fits_u16 cfg port (pos 80) ≡ Lookup.ok (pos 8083, set (ascii "embed.port"))
unfolding int_or get from_toml int_in_range lookup text_eq
port_found = refl

port_Fits : Fits port.kind fits_u16
port_Fits (pos n) (l, h) = let z : leb 0 n ≡ true = ground arith in rw (z, h) refl
port_Fits (negsuc n) (l, h) = cc

typed_answers_example :
    Accessed port.kind
      (pos 80)
      (bool_or components cfg port true)
      (int_or components fits_u16 cfg port (pos 80))
      (Lookup.string components cfg port)
      (path components cfg port)
typed_answers_example = typed_answers components fits_u16 cfg port true (pos 80) port_Fits

-- ===== src/Config/Flag.antt =====
-- crates/m3-config/src/settings.rs: `parse_set`, the settings of a `--set={...}`. Parsing TOML is a
-- parameter. The problems are told in the order of the table, not in that of the names.
pub mod Accepted
use m3_core_rs.Base.{
  ℕ, ◌≡◌, Bool, true, false, not, ◌&&◌, Option, none, some, List, [], ◌∷◌, ◌++◌, map, ◌==◌,
  if◌then◌else◌, any, keep, take, Chars, ascii, text_eq, trim, insert,
}
use m3_core_rs.Config.{
  Kind, Key, Toml, string, float, datetime, integer, boolean, array, table, Entries, no_entry,
  entry, Misfit, Read, good, bad, Value, from_toml,
}
use m3_core_rs.Config.Carets.{Translated, ok, not_closed, carets_to_toml}

-- Dotted names of the values that are no tables.
unfoldable mutual
  unfolding insert

  pub leaves : Entries → Chars → List (Chars × Toml) → List (Chars × Toml)
  leaves no_entry prefix out = out
  leaves (entry k v rest) prefix out = leaves rest prefix (leaf v (prefix ++ k) out)

  pub leaf : Toml → Chars → List (Chars × Toml) → List (Chars × Toml)
  leaf (table t) name out = leaves t (name ++ ascii ".") out
  leaf (string s) name out = insert name (string s) out
  leaf (float s) name out = insert name (float s) out
  leaf (datetime s) name out = insert name (datetime s) out
  leaf (integer i) name out = insert name (integer i) out
  leaf (boolean b) name out = insert name (boolean b) out
  leaf (array a) name out = insert name (array a) out

pub data Problem : Type 0 where
  -- The part in front of the first `=`, and whether there is one.
  no_table : Chars → Bool → Problem
  open_caret : ℕ → Problem
  no_toml : Chars → Problem
  environment_name : Chars → Chars → Problem
  unknown : Chars → List Chars → Problem
  no_flag : Key → Problem
  invalid : Chars → Toml → Misfit → Problem

pub data Parsed : Type 0 where
  accepted : List (Chars × Toml) → Parsed
  refused : List Problem → Parsed

pub data Document : Type 0 where
  parsed : Entries → Document
  unparsed : Chars → Document

-- `find` by name.
unfoldable pub find_key : Chars → List Key → Option Key
find_key name [] = none
find_key name (k ∷ known) =
    let rest = find_key name known in if text_eq k.name name then some k else rest

unfoldable pub find_legacy : Chars → List Key → Option Key
find_legacy name [] = none
find_legacy name (k ∷ known) =
    let rest = find_legacy name known in if any (text_eq name) k.legacy_env then some k else rest

unknown_problem : Chars → List Key → Option Key → Problem
unknown_problem name known (some k) = environment_name name k.name
unknown_problem name known none = unknown name (map (λ k. k.name) (keep (λ k. k.flag) known))

value_problem : Chars → Toml → Read Value → List Problem
value_problem name raw (good v) = []
value_problem name raw (bad e) = invalid name raw e ∷ []

starts_and_ends : Chars → Bool
starts_and_ends [] = false
starts_and_ends (c ∷ s) = c == b'{' && ends (c ∷ s)
  where
    ends : Chars → Bool
    ends [] = false
    ends (d ∷ []) = d == b'}'
    ends (d ∷ e ∷ t) = ends (e ∷ t)

before_equals : Chars → Chars
before_equals [] = []
before_equals (c ∷ s) = let rest = before_equals s in if c == b'=' then [] else c ∷ rest

judged : List (Chars × Toml) → List Problem → Parsed
judged flat [] = accepted flat
judged flat (p ∷ ps) = refused (p ∷ ps)

-- `doc.get("set")`, if it is a table.
unfoldable pub set_leaves : Entries → List (Chars × Toml)
unfolding leaves
set_leaves no_entry = []
set_leaves (entry k (table t) rest) =
    let other = set_leaves rest in if text_eq k (ascii "set") then leaves t [] [] else other
set_leaves (entry k v rest) =
    let other = set_leaves rest in if text_eq k (ascii "set") then [] else other

module _ (components : Chars → Chars) where
  unfoldable pub entry_problem : List Key → Chars → Toml → Option Key → List Problem
  unfolding unknown_problem find_legacy value_problem from_toml
  entry_problem known name raw none = unknown_problem name known (find_legacy name known) ∷ []
  entry_problem known name raw (some k) =
      if not k.flag
      then no_flag k ∷ []
      else value_problem name raw (from_toml components k.kind raw none)

  unfoldable pub problems : List Key → List (Chars × Toml) → List Problem
  unfolding entry_problem find_key
  problems known [] = []
  problems known ((name, raw) ∷ flat) =
      entry_problem known name raw (find_key name known) ++ problems known flat

  unfoldable pub document : List Key → Document → Parsed
  unfolding set_leaves judged problems
  document known (unparsed reason) = refused (no_toml reason ∷ [])
  document known (parsed t) = judged (set_leaves t) (problems known (set_leaves t))

  translated : (Chars → Document) → List Key → Translated → Parsed
  unfolding document
  translated parse known (not_closed at) = refused (open_caret at ∷ [])
  translated parse known (ok toml) = document known (parse (ascii "set = " ++ toml))

  unfoldable pub parse_set : (Chars → Document) → Chars → List Key → Parsed
  unfolding translated starts_and_ends before_equals carets_to_toml
  parse_set parse text known =
      let t = trim text in
      if not (starts_and_ends t)
      then refused (no_table (take 40 (before_equals t)) (any (λ c. c == b'=') t) ∷ [])
      else translated parse known (carets_to_toml t)

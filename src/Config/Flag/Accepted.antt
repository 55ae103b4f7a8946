-- ===== src/Config/Flag/Accepted.antt =====
-- What is accepted from a `--set`, and that it is then readable.
use m3_core_rs.Base.{
  ◌≡◌, refl, sym, ap, ◌∙◌, inl, inr, Bool, true, false, Option, none, some, List, [], ◌∷◌, ◌++◌,
  arith, Bool-cases, All, Chars, text_eq, text_eq_iff, lookup, ascii, trim, is_empty,
}
use m3_core_rs.Config.{
  Kind, of_bool, of_int, of_str, of_path, Key, Value, Toml, string, float, datetime, integer,
  boolean, array, table, Read, good, bad, path_of, from_toml,
}
use m3_core_rs.Config.Carets.{Translated, ok, not_closed, carets_to_toml}
use m3_core_rs.Config.Lookup.{Config, Source, set, Got, get}
use m3_core_rs.Config.Lookup
use m3_core_rs.Config.Lookup.Origin
use m3_core_rs.Config.Flag.{
  Problem, Parsed, accepted, refused, Document, parsed, unparsed, find_key, value_problem,
  entry_problem, problems, judged, set_leaves, document, translated, parse_set, starts_and_ends,
}

module _ (components : Chars → Chars) where
  -- A known setting that the flag may change, with a value of its type.
  abbrev pub Settable : List Key → Chars × Toml → Type 0
  Settable known (name, raw) =
      (k : Key) × (v : Value) × (find_key name known ≡ some k)
      × (k.flag ≡ true)
      × (from_toml components k.kind raw none ≡ good v)

  value_problem-nil :
      (name : Chars) (raw : Toml) (r : Read Value)
      → value_problem name raw r ≡ []
      → (v : Value) × (r ≡ good v)
  unfolding value_problem
  value_problem-nil name raw (good v) e = (v, refl)
  value_problem-nil name raw (bad x) e = cc

  nil_left : {A : Type 0} (xs ys : List A) → xs ++ ys ≡ [] → (xs ≡ []) × (ys ≡ [])
  nil_left [] ys e = (refl, e)
  nil_left (x ∷ xs) ys e = cc

  entry_problem-nil :
      (known : List Key) (name : Chars) (raw : Toml) (o : Option Key)
      → find_key name known ≡ o
      → entry_problem components known name raw o ≡ []
      → Settable known (name, raw)
  unfolding entry_problem
  entry_problem-nil known name raw none f e = cc
  entry_problem-nil known name raw (some k) f e = elim (Bool-cases k.flag) [
    | inl g ↦
        let (v, h) =
          value_problem-nil name raw (from_toml components k.kind raw none) (accepted_flag g e) in
        (k, v, f, g, h)
    | inr g ↦ absurd (refused_flag g e)
  ]
    where
      accepted_flag :
          k.flag ≡ true
          → entry_problem components known name raw (some k) ≡ []
          → value_problem name raw (from_toml components k.kind raw none) ≡ []
      accepted_flag g e = rw g at e

      refused_flag : k.flag ≡ false → entry_problem components known name raw (some k) ≡ [] → ⊥
      refused_flag g e = let e' = rw g at e in cc

  problems-nil :
      (known : List Key) (flat : List (Chars × Toml))
      → problems components known flat ≡ []
      → All (Settable known) flat
  unfolding problems
  problems-nil known [] e = tt
  problems-nil known ((name, raw) ∷ flat) e =
      let (one, rest) =
        nil_left (entry_problem components known name raw (find_key name known)) _ e in
      (
        entry_problem-nil known name raw (find_key name known) refl one,
        problems-nil known flat rest,
      )

  ResultOk : List Key → Parsed → Type 0
  ResultOk known (accepted flat) = All (Settable known) flat
  ResultOk known (refused ps) = Unit

  judged-ResultOk :
      (known : List Key) (flat : List (Chars × Toml)) (ps : List Problem)
      → problems components known flat ≡ ps
      → ResultOk known (judged flat ps)
  unfolding judged ResultOk
  judged-ResultOk known flat [] e = problems-nil known flat e
  judged-ResultOk known flat (p ∷ ps) e = tt

  document-ResultOk :
      (known : List Key) (d : Document) → ResultOk known (document components known d)
  unfolding document ResultOk
  document-ResultOk known (unparsed reason) = tt
  document-ResultOk known (parsed t) = judged-ResultOk known (set_leaves t) _ refl

  translated-ResultOk :
      (parse : Chars → Document) (known : List Key) (t : Translated)
      → ResultOk known (translated components parse known t)
  unfolding translated ResultOk
  translated-ResultOk parse known (not_closed at) = tt
  translated-ResultOk parse known (ok toml) =
      document-ResultOk known (parse (ascii "set = " ++ toml))

  parse_set-ResultOk :
      (parse : Chars → Document) (text : Chars) (known : List Key)
      → ResultOk known (parse_set components parse text known)
  unfolding parse_set ResultOk
  parse_set-ResultOk parse text known = elim (Bool-cases (starts_and_ends (trim text))) [
    | inl e ↦ rw e (translated-ResultOk parse known (carets_to_toml (trim text)))
    | inr e ↦ rw e tt
  ]

  parse_set-Settable :
      (parse : Chars → Document) (text : Chars) (known : List Key) (flat : List (Chars × Toml))
      → parse_set components parse text known ≡ accepted flat
      → All (Settable known) flat
  unfolding ResultOk
  parse_set-Settable parse text known flat e = rw e at (parse_set-ResultOk parse text known)

  abbrev is_good : Read Value → Bool
  is_good (good v) = true
  is_good (bad e) = false

  path_home_free :
      (s : Chars) (home : Option (Option Chars))
      → is_good (path_of components none s) ≡ is_good (path_of components home s)
  unfolding path_of
  path_home_free s home = elim (Bool-cases (is_empty (trim s))) [
    | inl e ↦ rw e refl
    | inr e ↦ rw e refl
  ]

  -- A home directory changes a value, never whether it is good.
  home_free :
      (kind : Kind) (raw : Toml) (home : Option (Option Chars))
      → is_good (from_toml components kind raw none) ≡ is_good (from_toml components kind raw home)
  unfolding from_toml
  home_free of_bool (string s) home = refl
  home_free of_bool (float s) home = refl
  home_free of_bool (datetime s) home = refl
  home_free of_bool (integer i) home = refl
  home_free of_bool (boolean b) home = refl
  home_free of_bool (array a) home = refl
  home_free of_bool (table t) home = refl
  home_free (of_int lo hi) (string s) home = refl
  home_free (of_int lo hi) (float s) home = refl
  home_free (of_int lo hi) (datetime s) home = refl
  home_free (of_int lo hi) (integer i) home = refl
  home_free (of_int lo hi) (boolean b) home = refl
  home_free (of_int lo hi) (array a) home = refl
  home_free (of_int lo hi) (table t) home = refl
  home_free of_str (string s) home = refl
  home_free of_str (float s) home = refl
  home_free of_str (datetime s) home = refl
  home_free of_str (integer i) home = refl
  home_free of_str (boolean b) home = refl
  home_free of_str (array a) home = refl
  home_free of_str (table t) home = refl
  home_free of_path (string s) home = path_home_free s home
  home_free of_path (float s) home = refl
  home_free of_path (datetime s) home = refl
  home_free of_path (integer i) home = refl
  home_free of_path (boolean b) home = refl
  home_free of_path (array a) home = refl
  home_free of_path (table t) home = refl

  good_of : (r : Read Value) → is_good r ≡ true → (v : Value) × (r ≡ good v)
  good_of (good v) e = (v, refl)
  good_of (bad x) e = cc

  All-lookup :
      (P : Chars × Toml → Type 0) (flat : List (Chars × Toml)) (name : Chars) (raw : Toml)
      → All P flat
      → lookup name flat ≡ some raw
      → P (name, raw)
  unfolding lookup
  All-lookup P [] name raw u e = cc
  All-lookup P ((j, v) ∷ flat) name raw (p, u) e = elim (Bool-cases (text_eq j name)) [
    | inl h ↦
        let same = (text_eq_iff j name).0 h in
        let value : v ≡ raw = ground arith in rw (← same) (rw (← value) p)
    | inr h ↦
        let rest : lookup name flat ≡ some raw = ground arith in All-lookup P flat name raw u rest
  ]

  find_key-name :
      (name : Chars) (known : List Key) (k : Key) → find_key name known ≡ some k → k.name ≡ name
  unfolding find_key
  find_key-name name [] k e = cc
  find_key-name name (x ∷ known) k e =
      ground (arith, text_eq_iff x.name name, find_key-name name known k)

  -- What a `--set` carries, if it is accepted, is a known setting for each of its names, which the
  -- flag may change. A config with these values then finds the setting without an error, with the
  -- flag as the source.
  pub parse_set-get :
      (parse : Chars → Document) (text : Chars) (known : List Key) (cfg : Config) (name : Chars)
      (raw : Toml)
      → parse_set components parse text known ≡ accepted cfg.set_values
      → lookup name cfg.set_values ≡ some raw
      → (key : Key) × (v : Value) × (find_key name known ≡ some key)
        × (key.flag ≡ true)
        × (get components cfg key ≡ Lookup.ok (some (v, set name)))
  parse_set-get parse text known cfg name raw e l =
      let ok_all = parse_set-Settable parse text known cfg.set_values e in
      let (k, v, f, g, h) = All-lookup (Settable known) cfg.set_values name raw ok_all l in
      let same = find_key-name name known k f in
      let also : is_good (from_toml components k.kind raw none) ≡ true = ap is_good h in
      let (w, q) =
        good_of (from_toml components k.kind raw cfg.home)
          (sym (home_free k.kind raw cfg.home) ∙ also) in
      let stored : lookup k.name cfg.set_values ≡ some raw = rw same l in
      (
        k,
        w,
        f,
        g,
        Origin.get-set components cfg k raw w stored q ∙ ap (λ n. Lookup.ok (some (w, set n))) same,
      )

-- ===== src/Settings/Config/Reads.antt =====
-- settings.c: `read_config` on a configuration that is written line by line.
use addressroutinggateway.Prelude.{
  true, ltb, ◌==◌, if◌then◌else◌, take, length-take, Option-cases, get_or, ℕ, zero, suc, ◌≤◌, ◌<◌,
  ◌≡◌, ◌≢◌, refl, sym, ap, ◌∙◌, subst, List, [], ◌∷◌, Option, none, some, inl, inr, length, arith,
  All, ℤ,
}
use addressroutinggateway.Prelude.Text.{codes}
use addressroutinggateway.Memory.{Bytes}
use addressroutinggateway.Memory.Strings.{
  IsString, strncpy, string_at, string_at_lem, length-string_at, string_at-IsString,
  get_or-string_at, string_at-strncpy,
}
use addressroutinggateway.Settings.Lines.Print.{
  IsPlain-IsString, IsSkipped, IsLine, line_text, lines_text, get_next_line-lines_text,
}
use addressroutinggateway.Settings.Config.{
  ConfigData, Files, GateList, no_gates, Reading, got, failed, null_dereference, stray_access,
  unfinished, ◌>>=◌, max_conf_line, line_or_error, conf_line, last_index, dir_len, put_dir, atol,
  add_gates, end_gates, list_gates, read_lines, read_config,
}
use addressroutinggateway.Settings.Config.Listing.{ListsGates, ListsGates-gate_names}
use addressroutinggateway.Settings.Config.Gates.{
  gate_names, Chain, EndsIn, list_gates-EndsIn, end_gates-none,
}

-- A line of the file, and the blank ones in front of it.
pub record Line : Type 0 where
  pub blanks : List (List ℕ)
  pub text : List ℕ

abbrev pub IsGood : Line → Type 0
IsGood l = All (IsSkipped max_conf_line) l.blanks × IsLine max_conf_line l.text

abbrev pub written : Line → List ℕ → List ℕ
written l rest = lines_text l.blanks (line_text l.text rest)

conf_line-written :
    (l : Line) (rest : List ℕ) → IsGood l → conf_line (written l rest) ≡ got (l.text, rest)
unfolding conf_line
conf_line-written l rest is =
    ap line_or_error (get_next_line-lines_text l.blanks max_conf_line l.text rest is.0 is.1)

-- The directory of a path.
abbrev pub dir_at : Option ℕ → List ℕ → List ℕ
dir_at none path = codes "."
dir_at (some n) path = take n path

abbrev pub dir_name : List ℕ → List ℕ
dir_name path = dir_at (dir_len path) path

last_index-lt : (c : ℕ) (s : List ℕ) (i : ℕ) → last_index c s ≡ some i → i < length s
unfolding last_index
last_index-lt c [] i e = absurd cc
last_index-lt c (d ∷ s) i e = elim (Option-cases (last_index c s)) [
  | inl absent ↦ ground (arith, absent)
  | inr (j, there) ↦ ground (arith, there, last_index-lt c s j)
]

dir_len-lt : (s : List ℕ) (i : ℕ) → dir_len s ≡ some i → i < length s
unfolding dir_len
dir_len-lt s i e = elim (Option-cases (last_index b'/' s)) [
  | inl absent ↦ ground (arith, absent, last_index-lt b'\\' s i)
  | inr (j, there) ↦ ground (arith, there, last_index-lt b'/' s j)
]

IsString-take : (n : ℕ) (s : List ℕ) → IsString s → IsString (take n s)
IsString-take zero s h = tt
IsString-take (suc n) [] h = tt
IsString-take (suc n) (c ∷ s) h = (h.0, IsString-take n s h.1)

get_or-take : (n : ℕ) (s : List ℕ) (k : ℕ) → k < n → get_or (take n s) k 0 ≡ get_or s k 0
get_or-take zero s k h = absurd (omega arith)
get_or-take (suc n) [] k h = refl
get_or-take (suc n) (c ∷ s) zero h = refl
get_or-take (suc n) (c ∷ s) (suc k) h = get_or-take n s k (omega arith)

module _ (conf : ConfigData) where
  abbrev pub path_of : List ℕ
  path_of = string_at max_conf_line conf.file 0

  -- The directory is in its field.
  record HasDir (dir : Bytes) (found : Option ℕ) : Type 0 where
    put : put_dir found conf ≡ got (record conf { dir = dir })
    reads : string_at max_conf_line dir 0 ≡ dir_at found path_of

  put_dir-HasDir : (found : Option ℕ) → dir_len path_of ≡ found → (dir : Bytes) × HasDir dir found
  put_dir-HasDir none e = (
    strncpy 299 (codes ".") conf.dir,
    record {
      put = refl;
      reads =
          string_at-strncpy (codes ".") 299 300 conf.dir (λ h. ground arith, tt) (omega arith)
            (omega arith);
    },
  )
  put_dir-HasDir (some n) e =
      let inside : n < length path_of = dir_len-lt path_of n e in
      let short : length path_of ≤ 300 = length-string_at 300 conf.file 0 in
      let len : length (take n path_of) ≡ n = omega (arith, length-take n path_of) in
      (
        λ j. if ltb j n then conf.file j else if j == n then 0 else conf.dir j,
        record {
          put = ground arith;
          reads =
              string_at_lem (take n path_of) 300
                (λ j. if ltb j n then conf.file j else if j == n then 0 else conf.dir j) 0
                (IsString-take n path_of (string_at-IsString 300 conf.file 0)) (omega arith)
                (λ k h.
                  ground (arith, len, get_or-take n path_of k, get_or-string_at 300 conf.file 0 k))
                (ground (arith, len));
        },
      )

module _ (name int_dev ext_dev rate : Line) (rest : List ℕ) where
  abbrev pub config_text : List ℕ
  config_text = written name (written int_dev (written ext_dev (written rate rest)))

  read_lines-written :
      (conf : ConfigData)
      → IsGood name
      → IsGood int_dev
      → IsGood ext_dev
      → IsGood rate
      → read_lines conf (inr config_text)
        ≡ got (record conf {
          our_gate_name = strncpy 299 name.text conf.our_gate_name;
          int_dev = strncpy 15 int_dev.text conf.int_dev;
          ext_dev = strncpy 15 ext_dev.text conf.ext_dev;
          hop_rate = atol rate.text;
        })
  read_lines-written conf a b c d =
      rw
        (
          conf_line-written name (written int_dev (written ext_dev (written rate rest))) a,
          conf_line-written int_dev (written ext_dev (written rate rest)) b,
          conf_line-written ext_dev (written rate rest) c,
          conf_line-written rate rest d,
        )
        refl

-- The configuration has been read: the strings in their fields, the rate, and the gates of the
-- directory as the list at `conf->gate`.
abbrev pub IsRead :
    List ℕ → List ℕ → List ℕ → ℤ → List (List ℕ) → Reading (ConfigData × GateList) → Type 0
IsRead name int_dev ext_dev rate gates (got (c, g)) =
    (string_at max_conf_line c.our_gate_name 0 ≡ name)
    × (string_at 16 c.int_dev 0 ≡ int_dev)
    × (string_at 16 c.ext_dev 0 ≡ ext_dev)
    × (c.hop_rate ≡ rate)
    × Chain g.nodes c.gate gates
IsRead name int_dev ext_dev rate gates (failed e) = ⊥
IsRead name int_dev ext_dev rate gates null_dereference = ⊥
IsRead name int_dev ext_dev rate gates stray_access = ⊥
IsRead name int_dev ext_dev rate gates unfinished = ⊥

module _ (files : Files) (conf : ConfigData) (name int_dev ext_dev rate : Line) (rest : List ℕ)
    (names : List (List ℕ)) (name_good : IsGood name) (int_dev_good : IsGood int_dev)
    (ext_dev_good : IsGood ext_dev) (rate_good : IsGood rate)
    (opened : files.open_file (path_of conf) ≡ inr (config_text name int_dev ext_dev rate rest))
    (listed : files.open_dir (dir_name (path_of conf)) ≡ some names) where
  -- Before the directory is read.
  abbrev with_lines : Bytes → ConfigData
  with_lines dir = record conf {
    dir = dir;
    our_gate_name = strncpy 299 name.text conf.our_gate_name;
    int_dev = strncpy 15 int_dev.text conf.int_dev;
    ext_dev = strncpy 15 ext_dev.text conf.ext_dev;
    hop_rate = atol rate.text;
  }

  read_config-list_gates :
      (dir : Bytes)
      → HasDir conf dir (dir_len (path_of conf))
      → read_config files conf ≡ list_gates files (with_lines dir) (some names)
  unfolding read_config
  read_config-list_gates dir has =
      ap (λ (m : Reading ConfigData). m >>= after_dir) has.put
      ∙ ap (λ o. read_lines (record conf { dir = dir }) o >>= after_lines) opened
      ∙ ap (λ (m : Reading ConfigData). m >>= after_lines)
          (read_lines-written name int_dev ext_dev rate rest (record conf { dir = dir }) name_good
            int_dev_good ext_dev_good rate_good)
      ∙ ap (list_gates files (with_lines dir)) (ap files.open_dir has.reads ∙ listed)
    where
      after_lines : ConfigData → Reading (ConfigData × GateList)
      after_lines c = list_gates files c (files.open_dir (string_at max_conf_line c.dir 0))

      after_dir : ConfigData → Reading (ConfigData × GateList)
      after_dir c = read_lines c (files.open_file (path_of conf)) >>= after_lines

  read_config-gate_names :
      ((n : ℕ) → files.calloc n ≡ true)
      → gate_names names ≢ []
      → length int_dev.text < 15
      → length ext_dev.text < 15
      → IsRead name.text int_dev.text ext_dev.text
          (atol rate.text)
          (gate_names names)
          (read_config files conf)
  read_config-gate_names all some_gate short short' =
      let (dir, has) = put_dir-HasDir conf (dir_len (path_of conf)) refl in
      subst (IsRead name.text int_dev.text ext_dev.text (atol rate.text) (gate_names names))
        (sym (read_config-list_gates dir has))
        (ended
          (end_gates (add_gates files.calloc names no_gates)
            (add_gates files.calloc names no_gates).curr)
          dir (list_gates-EndsIn files.calloc names all some_gate))
    where
      ended :
          (o : Reading GateList) (dir : Bytes)
          → EndsIn (gate_names names) o
          → IsRead name.text int_dev.text ext_dev.text
              (atol rate.text)
              (gate_names names)
              (o >>= λ g. got (record (with_lines dir) { gate = g.head }, g))
      ended (got g) dir chain = (
        string_at-strncpy name.text 299 300 conf.our_gate_name
            (IsPlain-IsString name.text name_good.1.0) (omega (arith, name_good.1.3)) (omega arith),
        string_at-strncpy int_dev.text 15 16 conf.int_dev
            (IsPlain-IsString int_dev.text int_dev_good.1.0) short (omega arith),
        string_at-strncpy ext_dev.text 15 16 conf.ext_dev
            (IsPlain-IsString ext_dev.text ext_dev_good.1.0) short' (omega arith),
        refl,
        chain,
      )
      ended (failed e) dir chain = elim chain [ ]
      ended null_dereference dir chain = elim chain [ ]
      ended stray_access dir chain = elim chain [ ]
      ended unfinished dir chain = elim chain [ ]

  -- A configuration file whose first four lines that are not blank fit their fields is read as it is
  -- written, and the gates are, in the directory's order, those that have a file of their name with
  -- ".pub" behind it and whose name is not empty and does not begin with a dot, if there is memory for
  -- them and at least one.
  pub read_config-IsRead :
      (gates : List (List ℕ))
      → ListsGates names gates
      → gates ≢ []
      → ((n : ℕ) → files.calloc n ≡ true)
      → length int_dev.text < 15
      → length ext_dev.text < 15
      → IsRead name.text int_dev.text ext_dev.text (atol rate.text) gates (read_config files conf)
  read_config-IsRead gates lists some_gate all short short' =
      let same = ListsGates-gate_names lists in
      subst
        (λ gs.
          IsRead name.text int_dev.text ext_dev.text (atol rate.text) gs (read_config files conf))
        same (read_config-gate_names all (λ empty. some_gate (sym same ∙ empty)) short short')

  -- The same configuration in a directory without a file that ends in ".pub" stops the program: the
  -- link of a NULL `currGate` is written.
  pub read_config-null_dereference :
      gate_names names ≡ [] → read_config files conf ≡ null_dereference
  read_config-null_dereference no_gate =
      let (dir, has) = put_dir-HasDir conf (dir_len (path_of conf)) refl in
      read_config-list_gates dir has
      ∙ ap (λ (o : Reading GateList). o >>= λ g. got (record (with_lines dir) { gate = g.head }, g))
          (end_gates-none files.calloc names no_gate)

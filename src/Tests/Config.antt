-- ===== src/Tests/Config.antt =====
-- Small configuration and key files, and the theorems on them.
use addressroutinggateway.Prelude.{
  ap, ◌++◌, subst, ◌∙◌, ℤ, sym, ◌≤◌, ℕ, ◌≡◌, ◌≢◌, refl, [], ◌∷◌, List, none, some, pos, negsuc, ◌⊎◌,
  inl, inr, true, false, arith, if◌then◌else◌,
}
use addressroutinggateway.Prelude.Text.{codes}
use addressroutinggateway.Settings.{arg_config_bad}
use addressroutinggateway.Settings.Errors.{error_text, is_system_error}
use addressroutinggateway.Settings.Texts.{
  read_error, arg_strerror_r-error_text, arg_strerror_r-injective,
}
use addressroutinggateway.Settings.Lines.{get_next_line, line_read}
use addressroutinggateway.Settings.Lines.Bounds.{StaysIn, get_next_line-StaysIn}
use addressroutinggateway.Settings.Lines.Print.{
  line_text, lines_text, IsLine, get_next_line-lines_text,
}
use addressroutinggateway.Settings.Config.{
  ConfigData, Files, got, null_dereference, read_config, add_gates, end_gates, no_gates, atol,
  is_gate_file,
}
use addressroutinggateway.Settings.Config.Gates.{EndsIn, gate_names, list_gates-EndsIn}
use addressroutinggateway.Settings.Config.Listing.{ListsGates, gate_names-ListsGates}
use addressroutinggateway.Settings.Config.Reads.{
  Line, IsGood, IsRead, config_text, read_config-IsRead, read_config-null_dereference,
}
use addressroutinggateway.Settings.Generator.{
  write_numbers, write_numbers, Generator, generate, name_file,
}
use addressroutinggateway.Settings.Keys.{KeyLibrary, read_public_key, key_path}
use addressroutinggateway.Settings.Keys.Generated.{ReadsBack, Holds, read_public_key-generate}
use addressroutinggateway.Hopper.Create.{new_gate}
use addressroutinggateway.Hopper.Address.{same_bytes}
use addressroutinggateway.World.{Gate}
use addressroutinggateway.Memory.Strings.{strncpy, string_at}
use addressroutinggateway.Tests.Setting.{bytes_of}

not_system : is_system_error (negsuc 150) ≡ false
unfolding is_system_error
not_system = refl

arg_strerror_r-error_text_example :
    read_error (λ e n b. b) (negsuc 150) (λ j. 65) ≡ codes (error_text (negsuc 150))
arg_strerror_r-error_text_example =
    arg_strerror_r-error_text (λ e n b. b) (negsuc 150) (λ j. 65) not_system

arg_strerror_r-injective_example : arg_config_bad ≡ arg_config_bad
arg_strerror_r-injective_example =
    arg_strerror_r-injective (λ e n b. b) arg_config_bad arg_config_bad (λ j. 65) (λ j. 65)
      (13, omega arith, refl) (13, omega arith, refl) refl

abbrev small_file : List ℕ
small_file = b'\n' ∷ b'a' ∷ b'b' ∷ b'c' ∷ b'd' ∷ []

get_next_line-StaysIn_example : StaysIn 4 small_file (get_next_line 4 small_file)
get_next_line-StaysIn_example = get_next_line-StaysIn 4 small_file (omega arith)

-- A letter or a digit as a line.
one_char : (c : ℕ) → 32 ≤ c → IsLine 300 (c ∷ [])
one_char c h = (
  (((λ e. omega arith), (λ e. omega arith)), tt),
  (λ e. absurd cc),
  (λ e. omega arith),
  omega arith,
)

get_next_line-lines_text_example :
    get_next_line 300 (lines_text ((b'\r' ∷ []) ∷ [] ∷ []) (line_text (b'a' ∷ []) []))
    ≡ line_read (b'a' ∷ []) []
get_next_line-lines_text_example =
    get_next_line-lines_text ((b'\r' ∷ []) ∷ [] ∷ []) 300 (b'a' ∷ []) []
      (
        ((((λ e. omega arith), (λ e. omega arith)), tt), inr refl, omega arith),
        ((tt, inl refl, omega arith), tt),
      )
      (one_char b'a' (omega arith))

-- A directory with the files of two gates, and others.
abbrev gate_files : List (List ℕ)
gate_files =
    codes "main.conf"
    ∷ codes "home.pub"
    ∷ codes ".a.pub"
    ∷ codes ".pub"
    ∷ codes "home.priv"
    ∷ codes "x.pub"
    ∷ []

abbrev a_line : ℕ → Line
a_line c = record { blanks = []; text = c ∷ [] }

abbrev conf_text : List ℕ
conf_text = config_text (a_line b'x') (a_line b'i') (a_line b'e') (a_line b'5') []

abbrev disk : List (List ℕ) → Files
disk names = record {
  open_file = λ path. inr conf_text;
  open_dir = λ dir. some names;
  calloc = λ n. true;
}

abbrev blank_conf : ConfigData
blank_conf = record {
  file = bytes_of (codes "/d/main.conf");
  dir = λ j. 7;
  our_gate_name = λ j. 7;
  int_dev = λ j. 7;
  ext_dev = λ j. 7;
  gate = none;
  hop_rate = pos 0;
}

two_gates : gate_names gate_files ≡ codes "home" ∷ codes "x" ∷ []
unfolding gate_names is_gate_file
two_gates = refl

some_gates : gate_names gate_files ≢ []
some_gates e = not_empty (sym two_gates ∙ e)
  where
    not_empty : codes "home" ∷ codes "x" ∷ [] ≡ [] → ⊥
    not_empty h = cc

list_gates-EndsIn_example : EndsIn (gate_names gate_files) (
    end_gates
      (add_gates (λ n. true) gate_files no_gates)
      (add_gates (λ n. true) gate_files no_gates).curr)
list_gates-EndsIn_example = list_gates-EndsIn (λ n. true) gate_files (λ n. refl) some_gates

good : (c : ℕ) → 32 ≤ c → IsGood (a_line c)
good c h = (tt, one_char c h)

two_gates-ListsGates : ListsGates gate_files (codes "home" ∷ codes "x" ∷ [])
two_gates-ListsGates = subst (ListsGates gate_files) two_gates (gate_names-ListsGates gate_files)

read_config-IsRead_example :
    IsRead
      (b'x' ∷ [])
      (b'i' ∷ [])
      (b'e' ∷ [])
      (atol (b'5' ∷ []))
      (codes "home" ∷ codes "x" ∷ [])
      (read_config (disk gate_files) blank_conf)
read_config-IsRead_example =
    read_config-IsRead (disk gate_files) blank_conf (a_line b'x') (a_line b'i') (a_line b'e')
      (a_line b'5') [] gate_files (good b'x' (omega arith)) (good b'i' (omega arith))
      (good b'e' (omega arith)) (good b'5' (omega arith)) refl refl (codes "home" ∷ codes "x" ∷ [])
      two_gates-ListsGates (λ e. cc) (λ n. refl) (omega arith) (omega arith)

no_gates_there : gate_names [] ≡ []
unfolding gate_names
no_gates_there = refl

read_config-null_dereference_example : read_config (disk []) blank_conf ≡ null_dereference
read_config-null_dereference_example =
    read_config-null_dereference (disk []) blank_conf (a_line b'x') (a_line b'i') (a_line b'e')
      (a_line b'5') [] [] (good b'x' (omega arith)) (good b'i' (omega arith))
      (good b'e' (omega arith)) (good b'5' (omega arith)) refl refl no_gates_there

-- A number is written as one character.
abbrev writer : Generator
writer = record {
  ctr_drbg_init = pos 0;
  rsa_gen_key = inr (77 ∷ 65 ∷ 88 ∷ []);
  mpi_write_file = λ p n. inr (n ∷ []);
  create = λ path. true;
}

abbrev first_number : List ℕ → ℤ ⊎ (ℕ × List ℕ)
first_number [] = inl (negsuc 0)
first_number (n ∷ rest) = inr (n, rest)

abbrev reader : KeyLibrary
reader = record {
  mpi_read_file = first_number;
  mpi_msb = λ n. 7;
  rsa_check_privkey = λ ns. pos 0;
  inet_pton = λ s. some (10 ∷ 0 ∷ 2 ∷ 0 ∷ []);
}

reads_back : ReadsBack reader writer
reads_back p n text rest e =
    subst (λ t. first_number (t ++ rest) ≡ inr (n, rest)) (same_text (n ∷ []) text e) refl
  where
    same_text : (x y : List ℕ) → writer.mpi_write_file p n ≡ inr y → n ∷ [] ≡ y
    same_text x y h = cc

abbrev small_gate : Gate
small_gate = record new_gate { name = b'x' ∷ [] }

-- The directory that holds what the tool has written.
abbrev made_files : List (List ℕ × List ℕ)
made_files = (generate writer (b'x' ∷ []) (b'1' ∷ []) (b'2' ∷ []) (λ j. 5) (λ j. 5) (λ j. 5)).0

abbrev look_up : List ℕ → List (List ℕ × List ℕ) → ℕ ⊎ List ℕ
look_up path [] = inl 2
look_up path ((name, text) ∷ files) =
    if same_bytes path (codes "d/" ++ name) then inr text else look_up path files

stored :
    (text : List ℕ)
    → Holds (name_file (b'x' ∷ []) (codes ".pub")) text made_files
    → look_up (key_path (codes "d") (b'x' ∷ []) (codes ".pub")) made_files ≡ inr text
unfolding generate write_numbers strncpy string_at key_path
stored text (inl (n, t)) = absurd cc
stored text (inr (inl (n, t))) = ap (λ s. inr s) t
stored text (inr (inr none_left)) = elim none_left [ ]

read_public_key-generate_example :
    read_public_key reader (λ path. look_up path made_files) (codes "d") small_gate
    ≡ got (
      pos 0,
      record small_gate {
        base_ip = 10 ∷ 0 ∷ 2 ∷ 0 ∷ [];
        mask = 10 ∷ 0 ∷ 2 ∷ 0 ∷ [];
        rsa = record small_gate.rsa { n = 77; e = 65; len = 1 };
      },
    )
read_public_key-generate_example =
    read_public_key-generate reader writer reads_back (b'x' ∷ []) (b'1' ∷ []) (b'2' ∷ [])
      (10 ∷ 0 ∷ 2 ∷ 0 ∷ []) (10 ∷ 0 ∷ 2 ∷ 0 ∷ []) 77 65 (88 ∷ []) (77 ∷ []) (65 ∷ [])
      ((λ e. omega arith), tt) (omega arith) (one_char b'1' (omega arith)) (omega arith)
      (one_char b'2' (omega arith)) (omega arith) refl refl refl refl refl refl refl (λ j. 5)
      (λ j. 5) (λ j. 5) (λ path. look_up path made_files) (codes "d") small_gate refl stored

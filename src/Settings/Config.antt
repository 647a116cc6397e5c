-- ===== src/Settings/Config.antt =====
-- settings.c: `read_config`, `release_config` and the list of `struct gate_list` that they build
-- and free.
pub mod Gates
pub mod Listing
pub mod Reads
use addressroutinggateway.Prelude.{
  ℕ, zero, suc, ◌+◌, ◌-◌, ◌*◌, List, [], ◌∷◌, Option, none, some, Bool, true, false, not, ◌&&◌,
  ◌||◌, ◌==◌, ltb, leb, if◌then◌else◌, get_or, length, drop, take, ℤ, pos, negsuc, ◌-ℤ◌, ◌⊎◌, inl,
  inr,
}
use addressroutinggateway.Prelude.Text.{codes}
use addressroutinggateway.Memory.{Bytes}
use addressroutinggateway.Memory.Strings.{strncpy, string_at}
use addressroutinggateway.Hopper.Address.{same_bytes}
use addressroutinggateway.Settings.{arg_config_bad}
use addressroutinggateway.Settings.Lines.{
  NextLine, line_read, end_of_file, before_buffer, out_of_fuel, get_next_line,
}

abbrev pub max_conf_line : ℕ
max_conf_line = 300

-- `struct gate_list`; its name is a string.
pub record GateNode : Type 0 where
  pub gate_name : List ℕ
  pub next : Option ℕ

-- `struct config_data`. The strings are the fields' memory, of 300 bytes, and of 16 for the devices.
pub record ConfigData : Type 0 where
  pub file : Bytes
  pub dir : Bytes
  pub our_gate_name : Bytes
  pub int_dev : Bytes
  pub ext_dev : Bytes
  pub gate : Option ℕ
  pub hop_rate : ℤ

-- The C library: `fopen` to the bytes of the file or an errno, `opendir` and `readdir` to the names
-- in the order in which they come, the n-th `calloc` that succeeds.
pub record Files : Type 0 where
  pub open_file : List ℕ → ℕ ⊎ List ℕ
  pub open_dir : List ℕ → Option (List (List ℕ))
  pub calloc : ℕ → Bool

-- A function of settings.c: its result and the list nodes in memory, its error code, or a stop
-- of the program: by a NULL pointer or by a byte before a buffer.
pub data Reading (A : Type 0) : Type 0 where
  got : A → Reading A
  failed : ℤ → Reading A
  null_dereference : Reading A
  stray_access : Reading A
  unfinished : Reading A

module _ {A B : Type 0} where
  infixl 5 ◌>>=◌
  abbrev pub ◌>>=◌ : Reading A → (A → Reading B) → Reading B
  got a >>= f = f a
  failed e >>= f = failed e
  null_dereference >>= f = null_dereference
  stray_access >>= f = stray_access
  unfinished >>= f = unfinished

abbrev pub line_or_error : NextLine → Reading (List ℕ × List ℕ)
line_or_error (line_read line rest) = got (line, rest)
line_or_error end_of_file = failed arg_config_bad
line_or_error before_buffer = stray_access
line_or_error out_of_fuel = unfinished

-- `if(get_next_line(f, line, MAX_CONF_LINE)) ... return -ARG_CONFIG_BAD`
unfoldable pub conf_line : List ℕ → Reading (List ℕ × List ℕ)
unfolding get_next_line
conf_line s = line_or_error (get_next_line max_conf_line s)

-- `strrchr`: the place of the last c.
unfoldable pub last_index : ℕ → List ℕ → Option ℕ
last_index c [] = none
last_index c (d ∷ s) = elim (last_index c s) [
  | some i ↦ some (suc i)
  | none ↦ if d == c then some 0 else none
]

abbrev pub or_else : Option ℕ → Option ℕ → Option ℕ
or_else none other = other
or_else (some i) other = some i

-- The end of the directory's part of the path, at a slash or else at a backslash.
unfoldable pub dir_len : List ℕ → Option ℕ
unfolding last_index
dir_len path = or_else (last_index b'/' path) (last_index b'\\' path)

-- `memcpy(conf->dir, conf->file, dirLen); conf->dir[dirLen] = '\0'`, or `strncpy` of ".".
abbrev pub put_dir : Option ℕ → ConfigData → Reading ConfigData
put_dir none conf = got (record conf { dir = strncpy (max_conf_line - 1) (codes ".") conf.dir })
put_dir (some n) conf =
    if ltb max_conf_line (n + 1)
    then failed arg_config_bad
    else got (record conf {
      dir = λ j. if ltb j n then conf.file j else if j == n then 0 else conf.dir j;
    })

abbrev is_space : ℕ → Bool
is_space c = c == b' ' || (leb 9 c && leb c 13)

abbrev is_digit : ℕ → Bool
is_digit c = leb b'0' c && leb c b'9'

unfoldable pub digits : ℕ → List ℕ → ℕ
digits acc [] = acc
digits acc (c ∷ s) = if is_digit c then digits (acc * 10 + (c - b'0')) s else acc

abbrev pub signed : List ℕ → ℤ
signed [] = pos 0
signed (c ∷ s) =
    if c == b'-'
    then pos 0 -ℤ pos (digits 0 s)
    else if c == b'+'
    then pos (digits 0 s)
    else pos (digits 0 (c ∷ s))

-- `atol`, for numbers that fit a `long`.
unfoldable pub atol : List ℕ → ℤ
unfolding digits
atol [] = signed []
atol (c ∷ s) = elim (is_space c) [ true ↦ atol s | false ↦ signed (c ∷ s) ]

-- A file name that names a gate: not hidden, five characters at least, and ".pub" at its end.
unfoldable pub is_gate_file : List ℕ → Bool
is_gate_file name =
    not (get_or name 0 0 == b'.' || ltb (length name) 5)
    && same_bytes (drop (length name - 4) name) (codes ".pub")

-- The nodes in memory by address, `conf->gate`, `currGate`, and the calls of `calloc` so far. The
-- n-th call gives the address n.
pub record GateList : Type 0 where
  pub nodes : ℕ → Option GateNode
  pub head : Option ℕ
  pub curr : Option ℕ
  pub callocs : ℕ

abbrev pub no_gates : GateList
no_gates = record { nodes = λ a. none; head = none; curr = none; callocs = 0 }

abbrev pub set_node : ℕ → Option GateNode → (ℕ → Option GateNode) → ℕ → Option GateNode
set_node a x nodes b = if b == a then x else nodes b

abbrev pub with_next : Option ℕ → Option GateNode → Option GateNode
with_next next none = none
with_next next (some node) = some (record node { next = next })

-- `p->next = next`, where p is not NULL.
abbrev pub set_next : Option ℕ → Option ℕ → (ℕ → Option GateNode) → ℕ → Option GateNode
set_next none next nodes = nodes
set_next (some p) next nodes = set_node p (with_next next (nodes p)) nodes

-- The loop's body for a gate file, after the tests of its name. A failed `calloc` leaves `currGate`
-- NULL, and so `prevGate` in the next round.
unfoldable pub add_gate : (ℕ → Bool) → List ℕ → GateList → GateList
add_gate calloc name g =
    if calloc g.callocs
    then record {
      nodes =
          set_node g.callocs
            (some (record { gate_name = take (length name - 4) name; next = none }))
            (set_next g.curr (some g.callocs) g.nodes);
      head = or_else g.head (some g.callocs);
      curr = some g.callocs;
      callocs = suc g.callocs;
    }
    else record g { curr = none; callocs = suc g.callocs }

unfoldable pub add_gates : (ℕ → Bool) → List (List ℕ) → GateList → GateList
unfolding add_gate is_gate_file
add_gates calloc [] g = g
add_gates calloc (name ∷ names) g =
    add_gates calloc names (if is_gate_file name then add_gate calloc name g else g)

-- `currGate->next = NULL`
abbrev pub end_gates : GateList → Option ℕ → Reading GateList
end_gates g none = null_dereference
end_gates g (some p) = got (record g { nodes = set_next (some p) none g.nodes })

-- "Get the names of all the public key files listed alongside the conf file"
abbrev pub list_gates :
    Files → ConfigData → Option (List (List ℕ)) → Reading (ConfigData × GateList)
list_gates files conf none = failed (negsuc 0)
list_gates files conf (some names) = do
  let g = add_gates files.calloc names no_gates
  g' ← end_gates g g.curr
  got (record conf { gate = g'.head }, g')

-- The four lines of the file.
abbrev pub read_lines : ConfigData → ℕ ⊎ List ℕ → Reading ConfigData
read_lines conf (inl errno) = failed (pos 0 -ℤ pos errno)
read_lines conf (inr s0) = do
  (name, s1) ← conf_line s0
  (int_dev, s2) ← conf_line s1
  (ext_dev, s3) ← conf_line s2
  (rate, s4) ← conf_line s3
  got (record conf {
    our_gate_name = strncpy (max_conf_line - 1) name conf.our_gate_name;
    int_dev = strncpy 15 int_dev conf.int_dev;
    ext_dev = strncpy 15 ext_dev conf.ext_dev;
    hop_rate = atol rate;
  })

unfoldable pub read_config : Files → ConfigData → Reading (ConfigData × GateList)
unfolding dir_len conf_line strncpy atol add_gates string_at
read_config files conf = do
  let path = string_at max_conf_line conf.file 0
  with_dir ← put_dir (dir_len path) conf
  with_lines ← read_lines with_dir (files.open_file path)
  list_gates files with_lines (files.open_dir (string_at max_conf_line with_lines.dir 0))

-- The walk frees each node after its link has been read. Fuel: the number of nodes and one more.
unfoldable pub release_gates : ℕ → (ℕ → Option GateNode) → Option ℕ → Reading (ℕ → Option GateNode)
release_gates fuel nodes none = got nodes
release_gates zero nodes (some p) = unfinished
release_gates (suc fuel) nodes (some p) = elim (nodes p) [
  | none ↦ stray_access
  | some node ↦ release_gates fuel (set_node p none nodes) node.next
]

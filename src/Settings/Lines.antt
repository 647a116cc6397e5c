-- ===== src/Settings/Lines.antt =====
-- settings.c: `get_next_line`. A file that is open for reading is the list of the bytes that are
-- left; `fgets` is the C library's. The line buffer of `max` bytes is the characters that `fgets`
-- has put there, before the NUL that it adds.
pub mod Bounds
pub mod Print
use addressroutinggateway.Prelude.{
  ℕ, zero, suc, ◌-◌, List, [], ◌∷◌, Option, none, some, Bool, ◌||◌, ◌==◌, if◌then◌else◌, get_or,
  length,
}
use addressroutinggateway.Protocol.Trust.{c_string}

-- At most n characters, up to and with the first newline; and what is left.
unfoldable pub take_line : ℕ → List ℕ → List ℕ × List ℕ
take_line zero s = ([], s)
take_line (suc n) [] = ([], [])
take_line (suc n) (c ∷ s) =
    let (line, rest) = take_line n s in if c == b'\n' then (c ∷ [], s) else (c ∷ line, rest)

-- `fgets(line, max, f)`: NULL at the end of the file.
unfoldable pub fgets : ℕ → List ℕ → Option (List ℕ × List ℕ)
unfolding take_line
fgets max [] = none
fgets max (c ∷ s) = some (take_line (max - 1) (c ∷ s))

-- `strnlen(line, max)` and the string without the newline that ends it; `none` if the string is
-- empty, when `line[len - 1]` lies before the buffer.
unfoldable pub chop : List ℕ → Option (List ℕ)
chop [] = none
chop (c ∷ []) = some (if c == b'\n' then [] else c ∷ [])
chop (c ∷ d ∷ s) = elim (chop (d ∷ s)) [ none ↦ none | some t ↦ some (c ∷ t) ]

pub data NextLine : Type 0 where
  -- 0: the string in the buffer, and what is left of the file.
  line_read : List ℕ → List ℕ → NextLine
  -- -1
  end_of_file : NextLine
  -- A byte before the buffer is read, and written if it is a newline.
  before_buffer : NextLine
  out_of_fuel : NextLine

abbrev pub chopped : Option (List ℕ) → List ℕ → NextLine
chopped none rest = before_buffer
chopped (some s) rest = line_read s rest

-- `line[0] != '\n' && line[0] != '\r'`, on the negative.
abbrev pub is_blank : List ℕ → Bool
is_blank line = get_or line 0 0 == b'\n' || get_or line 0 0 == b'\r'

-- One unit of fuel for each call of `fgets`.
unfoldable pub next_line : ℕ → ℕ → List ℕ → NextLine
unfolding fgets c_string chop
next_line zero max s = out_of_fuel
next_line (suc fuel) max s = elim (fgets max s) [
  | none ↦ end_of_file
  | some (line, rest) ↦ elim (is_blank line) [
    | Bool.true ↦ next_line fuel max rest
    | Bool.false ↦ chopped (chop (c_string line)) rest
  ]
]

-- Each call of `fgets` takes at least one byte.
unfoldable pub get_next_line : ℕ → List ℕ → NextLine
unfolding next_line
get_next_line max s = next_line (suc (length s)) max s

-- ===== src/Settings/Lines/Bounds.antt =====
-- settings.c: `get_next_line` ends, and stays in the buffer.
use addressroutinggateway.Prelude.{
  ℕ, zero, suc, ◌+◌, ◌-◌, ◌≤◌, ◌<◌, ◌≡◌, ◌≢◌, List, [], ◌∷◌, Option, none, some, Bool, true, false,
  ◌==◌, length, arith, Bool-cases, inl, inr,
}
use addressroutinggateway.Memory.Strings.{IsString}
use addressroutinggateway.Protocol.Trust.{c_string}
use addressroutinggateway.Settings.Lines.{
  take_line, fgets, chop, NextLine, line_read, end_of_file, before_buffer, out_of_fuel, chopped,
  is_blank, next_line, get_next_line,
}

take_line-length :
    (n : ℕ) (s : List ℕ)
    → (length (take_line n s).0 + length (take_line n s).1 ≡ length s)
      × (length (take_line n s).0 ≤ n)
unfolding take_line
take_line-length zero s = omega arith
take_line-length (suc n) [] = omega arith
take_line-length (suc n) (c ∷ s) = ground (arith, take_line-length n s)

take_line-lt : (n c : ℕ) (s : List ℕ) → 1 ≤ n → length (take_line n (c ∷ s)).1 < length (c ∷ s)
unfolding take_line
take_line-lt zero c s h = absurd (omega arith)
take_line-lt (suc n) c s h = ground (arith, take_line-length n s)

length-c_string : (s : List ℕ) → length (c_string s) ≤ length s
unfolding c_string
length-c_string [] = omega arith
length-c_string (c ∷ s) = ground (arith, length-c_string s)

c_string-IsString : (s : List ℕ) → IsString (c_string s)
unfolding c_string
c_string-IsString [] = tt
c_string-IsString (c ∷ s) = elim (Bool-cases (c == 0)) [
  | inl end ↦ rw end tt
  | inr more ↦ rw more (λ e. ground arith, c_string-IsString s)
]

-- What `chop` leaves of s.
abbrev Chopped : List ℕ → Option (List ℕ) → Type 0
Chopped s none = Unit {0}
Chopped s (some t) = IsString t × (length t ≤ length s)

Chopped-cons :
    (c : ℕ) (s : List ℕ) (o : Option (List ℕ))
    → c ≢ 0
    → Chopped s o
    → Chopped (c ∷ s) (elim o [ none ↦ none | some t ↦ some (c ∷ t) ])
Chopped-cons c s none ne h = tt
Chopped-cons c s (some t) ne h = ((ne, h.0), omega arith)

chop-Chopped : (s : List ℕ) → IsString s → Chopped s (chop s)
unfolding chop
chop-Chopped [] h = tt
chop-Chopped (c ∷ []) h = elim (Bool-cases (c == b'\n')) [
  | inl end ↦ rw end (tt, omega arith)
  | inr more ↦ rw more (h, omega arith)
]
chop-Chopped (c ∷ d ∷ s) h = Chopped-cons c (d ∷ s) (chop (d ∷ s)) h.0 (chop-Chopped (d ∷ s) h.1)

-- A string that was read is shorter than the buffer, has no NUL in it, and the file is shorter.
abbrev pub StaysIn : ℕ → List ℕ → NextLine → Type 0
StaysIn max s (line_read line rest) = IsString line × (length line < max) × (length rest < length s)
StaysIn max s end_of_file = Unit {0}
StaysIn max s before_buffer = Unit {0}
StaysIn max s out_of_fuel = ⊥

StaysIn-weaken :
    (max : ℕ) (s t : List ℕ) (o : NextLine)
    → length s ≤ length t
    → StaysIn max s o
    → StaysIn max t o
StaysIn-weaken max s t (line_read line rest) h k = (k.0, k.1, omega arith)
StaysIn-weaken max s t end_of_file h k = tt
StaysIn-weaken max s t before_buffer h k = tt
StaysIn-weaken max s t out_of_fuel h k = elim k [ ]

chopped-StaysIn :
    (max : ℕ) (s line rest : List ℕ) (o : Option (List ℕ))
    → Chopped line o
    → length line < max
    → length rest < length s
    → StaysIn max s (chopped o rest)
chopped-StaysIn max s line rest none h short less = tt
chopped-StaysIn max s line rest (some t) h short less = (h.0, omega arith, less)

-- After a call of `fgets` that has left `rest` of s.
read-StaysIn :
    (fuel max : ℕ) (s line rest : List ℕ) (blank : Bool)
    → length line < max
    → length rest < length s
    → StaysIn max rest (next_line fuel max rest)
    → StaysIn max s (elim blank [
      | true ↦ next_line fuel max rest
      | false ↦ chopped (chop (c_string line)) rest
    ])
read-StaysIn fuel max s line rest true short less later =
    StaysIn-weaken max rest s (next_line fuel max rest) (omega arith) later
read-StaysIn fuel max s line rest false short less later =
    chopped-StaysIn max s (c_string line) rest (chop (c_string line))
      (chop-Chopped (c_string line) (c_string-IsString line)) (omega (arith, length-c_string line))
      less

next_line-StaysIn :
    (fuel max : ℕ) (s : List ℕ) → 2 ≤ max → length s < fuel → StaysIn max s (next_line fuel max s)
unfolding next_line fgets
next_line-StaysIn zero max s big h = absurd (omega arith)
next_line-StaysIn (suc fuel) max [] big h = tt
next_line-StaysIn (suc fuel) max (c ∷ s) big h =
    let line = (take_line (max - 1) (c ∷ s)).0 in
    let rest = (take_line (max - 1) (c ∷ s)).1 in
    let less : length rest < length (c ∷ s) = take_line-lt (max - 1) c s (omega arith) in
    read-StaysIn fuel max (c ∷ s) line rest (is_blank line)
      (omega (arith, take_line-length (max - 1) (c ∷ s))) less
      (next_line-StaysIn fuel max rest big (omega arith))

-- With a buffer of at least two bytes `get_next_line` ends, and a string that it reads has no NUL in
-- it, is shorter than the buffer, and leaves less of the file.
pub get_next_line-StaysIn : (max : ℕ) (s : List ℕ) → 2 ≤ max → StaysIn max s (get_next_line max s)
unfolding get_next_line
get_next_line-StaysIn max s big = next_line-StaysIn (suc (length s)) max s big (omega arith)

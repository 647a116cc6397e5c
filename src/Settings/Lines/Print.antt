-- ===== src/Settings/Lines/Print.antt =====
-- settings.c: `get_next_line` on a file that is written line by line.
use addressroutinggateway.Prelude.{
  ◌∙◌, Option, none, some, Bool, ℕ, zero, suc, ◌+◌, ◌-◌, ◌≤◌, ◌<◌, ◌≡◌, ◌≢◌, ◌⊎◌, refl, ap, List,
  [], ◌∷◌, ◌++◌, some, true, false, ◌==◌, length, length-append, All, arith, inl, inr, get_or,
}
use addressroutinggateway.Memory.Strings.{IsString}
use addressroutinggateway.Protocol.Trust.{c_string}
use addressroutinggateway.Settings.Lines.{
  chopped, NextLine, take_line, fgets, chop, line_read, is_blank, next_line, get_next_line,
}

-- Characters without NUL and newline.
abbrev pub IsPlain : List ℕ → Type 0
IsPlain l = All (λ c. (c ≢ 0) × (c ≢ b'\n')) l

pub IsPlain-IsString : (l : List ℕ) → IsPlain l → IsString l
IsPlain-IsString [] h = tt
IsPlain-IsString (c ∷ l) h = (h.0.0, IsPlain-IsString l h.1)

-- The line l of a file, with its newline.
abbrev pub line_text : List ℕ → List ℕ → List ℕ
line_text l rest = l ++ b'\n' ∷ rest

abbrev pub lines_text : List (List ℕ) → List ℕ → List ℕ
lines_text [] rest = rest
lines_text (l ∷ ls) rest = line_text l (lines_text ls rest)

-- A line that `get_next_line` skips, and one that it returns, whole in a buffer of max bytes.
abbrev pub IsSkipped : ℕ → List ℕ → Type 0
IsSkipped max l = IsPlain l × ((l ≡ []) ⊎ (get_or l 0 0 ≡ b'\r')) × (length l + 2 ≤ max)

abbrev pub IsLine : ℕ → List ℕ → Type 0
IsLine max l = IsPlain l × (l ≢ []) × (get_or l 0 0 ≢ b'\r') × (length l + 2 ≤ max)

take_line-line_text :
    (l rest : List ℕ) (n : ℕ)
    → IsPlain l
    → length l < n
    → take_line n (line_text l rest) ≡ (l ++ b'\n' ∷ [], rest)
unfolding take_line
take_line-line_text l rest zero h short = absurd (omega arith)
take_line-line_text [] rest (suc n) h short = refl
take_line-line_text (c ∷ l) rest (suc n) h short =
    let other : (c == b'\n') ≡ false = ground (arith, h.0.1) in
    rw (other, take_line-line_text l rest n h.1 (omega arith)) refl

c_string-plain : (l : List ℕ) → IsPlain l → c_string (l ++ b'\n' ∷ []) ≡ l ++ b'\n' ∷ []
unfolding c_string
c_string-plain [] h = refl
c_string-plain (c ∷ l) h =
    let other : (c == 0) ≡ false = ground (arith, h.0.0) in rw (other, c_string-plain l h.1) refl

chop-plain : (l : List ℕ) → chop (l ++ b'\n' ∷ []) ≡ some l
unfolding chop
chop-plain [] = refl
chop-plain (c ∷ []) = refl
chop-plain (c ∷ d ∷ l) = rw (chop-plain (d ∷ l)) refl

is_blank-skipped : (max : ℕ) (l : List ℕ) → IsSkipped max l → is_blank (l ++ b'\n' ∷ []) ≡ true
is_blank-skipped max [] h = refl
is_blank-skipped max (c ∷ l) (plain, inl e, short) = absurd cc
is_blank-skipped max (c ∷ l) (plain, inr e, short) = ground arith

is_blank-line : (max : ℕ) (l : List ℕ) → IsLine max l → is_blank (l ++ b'\n' ∷ []) ≡ false
is_blank-line max [] h = absurd (h.1 refl)
is_blank-line max (c ∷ l) h = ground (arith, h.0.0.1, h.2)

fgets-line_text :
    (max : ℕ) (l rest : List ℕ)
    → IsPlain l
    → length l + 2 ≤ max
    → fgets max (line_text l rest) ≡ some (l ++ b'\n' ∷ [], rest)
unfolding fgets
fgets-line_text max [] rest h short =
    ap some (take_line-line_text [] rest (max - 1) h (omega arith))
fgets-line_text max (c ∷ l) rest h short =
    ap some (take_line-line_text (c ∷ l) rest (max - 1) h (omega arith))

-- The loop after a call of `fgets`.
abbrev after_fgets : ℕ → ℕ → List ℕ × List ℕ → Bool → NextLine
after_fgets fuel max (line, rest) true = next_line fuel max rest
after_fgets fuel max (line, rest) false = chopped (chop (c_string line)) rest

next_line-fgets :
    (fuel max : ℕ) (s line rest : List ℕ)
    → fgets max s ≡ some (line, rest)
    → next_line (suc fuel) max s ≡ after_fgets fuel max (line, rest) (is_blank line)
unfolding next_line
next_line-fgets fuel max s line rest e =
    ap
      (λ (o : Option (List ℕ × List ℕ)). elim o as (λ x. NextLine) [
        | none ↦ NextLine.end_of_file
        | some (l, r) ↦ elim (is_blank l) [
          | true ↦ next_line fuel max r
          | false ↦ chopped (chop (c_string l)) r
        ]
      ])
      e

next_line-lines_text :
    (blanks : List (List ℕ)) (fuel max : ℕ) (l rest : List ℕ)
    → All (IsSkipped max) blanks
    → IsLine max l
    → length (lines_text blanks (line_text l rest)) < fuel
    → next_line fuel max (lines_text blanks (line_text l rest)) ≡ line_read l rest
next_line-lines_text blanks zero max l rest h is enough = absurd (omega arith)
next_line-lines_text [] (suc fuel) max l rest h is enough =
    next_line-fgets fuel max (line_text l rest) (l ++ b'\n' ∷ []) rest
      (fgets-line_text max l rest is.0 is.3)
    ∙ ap (after_fgets fuel max (l ++ b'\n' ∷ [], rest)) (is_blank-line max l is)
    ∙ ap (λ s. chopped (chop s) rest) (c_string-plain l is.0)
    ∙ ap (λ o. chopped o rest) (chop-plain l)
next_line-lines_text (b ∷ blanks) (suc fuel) max l rest h is enough =
    let after = lines_text blanks (line_text l rest) in
    next_line-fgets fuel max (line_text b after) (b ++ b'\n' ∷ []) after
      (fgets-line_text max b after h.0.0 h.0.2)
    ∙ ap (after_fgets fuel max (b ++ b'\n' ∷ [], after)) (is_blank-skipped max b h.0)
    ∙ next_line-lines_text blanks fuel max l rest h.1 is
        (omega (arith, length-append b (b'\n' ∷ after)))

-- Behind any number of blank lines, or lines that begin with a carriage return, `get_next_line` reads
-- the next line without its newline, if it is not blank, holds no NUL and fits the buffer with its
-- newline and a NUL; the file is then behind that line.
pub get_next_line-lines_text :
    (blanks : List (List ℕ)) (max : ℕ) (l rest : List ℕ)
    → All (IsSkipped max) blanks
    → IsLine max l
    → get_next_line max (lines_text blanks (line_text l rest)) ≡ line_read l rest
unfolding get_next_line
get_next_line-lines_text blanks max l rest h is =
    next_line-lines_text blanks (suc (length (lines_text blanks (line_text l rest)))) max l rest h
      is (omega arith)

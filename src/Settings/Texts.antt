-- ===== src/Settings/Texts.antt =====
-- arg_error.c: every error code has a text of its own, and the callers' buffers hold it.
use Prim.Native.String.{String}
use addressroutinggateway.Prelude.{
  ℕ, zero, suc, ◌+◌, ◌<◌, ◌≡◌, refl, ap, List, [], ◌∷◌, Bool, true, false, not, ◌&&◌, ◌||◌, ◌==◌,
  if◌then◌else◌, length, ℤ, pos, negsuc, arith, Bool-cases, inl, inr,
}
use addressroutinggateway.Prelude.Text.{codes}
use addressroutinggateway.Memory.{Bytes}
use addressroutinggateway.Memory.Strings.{IsString, string_at, string_at-strncpy}
use addressroutinggateway.Hopper.Address.{same_bytes}
use addressroutinggateway.Settings.Errors.{
  arg_strerror_r, error_texts, find_text, same_code, error_text, is_system_error, max_error_str_len,
}

-- Characters that are not NUL, fewer than n.
fits : ℕ → List ℕ → Bool
fits zero s = false
fits (suc n) [] = true
fits (suc n) (c ∷ s) = not (c == 0) && fits n s

fits→IsString : (n : ℕ) (s : List ℕ) → fits n s ≡ true → IsString s × (length s < n)
unfolding fits
fits→IsString zero s h = absurd cc
fits→IsString (suc n) [] h = (tt, omega arith)
fits→IsString (suc n) (c ∷ s) h = ground (arith, fits→IsString n s)

-- All texts of the table fit.
all_fit : List (ℤ × String) → Bool
all_fit [] = true
all_fit ((case, text) ∷ rest) = fits 34 (codes text) && all_fit rest

find_text-fits :
    (errnum : ℤ) (table : List (ℤ × String))
    → all_fit table ≡ true
    → fits 34 (codes (find_text errnum table)) ≡ true
unfolding find_text all_fit
find_text-fits errnum [] h = unfold fits in refl
find_text-fits errnum ((case, text) ∷ rest) h = elim (Bool-cases (same_code errnum case)) [
  | inl here ↦ rw here (ground arith)
  | inr further ↦ rw further (find_text-fits errnum rest (ground arith))
]

error_texts-fit : all_fit error_texts ≡ true
unfolding all_fit fits
error_texts-fit = refl

-- The case with this text.
case_of : List ℕ → List (ℤ × String) → ℤ
case_of s [] = pos 0
case_of s ((case, text) ∷ rest) = if same_bytes s (codes text) then case else case_of s rest

-- Every case is found again by its text.
all_own : List (ℤ × String) → Bool
all_own [] = true
all_own ((case, text) ∷ rest) =
    same_code (case_of (codes (error_text case)) error_texts) case && all_own rest

error_texts-own : all_own error_texts ≡ true
unfolding all_own case_of error_text find_text
error_texts-own = refl

same_code→eq : (a b : ℤ) → same_code a b ≡ true → a ≡ b
same_code→eq a b h = ground arith

-- The error is one of the cases.
is_case : ℤ → List (ℤ × String) → Bool
is_case errnum [] = false
is_case errnum ((case, text) ∷ rest) = same_code errnum case || is_case errnum rest

case_of-error_text :
    (errnum : ℤ) (table : List (ℤ × String))
    → all_own table ≡ true
    → is_case errnum table ≡ true
    → case_of (codes (error_text errnum)) error_texts ≡ errnum
unfolding all_own is_case
case_of-error_text errnum [] h k = absurd cc
case_of-error_text errnum ((case, text) ∷ rest) h k = elim (Bool-cases (same_code errnum case)) [
  | inl here ↦
      let same = same_code→eq errnum case here in rw same (same_code→eq _ case (ground arith))
  | inr further ↦ case_of-error_text errnum rest (ground arith) (ground arith)
]

-- An error code of arg_error.h.
abbrev pub IsErrorCode : ℤ → Type 0
IsErrorCode errnum = (k : ℕ) × (k < 15) × (errnum ≡ negsuc (149 + k))

IsErrorCode-is_case : (errnum : ℤ) → IsErrorCode errnum → is_case errnum error_texts ≡ true
unfolding is_case
IsErrorCode-is_case errnum (k, small, same) = rw same (ground arith)

IsErrorCode-is_system_error : (errnum : ℤ) → IsErrorCode errnum → is_system_error errnum ≡ false
unfolding is_system_error
IsErrorCode-is_system_error errnum (k, small, same) = rw same (ground arith)

module _ (strerror_r : ℤ → ℕ → Bytes → Bytes) where
  -- What a caller reads from its buffer of MAX_ERROR_STR_LEN bytes after `arg_strerror_r`.
  abbrev pub read_error : ℤ → Bytes → List ℕ
  read_error errnum buf =
      string_at max_error_str_len (arg_strerror_r strerror_r errnum buf max_error_str_len) 0

  -- For a number that is no errno of the system, the buffer of MAX_ERROR_STR_LEN bytes holds the whole
  -- text of the case and a NUL behind it, whatever stood there before.
  pub arg_strerror_r-error_text :
      (errnum : ℤ) (buf : Bytes)
      → is_system_error errnum ≡ false
      → read_error errnum buf ≡ codes (error_text errnum)
  unfolding arg_strerror_r error_text
  arg_strerror_r-error_text errnum buf h =
      let (is, short) =
        fits→IsString 34 (codes (error_text errnum))
          (find_text-fits errnum error_texts error_texts-fit) in
      rw h (string_at-strncpy (codes (error_text errnum)) 34 35 buf is short (omega arith))

  -- Two error codes whose texts are read alike are the same code.
  pub arg_strerror_r-injective :
      (a b : ℤ) (buf buf' : Bytes)
      → IsErrorCode a
      → IsErrorCode b
      → read_error a buf ≡ read_error b buf'
      → a ≡ b
  arg_strerror_r-injective a b buf buf' is is' same =
      let texts : codes (error_text a) ≡ codes (error_text b) = cc (
        arg_strerror_r-error_text a buf (IsErrorCode-is_system_error a is),
        arg_strerror_r-error_text b buf' (IsErrorCode-is_system_error b is'),
        same,
      ) in
      cc (
        case_of-error_text a error_texts error_texts-own (IsErrorCode-is_case a is),
        case_of-error_text b error_texts error_texts-own (IsErrorCode-is_case b is'),
        ap (λ s. case_of s error_texts) texts,
      )

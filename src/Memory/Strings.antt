-- ===== src/Memory/Strings.antt =====
-- C strings in memory: the bytes up to the first NUL.
use addressroutinggateway.Prelude.{
  inr, inl, Bool-cases, ℕ, zero, suc, ◌+◌, ◌≤◌, ◌<◌, ◌≡◌, ◌≢◌, refl, ap, ◌∙◌, List, [], ◌∷◌, ltb,
  ◌==◌, if◌then◌else◌, get_or, length, All, arith,
}
use addressroutinggateway.Memory.{ap, Bytes}

-- `strncpy(b, s, n)`: at most n characters of s, and NUL on what is left of the n.
unfoldable pub strncpy : ℕ → List ℕ → Bytes → Bytes
strncpy n s b j = if ltb j n then get_or s j 0 else b j

-- The string at i, of which at most n characters are looked at.
unfoldable pub string_at : ℕ → Bytes → ℕ → List ℕ
string_at zero b i = []
string_at (suc n) b i = if b i == 0 then [] else b i ∷ string_at n b (suc i)

-- Characters, of which none is NUL.
abbrev pub IsString : List ℕ → Type 0
IsString s = All (λ c. c ≢ 0) s

get_or-length : (s : List ℕ) → get_or s (length s) 0 ≡ 0
get_or-length [] = refl
get_or-length (c ∷ s) = get_or-length s

pub string_at_lem :
    (s : List ℕ) (n : ℕ) (b : Bytes) (i : ℕ)
    → IsString s
    → length s < n
    → ((k : ℕ) → k < length s → b (i + k) ≡ get_or s k 0)
    → b (i + length s) ≡ 0
    → string_at n b i ≡ s
unfolding string_at
string_at_lem s zero b i h short same end = absurd (omega arith)
string_at_lem [] (suc n) b i h short same end = let e : b i ≡ 0 = ground (arith, end) in rw e refl
string_at_lem (c ∷ s) (suc n) b i h short same end =
    let first : b i ≡ c = ap b (omega arith) ∙ same 0 (omega arith) in
    let rest =
      string_at_lem s n b (suc i) h.1 (omega arith)
        (λ k inside. ap b (omega arith) ∙ same (suc k) (omega arith)) (ap b (omega arith) ∙ end) in
    ground (arith, h.0, rest, first)

-- A string that is shorter than the field is read back, whatever the field held before.
pub string_at-strncpy :
    (s : List ℕ) (n m : ℕ) (b : Bytes)
    → IsString s
    → length s < n
    → n ≤ m
    → string_at m (strncpy n s b) 0 ≡ s
unfolding strncpy
string_at-strncpy s n m b h short fits' =
    string_at_lem s m (strncpy n s b) 0 h (omega arith) (λ k inside. ground arith)
      (ground (arith, get_or-length s))

pub length-string_at : (n : ℕ) (b : Bytes) (i : ℕ) → length (string_at n b i) ≤ n
unfolding string_at
length-string_at zero b i = omega arith
length-string_at (suc n) b i = ground (arith, length-string_at n b (suc i))

pub string_at-IsString : (n : ℕ) (b : Bytes) (i : ℕ) → IsString (string_at n b i)
unfolding string_at
string_at-IsString zero b i = tt
string_at-IsString (suc n) b i = elim (Bool-cases (b i == 0)) [
  | inl end ↦ rw end tt
  | inr more ↦ rw more (λ e. ground arith, string_at-IsString n b (suc i))
]

pub get_or-string_at :
    (n : ℕ) (b : Bytes) (i k : ℕ)
    → k < length (string_at n b i)
    → get_or (string_at n b i) k 0 ≡ b (i + k)
unfolding string_at
get_or-string_at zero b i k h = absurd (omega arith)
get_or-string_at (suc n) b i zero h = elim (Bool-cases (b i == 0)) [
  | inl end ↦ absurd (omega (arith, rw end at h))
  | inr more ↦ rw more (ap b (omega arith))
]
get_or-string_at (suc n) b i (suc k) h = elim (Bool-cases (b i == 0)) [
  | inl end ↦ absurd (omega (arith, rw end at h))
  | inr more ↦
      rw more (get_or-string_at n b (suc i) k (omega (arith, rw more at h)) ∙ ap b (omega arith))
]

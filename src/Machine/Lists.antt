-- ===== src/Machine/Lists.antt =====
-- hopper.c: the list of the gateways with one added at its end, or moved to the front.
use addressroutinggateway.Prelude.{
  ℕ, ◌<◌, ◌≡◌, ◌≢◌, subst, List, [], ◌∷◌, ◌++◌, inl, inr, ◌==◌, ==_iff, Bool-cases, All, arith,
}
use addressroutinggateway.Hopper.Config.{without}
use addressroutinggateway.Machine.Invariant.{IsOnce}

pub All-concat : (P : ℕ → Type 0) (xs : List ℕ) (a : ℕ) → All P xs → P a → All P (xs ++ a ∷ [])
All-concat P [] a h p = (p, tt)
All-concat P (x ∷ xs) a h p = (h.0, All-concat P xs a h.1 p)

pub IsOnce-concat : (xs : List ℕ) (a : ℕ) → All (λ b. b < a) xs → IsOnce xs → IsOnce (xs ++ a ∷ [])
IsOnce-concat [] a below once = (tt, tt)
IsOnce-concat (x ∷ xs) a below once = (
  All-concat (λ b. b ≢ x) xs a once.0 (λ (e : a ≡ x). omega arith),
  IsOnce-concat xs a below.1 once.1,
)

pub All-without : (P : ℕ → Type 0) (a : ℕ) (xs : List ℕ) → All P xs → All P (without a xs)
unfolding without
All-without P a [] h = tt
All-without P a (b ∷ xs) h = elim (Bool-cases (b == a)) [
  | inl here ↦ rw here h.1
  | inr off ↦ rw off (h.0, All-without P a xs h.1)
]

-- In a list that holds each once, taking one out leaves the others.
pub without-ne : (a : ℕ) (xs : List ℕ) → IsOnce xs → All (λ b. b ≢ a) (without a xs)
unfolding without
without-ne a [] once = tt
without-ne a (b ∷ xs) once = elim (Bool-cases (b == a)) [
  | inl here ↦ rw here (subst (λ c. All (λ d. d ≢ c) xs) ((==_iff b a).0 here) once.0)
  | inr off ↦ rw off ((λ (e : b ≡ a). ground arith), without-ne a xs once.1)
]

pub IsOnce-without : (a : ℕ) (xs : List ℕ) → IsOnce xs → IsOnce (without a xs)
unfolding without
IsOnce-without a [] once = tt
IsOnce-without a (b ∷ xs) once = elim (Bool-cases (b == a)) [
  | inl here ↦ rw here once.1
  | inr off ↦ rw off (All-without (λ c. c ≢ b) a xs once.0, IsOnce-without a xs once.1)
]

-- ===== src/Nat/Dict.antt =====
-- An association list with numbers as keys, as the description of what a uthash table holds.
use addressroutinggateway.Prelude.{
  ℕ, ◌≡◌, List, [], ◌∷◌, ◌++◌, Option, none, some, ◌==◌, if◌then◌else◌, arith,
}

module _ {ℓ} {V : Type ℓ} where
  abbrev pub lookup : ℕ → List (ℕ × V) → Option V
  lookup k [] = none
  lookup k ((j, v) ∷ xs) = if j == k then some v else lookup k xs

  -- The value of a key that is there, replaced in its place.
  abbrev pub replace : ℕ → V → List (ℕ × V) → List (ℕ × V)
  replace k v [] = []
  replace k v ((j, u) ∷ xs) = if j == k then (j, v) ∷ xs else (j, u) ∷ replace k v xs

  abbrev pub erase : ℕ → List (ℕ × V) → List (ℕ × V)
  erase k [] = []
  erase k ((j, u) ∷ xs) = if j == k then xs else (j, u) ∷ erase k xs

  pub lookup-replace_self :
      (k : ℕ) (v u : V) (xs : List (ℕ × V))
      → lookup k xs ≡ some u
      → lookup k (replace k v xs) ≡ some v
  lookup-replace_self k v u [] h = absurd (cc)
  lookup-replace_self k v u ((j, x) ∷ xs) h = ground (arith, lookup-replace_self k v u xs)

  pub lookup-append_new :
      (k : ℕ) (v : V) (xs : List (ℕ × V))
      → lookup k xs ≡ none
      → lookup k (xs ++ (k, v) ∷ []) ≡ some v
  lookup-append_new k v [] h = ground arith
  lookup-append_new k v ((j, x) ∷ xs) h = ground (arith, lookup-append_new k v xs)

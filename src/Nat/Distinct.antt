-- ===== src/Nat/Distinct.antt =====
-- Association lists in which no key stands twice, and what a change of one item does to them.
use addressroutinggateway.Prelude.{ℕ, ◌≡◌, ◌≢◌, refl, List, [], ◌∷◌, ◌++◌, none, arith}
use addressroutinggateway.Nat.Dict.{lookup, replace, erase}

module _ {V : Type 0} where
  abbrev pub IsDistinct : List (ℕ × V) → Type 0
  IsDistinct [] = Unit {0}
  IsDistinct ((k, v) ∷ xs) = (lookup k xs ≡ none) × IsDistinct xs

  module _ (k : ℕ) (v : V) (after : List (ℕ × V)) where
    lookup-none-ne : (j : ℕ) (pre : List (ℕ × V)) → lookup j (pre ++ (k, v) ∷ after) ≡ none → j ≢ k
    lookup-none-ne j [] h = ground arith
    lookup-none-ne j ((i, u) ∷ pre) h = ground (arith, lookup-none-ne j pre)

    lookup-none-without :
        (j : ℕ) (pre : List (ℕ × V))
        → lookup j (pre ++ (k, v) ∷ after) ≡ none
        → lookup j (pre ++ after) ≡ none
    lookup-none-without j [] h = ground arith
    lookup-none-without j ((i, u) ∷ pre) h = ground (arith, lookup-none-without j pre)

    lookup-none-changed :
        (v' : V) (j : ℕ) (pre : List (ℕ × V))
        → lookup j (pre ++ (k, v) ∷ after) ≡ none
        → lookup j (pre ++ (k, v') ∷ after) ≡ none
    lookup-none-changed v' j [] h = ground arith
    lookup-none-changed v' j ((i, u) ∷ pre) h = ground (arith, lookup-none-changed v' j pre)

    pub erase-middle :
        (pre : List (ℕ × V))
        → IsDistinct (pre ++ (k, v) ∷ after)
        → erase k (pre ++ (k, v) ∷ after) ≡ pre ++ after
    erase-middle [] d = ground arith
    erase-middle ((j, u) ∷ pre) d = ground (arith, lookup-none-ne j pre d.0, erase-middle pre d.1)

    pub replace-middle :
        (v' : V) (pre : List (ℕ × V))
        → IsDistinct (pre ++ (k, v) ∷ after)
        → replace k v' (pre ++ (k, v) ∷ after) ≡ pre ++ (k, v') ∷ after
    replace-middle v' [] d = ground arith
    replace-middle v' ((j, u) ∷ pre) d =
        ground (arith, lookup-none-ne j pre d.0, replace-middle v' pre d.1)

    pub IsDistinct-without :
        (pre : List (ℕ × V)) → IsDistinct (pre ++ (k, v) ∷ after) → IsDistinct (pre ++ after)
    IsDistinct-without [] d = d.1
    IsDistinct-without ((j, u) ∷ pre) d =
        (lookup-none-without j pre d.0, IsDistinct-without pre d.1)

    pub IsDistinct-changed :
        (v' : V) (pre : List (ℕ × V))
        → IsDistinct (pre ++ (k, v) ∷ after)
        → IsDistinct (pre ++ (k, v') ∷ after)
    IsDistinct-changed v' [] d = d
    IsDistinct-changed v' ((j, u) ∷ pre) d =
        (lookup-none-changed v' j pre d.0, IsDistinct-changed v' pre d.1)

  pub IsDistinct-append_new :
      (k : ℕ) (v : V) (xs : List (ℕ × V))
      → lookup k xs ≡ none
      → IsDistinct xs
      → IsDistinct (xs ++ (k, v) ∷ [])
  IsDistinct-append_new k v [] h d = (refl, tt)
  IsDistinct-append_new k v ((j, u) ∷ xs) h d =
      (absent, IsDistinct-append_new k v xs (ground arith) d.1)
    where
      other : (ys : List (ℕ × V)) → lookup j ys ≡ none → j ≢ k → lookup j (ys ++ (k, v) ∷ []) ≡ none
      other [] e ne = ground arith
      other ((i, x) ∷ ys) e ne = ground (arith, other ys)

      absent : lookup j (xs ++ (k, v) ∷ []) ≡ none
      absent = other xs d.0 (ground arith)

  lookup-none-replace :
      (k j : ℕ) (v : V) (xs : List (ℕ × V)) → lookup j xs ≡ none → lookup j (replace k v xs) ≡ none
  lookup-none-replace k j v [] h = refl
  lookup-none-replace k j v ((i, u) ∷ xs) h = ground (arith, lookup-none-replace k j v xs)

  pub IsDistinct-replace :
      (k : ℕ) (v : V) (xs : List (ℕ × V)) → IsDistinct xs → IsDistinct (replace k v xs)
  IsDistinct-replace k v [] d = tt
  IsDistinct-replace k v ((j, u) ∷ xs) d =
      ground (arith, IsDistinct-replace k v xs d.1, lookup-none-replace k j v xs d.0)

-- ===== src/Settings/Config/Listing.antt =====
-- settings.c: which files of the directory name a gate.
use addressroutinggateway.Prelude.{
  not, ℕ, suc, ◌-◌, ◌≤◌, ◌≡◌, ◌≢◌, refl, sym, ap, ◌∙◌, subst, List, [], ◌∷◌, ◌++◌, Bool, true,
  false, Bool-cases, inl, inr, take, drop, length, length-append, take-append-drop, arith, ◌==◌,
  ltb, ◌&&◌, ◌||◌,
}
use addressroutinggateway.Prelude.Text.{codes}
use addressroutinggateway.Hopper.Address.{same_bytes}
use addressroutinggateway.Hopper.Window.{same_bytes_refl}
use addressroutinggateway.Security.Authentic.{same_bytes→eq}
use addressroutinggateway.Settings.Config.{is_gate_file}
use addressroutinggateway.Settings.Config.Gates.{gate_names, gate_names-gate, gate_names-other}

-- The gates, in their order, whose name does not begin with a dot and which have a file of that name
-- with ".pub" behind it; and no others.
pub data ListsGates : List (List ℕ) → List (List ℕ) → Type 0 where
  no_file : ListsGates [] []
  gate_file :
      (c : ℕ) (rest : List ℕ) {files gates : List (List ℕ)}
      → c ≢ b'.'
      → ListsGates files gates
      → ListsGates ((c ∷ rest ++ codes ".pub") ∷ files) ((c ∷ rest) ∷ gates)
  other_file :
      (name : List ℕ) {files gates : List (List ℕ)}
      → ((c : ℕ) (rest : List ℕ) → c ≢ b'.' → name ≢ c ∷ rest ++ codes ".pub")
      → ListsGates files gates
      → ListsGates (name ∷ files) gates

drop-append : (xs ys : List ℕ) → drop (length xs) (xs ++ ys) ≡ ys
drop-append [] ys = refl
drop-append (x ∷ xs) ys = drop-append xs ys

take-append : (xs ys : List ℕ) → take (length xs) (xs ++ ys) ≡ xs
take-append [] ys = refl
take-append (x ∷ xs) ys = ap (λ zs. x ∷ zs) (take-append xs ys)

module _ (c : ℕ) (rest : List ℕ) where
  before_suffix : length (c ∷ rest ++ codes ".pub") - 4 ≡ length (c ∷ rest)
  before_suffix = omega (arith, length-append (c ∷ rest) (codes ".pub"))

  is_gate_file-true : c ≢ b'.' → is_gate_file (c ∷ rest ++ codes ".pub") ≡ true
  unfolding is_gate_file
  is_gate_file-true shown =
      let long : ltb (length (c ∷ rest ++ codes ".pub")) 5 ≡ false =
        ground (arith, length-append rest (codes ".pub")) in
      let plain : (c == b'.') ≡ false = ground arith in
      rw (plain, long, before_suffix, drop-append (c ∷ rest) (codes ".pub"))
        (same_bytes_refl (codes ".pub"))

second_true : (a b : Bool) → (a && b) ≡ true → b ≡ true
second_true true b e = e
second_true false b e = absurd cc

-- The other way round.
is_gate_file-name :
    (name : List ℕ)
    → is_gate_file name ≡ true
    → (c : ℕ) × (rest : List ℕ) × (c ≢ b'.') × (name ≡ c ∷ rest ++ codes ".pub")
unfolding is_gate_file
is_gate_file-name [] e = absurd (ground arith)
is_gate_file-name (c ∷ rest) e =
    let k = length rest - 4 in
    let long : 4 ≤ length rest = ground arith in
    let at : length (c ∷ rest) - 4 ≡ suc k = omega arith in
    let ends : same_bytes (drop (length (c ∷ rest) - 4) (c ∷ rest)) (codes ".pub") ≡ true =
      second_true (not (c == b'.' || ltb (length (c ∷ rest)) 5)) _ e in
    let suffix : drop k rest ≡ codes ".pub" =
      same_bytes→eq (drop k rest) (codes ".pub") (rw at at ends) in
    (
      c,
      take k rest,
      (λ h. ground arith),
      ap (λ t. c ∷ t) (sym (take-append-drop k rest) ∙ ap (λ t. take k rest ++ t) suffix),
    )

pub ListsGates-gate_names :
    {files gates : List (List ℕ)} → ListsGates files gates → gate_names files ≡ gates
ListsGates-gate_names no_file = unfold gate_names in refl
ListsGates-gate_names (gate_file c rest {files} {gates} shown more) =
    gate_names-gate (c ∷ rest ++ codes ".pub") files (is_gate_file-true c rest shown)
    ∙ rw (before_suffix c rest, take-append (c ∷ rest) (codes ".pub"), ListsGates-gate_names more)
        refl
ListsGates-gate_names (other_file name {files} {gates} other more) =
    elim (Bool-cases (is_gate_file name)) [
      | inl gate ↦
          let (c, rest, shown, same) = is_gate_file-name name gate in
          absurd (other c rest shown same)
      | inr off ↦ gate_names-other name files off ∙ ListsGates-gate_names more
    ]

gate_file-ListsGates :
    (name : List ℕ) (files gates : List (List ℕ))
    → is_gate_file name ≡ true
    → ListsGates files gates
    → ListsGates (name ∷ files) (take (length name - 4) name ∷ gates)
gate_file-ListsGates name files gates gate more =
    let (c, rest, shown, same) = is_gate_file-name name gate in
    subst (λ n. ListsGates (n ∷ files) (take (length n - 4) n ∷ gates)) (sym same)
      (rw (before_suffix c rest, take-append (c ∷ rest) (codes ".pub"))
        (gate_file c rest shown more))

-- Every directory has such a list.
pub gate_names-ListsGates : (files : List (List ℕ)) → ListsGates files (gate_names files)
gate_names-ListsGates [] = unfold gate_names in no_file
gate_names-ListsGates (name ∷ files) = elim (Bool-cases (is_gate_file name)) [
  | inl gate ↦
      rw (gate_names-gate name files gate)
        (gate_file-ListsGates name files (gate_names files) gate (gate_names-ListsGates files))
  | inr off ↦ rw (gate_names-other name files off) (
      other_file name
        (λ c rest shown same.
          true_false (sym (is_gate_file-true c rest shown) ∙ ap is_gate_file (sym same) ∙ off))
        (gate_names-ListsGates files))
]
  where
    true_false : true ≡ false → ⊥
    true_false h = cc

-- ===== src/Settings/Config/Gates.antt =====
-- settings.c: the list of gates that `read_config` builds.
use addressroutinggateway.Prelude.{
  ℕ, suc, ◌+◌, ◌-◌, ◌≡◌, ◌≢◌, refl, sym, ap, ◌∙◌, subst, List, [], ◌∷◌, ◌++◌, Option, none, some,
  Bool, true, false, if◌then◌else◌, length, length-append, arith, Bool-cases, inl, inr, take,
}
use mathlib.Core.List.{append-nil, append_assoc}
use addressroutinggateway.Settings.Config.{
  GateNode, GateList, no_gates, set_node, set_next, is_gate_file, add_gate, add_gates, end_gates,
  Reading, got, null_dereference, stray_access, unfinished,
}

-- The names without ".pub" of the gate files, in their order.
unfoldable pub gate_names : List (List ℕ) → List (List ℕ)
unfolding is_gate_file
gate_names [] = []
gate_names (name ∷ names) =
    let rest = gate_names names in
    if is_gate_file name then take (length name - 4) name ∷ rest else rest

-- From p the links lead through nodes with these names to NULL.
abbrev pub Chain : (ℕ → Option GateNode) → Option ℕ → List (List ℕ) → Type 0
Chain nodes p [] = p ≡ none
Chain nodes p (name ∷ names) =
    (a : ℕ) × (b : Option ℕ) × (p ≡ some a)
    × (nodes a ≡ some (record { gate_name = name; next = b }))
    × Chain nodes b names

-- The nodes from address a on hold these names, each linked to the next.
abbrev Laid : (ℕ → Option GateNode) → ℕ → List (List ℕ) → Type 0
Laid nodes a [] = Unit {0}
Laid nodes a (name ∷ []) = nodes a ≡ some (record { gate_name = name; next = none })
Laid nodes a (name ∷ x ∷ names) =
    (nodes a ≡ some (record { gate_name = name; next = some (suc a) }))
    × Laid nodes (suc a) (x ∷ names)

-- The list with these names, of which at least one, has been built with all calls of `calloc`.
abbrev Built : List ℕ → List (List ℕ) → GateList → Type 0
Built x names g =
    Laid g.nodes 0 (x ∷ names)
    × (g.head ≡ some 0)
    × (g.curr ≡ some (length names))
    × (g.callocs ≡ suc (length names))

Laid-Chain :
    (nodes : ℕ → Option GateNode) (a : ℕ) (x : List ℕ) (names : List (List ℕ))
    → Laid nodes a (x ∷ names)
    → Chain nodes (some a) (x ∷ names)
Laid-Chain nodes a x [] h = (a, none, refl, h, refl)
Laid-Chain nodes a x (y ∷ names) h =
    (a, some (suc a), refl, h.0, Laid-Chain nodes (suc a) y names h.1)

-- A further node linked behind the last one, which has address a + length names.
Laid-concat :
    (nodes : ℕ → Option GateNode) (a : ℕ) (x : List ℕ) (names : List (List ℕ)) (y : List ℕ)
    (m n : ℕ)
    → m ≡ a + length names
    → n ≡ suc m
    → Laid nodes a (x ∷ names)
    → Laid
        (set_node n
          (some (record { gate_name = y; next = none }))
          (set_next (some m) (some n) nodes))
        a
        (x ∷ names ++ y ∷ [])
Laid-concat nodes a x [] y m n e e' h =
    let here : m ≡ a = omega arith in
    let there : n ≡ suc a = omega arith in
    ground (arith, ap nodes here, ap (λ (t : ℕ). some t) there)
Laid-concat nodes a x (z ∷ names) y m n e e' h =
    (ground (arith, h.0), Laid-concat nodes (suc a) z names y m n (omega arith) e' h.1)

pub gate_names-gate :
    (f : List ℕ) (files : List (List ℕ))
    → is_gate_file f ≡ true
    → gate_names (f ∷ files) ≡ take (length f - 4) f ∷ gate_names files
unfolding gate_names
gate_names-gate f files e = rw e refl

pub gate_names-other :
    (f : List ℕ) (files : List (List ℕ))
    → is_gate_file f ≡ false
    → gate_names (f ∷ files) ≡ gate_names files
unfolding gate_names
gate_names-other f files e = rw e refl

module _ (calloc : ℕ → Bool) (f : List ℕ) (files : List (List ℕ)) (g : GateList) where
  add_gates-gate :
      is_gate_file f ≡ true
      → add_gates calloc (f ∷ files) g ≡ add_gates calloc files (add_gate calloc f g)
  unfolding add_gates
  add_gates-gate e = ap (λ b. add_gates calloc files (if b then add_gate calloc f g else g)) e

  add_gates-other :
      is_gate_file f ≡ false → add_gates calloc (f ∷ files) g ≡ add_gates calloc files g
  unfolding add_gates
  add_gates-other e = ap (λ b. add_gates calloc files (if b then add_gate calloc f g else g)) e

module _ (calloc : ℕ → Bool) (all : (n : ℕ) → calloc n ≡ true) where
  add_gate-Built :
      (name x : List ℕ) (names : List (List ℕ)) (g : GateList)
      → Built x names g
      → Built x (names ++ take (length name - 4) name ∷ []) (add_gate calloc name g)
  unfolding add_gate
  add_gate-Built name x names g (laid, head, curr, callocs) =
      let y = take (length name - 4) name in
      let n = length-append names (y ∷ []) in
      rw (all g.callocs, curr, head)
        (
          Laid-concat g.nodes 0 x names y (length names) g.callocs (omega arith) callocs laid,
          refl,
          ap some (omega (arith, callocs, n)),
          omega (arith, callocs, n),
        )

  first_gate-Built :
      (name : List ℕ) → Built (take (length name - 4) name) [] (add_gate calloc name no_gates)
  unfolding add_gate
  first_gate-Built name = rw (all 0) (refl, refl, refl, refl)

  add_gates-Built :
      (files : List (List ℕ)) (x : List ℕ) (names : List (List ℕ)) (g : GateList)
      → Built x names g
      → Built x (names ++ gate_names files) (add_gates calloc files g)
  add_gates-Built [] x names g h =
      unfold add_gates gate_names in subst (λ ns. Built x ns g) (sym (append-nil names)) h
  add_gates-Built (f ∷ files) x names g h = elim (Bool-cases (is_gate_file f)) [
    | inl gate ↦
        rw (add_gates-gate calloc f files g gate, gate_names-gate f files gate)
          (subst (λ ns. Built x ns (add_gates calloc files (add_gate calloc f g)))
            (append_assoc names (take (length f - 4) f ∷ []) (gate_names files))
            (add_gates-Built files x (names ++ take (length f - 4) f ∷ []) (add_gate calloc f g)
              (add_gate-Built f x names g h)))
    | inr other ↦
        rw (add_gates-other calloc f files g other, gate_names-other f files other)
          (add_gates-Built files x names g h)
  ]

  -- There is a gate file among the files.
  add_gates-first :
      (files : List (List ℕ)) (x : List ℕ) (names : List (List ℕ))
      → gate_names files ≡ x ∷ names
      → Built x names (add_gates calloc files no_gates)
  add_gates-first [] x names e = absurd (none_left e)
    where
      none_left : gate_names [] ≡ x ∷ names → ⊥
      none_left h = unfold gate_names in cc
  add_gates-first (f ∷ files) x names e = elim (Bool-cases (is_gate_file f)) [
    | inl gate ↦
        let (y, ys) = same_parts (sym (gate_names-gate f files gate) ∙ e) in
        let built =
          subst (Built (take (length f - 4) f) (gate_names files))
            (sym (add_gates-gate calloc f files no_gates gate))
            (add_gates-Built files (take (length f - 4) f) [] (add_gate calloc f no_gates)
              (first_gate-Built f)) in
        subst (λ n. Built n names (add_gates calloc (f ∷ files) no_gates)) y
          (subst (λ ns. Built (take (length f - 4) f) ns (add_gates calloc (f ∷ files) no_gates)) ys
            built)
    | inr other ↦
        subst (Built x names) (sym (add_gates-other calloc f files no_gates other))
          (add_gates-first files x names (sym (gate_names-other f files other) ∙ e))
  ]
    where
      same_parts : {y z : List ℕ} {ys zs : List (List ℕ)} → y ∷ ys ≡ z ∷ zs → (y ≡ z) × (ys ≡ zs)
      same_parts h = (cc, cc)

Laid-end :
    (nodes : ℕ → Option GateNode) (a : ℕ) (x : List ℕ) (names : List (List ℕ)) (m : ℕ)
    → m ≡ a + length names
    → Laid nodes a (x ∷ names)
    → Laid (set_next (some m) none nodes) a (x ∷ names)
Laid-end nodes a x [] m e h = let here : m ≡ a = omega arith in ground (arith, ap nodes here)
Laid-end nodes a x (y ∷ names) m e h =
    (ground (arith, h.0), Laid-end nodes (suc a) y names m (omega arith) h.1)

-- What has been built, and is closed by `currGate->next = NULL`.
abbrev pub EndsIn : List (List ℕ) → Reading GateList → Type 0
EndsIn names (got g) = Chain g.nodes g.head names
EndsIn names (Reading.failed e) = ⊥
EndsIn names null_dereference = ⊥
EndsIn names stray_access = ⊥
EndsIn names unfinished = ⊥

Built-EndsIn :
    (g : GateList) (x : List ℕ) (names : List (List ℕ))
    → Built x names g
    → EndsIn (x ∷ names) (end_gates g g.curr)
Built-EndsIn g x names (laid, head, curr, callocs) =
    rw (curr, head)
      (Laid-Chain _ 0 x names (Laid-end g.nodes 0 x names (length names) (omega arith) laid))

-- With memory for each gate, and a gate file in the directory, the list that `read_config` leaves at
-- `conf->gate` holds the names of the gate files without ".pub", in the directory's order, and ends.
pub list_gates-EndsIn :
    (calloc : ℕ → Bool) (files : List (List ℕ))
    → ((n : ℕ) → calloc n ≡ true)
    → gate_names files ≢ []
    → EndsIn
        (gate_names files)
        (end_gates (add_gates calloc files no_gates) (add_gates calloc files no_gates).curr)
list_gates-EndsIn calloc files all some_gate = by_names (gate_names files) refl
  where
    by_names :
        (ns : List (List ℕ))
        → gate_names files ≡ ns
        → EndsIn
            (gate_names files)
            (end_gates (add_gates calloc files no_gates) (add_gates calloc files no_gates).curr)
    by_names [] e = absurd (some_gate e)
    by_names (x ∷ ns) e = rw e (
        Built-EndsIn (add_gates calloc files no_gates) x ns
          (add_gates-first calloc all files x ns e))

-- Without a gate file the loop adds nothing.
add_gates-none :
    (calloc : ℕ → Bool) (files : List (List ℕ)) (g : GateList)
    → gate_names files ≡ []
    → add_gates calloc files g ≡ g
add_gates-none calloc [] g e = unfold add_gates in refl
add_gates-none calloc (f ∷ files) g e = elim (Bool-cases (is_gate_file f)) [
  | inl gate ↦ absurd (not_empty (sym (gate_names-gate f files gate) ∙ e))
  | inr other ↦
      add_gates-other calloc f files g other
      ∙ add_gates-none calloc files g (sym (gate_names-other f files other) ∙ e)
]
  where
    not_empty : {y : List ℕ} {ys : List (List ℕ)} → y ∷ ys ≡ [] → ⊥
    not_empty h = cc

pub end_gates-none :
    (calloc : ℕ → Bool) (files : List (List ℕ))
    → gate_names files ≡ []
    → end_gates (add_gates calloc files no_gates) (add_gates calloc files no_gates).curr
      ≡ null_dereference
end_gates-none calloc files e =
    ap (λ (g : GateList). end_gates g g.curr) (add_gates-none calloc files no_gates e)

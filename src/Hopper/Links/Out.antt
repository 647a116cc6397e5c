-- ===== src/Hopper/Links/Out.antt =====
-- hopper.c: one gateway is taken out of the list that has been made.
use addressroutinggateway.Prelude.{
  ℕ, ◌≡◌, ◌≢◌, sym, ◌∙◌, subst, List, [], ◌∷◌, All, none, some, ◌⊎◌, inl, inr, ◌==◌, ==_iff,
  Bool-cases,
}
use addressroutinggateway.Hopper.Config.{without}
use addressroutinggateway.Hopper.Links.{false, Node, unlink}
use addressroutinggateway.Hopper.Links.Fields.{==-self, unlink-next_at, unlink-next_off}
use addressroutinggateway.Hopper.Links.Order.{Chain, Chain-cong, All-imp}
use addressroutinggateway.Machine.Invariant.{IsOnce}
use addressroutinggateway.Hopper.Links.Made.{Linked, Linked-Chain, some_of}

abbrev pub Has : ℕ → List ℕ → Type 0
Has c [] = ⊥
Has c (x ∷ xs) = (x ≡ c) ⊎ Has c xs

-- The gateway at c, behind q, has been unlinked from the list x ∷ xs.
pub record IsOut (f : ℕ → Node) (c x : ℕ) (xs : List ℕ) : Type 0 where
  pub behind : ℕ
  pub link : (f c).prev ≡ some behind
  pub other : (f c).next ≢ some c
  pub among : (b : ℕ) → All (λ d. d ≢ b) (x ∷ xs) → behind ≢ b
  pub chain : Chain (unlink c f) (unlink c f x).next (without c xs)

first-other :
    (f : ℕ → Node) (x : ℕ) (xs : List ℕ)
    → All (λ b. b ≢ x) xs
    → Linked f (some x) (f x).next xs
    → (f x).next ≢ some x
first-other f x [] once c e = absurd (none_some (sym c ∙ e))
  where
    none_some : none ≢ some x
    none_some h = cc
first-other f x (y ∷ ys) once c e = once.0 (some_of (sym c.0 ∙ e))

-- It is the first of the others.
IsOut-first :
    (f : ℕ → Node) (x y : ℕ) (ys : List ℕ)
    → (f y).prev ≡ some x
    → Linked f (some y) (f y).next ys
    → IsOnce (x ∷ y ∷ ys)
    → IsOut f y x (y ∷ ys)
unfolding without
IsOut-first f x y ys link c once =
    let other = first-other f y ys once.1.0 c in
    record {
      behind = x;
      link = link;
      other = other;
      among = λ b h. h.0;
      chain = rw (==-self y) (
          rw (unlink-next_at f y x link other) (
            Chain-cong f (unlink y f) (f y).next ys
              (All-imp ys (λ d (ne : d ≢ x). unlink-next_off f y x link other d (λ e. ne (sym e)))
                once.0.1)
              (Linked-Chain f (some y) (f y).next ys c)));
    }

-- It stands further behind.
IsOut-more :
    (f : ℕ → Node) (c x y : ℕ) (ys : List ℕ)
    → (y == c) ≡ false
    → (f x).next ≡ some y
    → All (λ b. b ≢ x) (y ∷ ys)
    → IsOut f c y ys
    → IsOut f c x (y ∷ ys)
unfolding without
IsOut-more f c x y ys off at once o = record {
  behind = o.behind;
  link = o.link;
  other = o.other;
  among = λ b h. o.among b h.1;
  chain = rw off (unlink-next_off f c o.behind o.link o.other x (o.among x once) ∙ at, o.chain);
}

pub Linked-IsOut :
    (f : ℕ → Node) (c x : ℕ) (xs : List ℕ)
    → Linked f (some x) (f x).next xs
    → IsOnce (x ∷ xs)
    → Has c xs
    → IsOut f c x xs
Linked-IsOut f c x [] l once h = absurd h
Linked-IsOut f c x (y ∷ ys) l once (inl here) =
    subst (λ d. IsOut f d x (y ∷ ys)) here (IsOut-first f x y ys l.1 l.2 once)
Linked-IsOut f c x (y ∷ ys) l once (inr further) = elim (Bool-cases (y == c)) [
  | inl here ↦
      subst (λ d. IsOut f d x (y ∷ ys)) ((==_iff y c).0 here) (IsOut-first f x y ys l.1 l.2 once)
  | inr off ↦ IsOut-more f c x y ys off l.0 once.0 (Linked-IsOut f c y ys l.2 once.1 further)
]

-- ===== src/Hopper/Links/Fields.antt =====
-- hopper.c: what setting a link changes.
use addressroutinggateway.Prelude.{
  arith, ℕ, ◌≡◌, ◌≢◌, refl, sym, ap, ◌∙◌, Option, none, some, true, false, inl, inr, ◌==◌, ==_iff,
  Bool-cases,
}
use addressroutinggateway.Hopper.Links.{Node, set_next, set_prev, unlink}

pub ==-self : (a : ℕ) → (a == a) ≡ true
==-self a = (==_iff a a).1 refl

pub ==-off : (a b : ℕ) → a ≢ b → (a == b) ≡ false
==-off a b h = ground arith

pub set_prev-next : (p v : Option ℕ) (f : ℕ → Node) (b : ℕ) → (set_prev p v f b).next ≡ (f b).next
unfolding set_prev
set_prev-next none v f b = refl
set_prev-next (some a) v f b = elim (Bool-cases (b == a)) [
  | inl here ↦ rw here refl
  | inr off ↦ rw off refl
]

pub set_next-prev : (p v : Option ℕ) (f : ℕ → Node) (b : ℕ) → (set_next p v f b).prev ≡ (f b).prev
unfolding set_next
set_next-prev none v f b = refl
set_next-prev (some a) v f b = elim (Bool-cases (b == a)) [
  | inl here ↦ rw here refl
  | inr off ↦ rw off refl
]

pub set_prev-off :
    (p v : Option ℕ) (f : ℕ → Node) (b : ℕ) → p ≢ some b → (set_prev p v f b).prev ≡ (f b).prev
unfolding set_prev
set_prev-off none v f b h = refl
set_prev-off (some a) v f b h = rw (==-off b a (λ e. h (ap (λ c. some c) (sym e)))) refl

pub set_next-off :
    (p v : Option ℕ) (f : ℕ → Node) (b : ℕ) → p ≢ some b → (set_next p v f b).next ≡ (f b).next
unfolding set_next
set_next-off none v f b h = refl
set_next-off (some a) v f b h = rw (==-off b a (λ e. h (ap (λ c. some c) (sym e)))) refl

pub set_prev-at : (p v : Option ℕ) (f : ℕ → Node) (b : ℕ) → p ≡ some b → (set_prev p v f b).prev ≡ v
unfolding set_prev
set_prev-at p v f b e = rw e (rw (==-self b) refl)

pub set_next-at : (p v : Option ℕ) (f : ℕ → Node) (b : ℕ) → p ≡ some b → (set_next p v f b).next ≡ v
unfolding set_next
set_next-at p v f b e = rw e (rw (==-self b) refl)

-- The gateway at x, behind the one at a, is taken out.
module _ (f : ℕ → Node) (x a : ℕ) (before : (f x).prev ≡ some a) (other : (f x).next ≢ some x) where
  same_prev : (set_prev (f x).next (f x).prev f x).prev ≡ some a
  same_prev = set_prev-off (f x).next (f x).prev f x other ∙ before

  pub unlink-next_at : (unlink x f a).next ≡ (f x).next
  unfolding unlink
  unlink-next_at =
      set_next-at _ _ (set_prev (f x).next (f x).prev f) a same_prev
      ∙ set_prev-next (f x).next (f x).prev f x

  pub unlink-next_off : (b : ℕ) → a ≢ b → (unlink x f b).next ≡ (f b).next
  unfolding unlink
  unlink-next_off b h =
      set_next-off _ _ (set_prev (f x).next (f x).prev f) b (λ e. h (some_of (sym same_prev ∙ e)))
      ∙ set_prev-next (f x).next (f x).prev f b
    where
      some_of : {y z : ℕ} → some y ≡ some z → y ≡ z
      some_of e = cc

  pub unlink-prev : (y : ℕ) → (f x).next ≡ some y → (unlink x f y).prev ≡ some a
  unfolding unlink
  unlink-prev y e =
      set_next-prev _ _ (set_prev (f x).next (f x).prev f) y
      ∙ set_prev-at (f x).next (f x).prev f y e
      ∙ before

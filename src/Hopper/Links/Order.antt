-- ===== src/Hopper/Links/Order.antt =====
-- hopper.c: the links from the local gateway on follow a list, and what removing them all frees.
use addressroutinggateway.Prelude.{
  ℕ, suc, ◌≡◌, ◌≢◌, refl, sym, ap, ◌∙◌, List, [], ◌∷◌, ◌++◌, All, Option, none, some,
}
use addressroutinggateway.Hopper.Links.{Node, Links, unlink, remove_arg_network, remove_rest}
use addressroutinggateway.Hopper.Links.Fields.{unlink-next_at, unlink-next_off, unlink-prev}
use addressroutinggateway.Machine.Invariant.{IsOnce}

-- The `next` links from p on lead through the list, and to NULL.
abbrev pub Chain : (ℕ → Node) → Option ℕ → List ℕ → Type 0
Chain f p [] = p ≡ none
Chain f p (x ∷ xs) = (p ≡ some x) × Chain f (f x).next xs

-- The first of the list, if there is one, has a before it.
abbrev pub IsBehind : (ℕ → Node) → ℕ → List ℕ → Type 0
IsBehind f a [] = Unit {0}
IsBehind f a (x ∷ xs) = (f x).prev ≡ some a

-- The local gateway a, and the others in their order. Of the `prev` links only that of the first of
-- the others is right.
pub record IsListed (f : ℕ → Node) (a : ℕ) (xs : List ℕ) : Type 0 where
  pub chain : Chain f (f a).next xs
  pub behind : IsBehind f a xs
  pub once : IsOnce (a ∷ xs)

pub Chain-cong :
    (f g : ℕ → Node) (p : Option ℕ) (xs : List ℕ)
    → All (λ x. (g x).next ≡ (f x).next) xs
    → Chain f p xs
    → Chain g p xs
Chain-cong f g p [] same c = c
Chain-cong f g p (x ∷ xs) same c = (c.0, rw same.0 (Chain-cong f g (f x).next xs same.1 c.1))

pub All-imp : {P Q : ℕ → Type 0} (xs : List ℕ) → ((x : ℕ) → P x → Q x) → All P xs → All Q xs
All-imp [] h a = tt
All-imp (x ∷ xs) h a = (h x a.0, All-imp xs h a.1)

-- The first of the others does not stand behind itself.
first-other :
    (f : ℕ → Node) (x : ℕ) (xs : List ℕ)
    → All (λ b. b ≢ x) xs
    → Chain f (f x).next xs
    → (f x).next ≢ some x
first-other f x [] once c e = absurd (none_some (sym c ∙ e))
  where
    none_some : none ≢ some x
    none_some e = cc
first-other f x (y ∷ xs) once c e = once.0 (some_of (sym c.0 ∙ e))
  where
    some_of : {u v : ℕ} → some u ≡ some v → u ≡ v
    some_of e = cc

IsBehind-unlink :
    (f : ℕ → Node) (x a : ℕ) (xs : List ℕ)
    → (f x).prev ≡ some a
    → (f x).next ≢ some x
    → Chain f (f x).next xs
    → IsBehind (unlink x f) a xs
IsBehind-unlink f x a [] before other c = tt
IsBehind-unlink f x a (y ∷ xs) before other c = unlink-prev f x a before other y c.0

pub remove_arg_network-IsListed :
    (l : Links) (a x : ℕ) (xs : List ℕ)
    → IsListed l.nodes a (x ∷ xs)
    → IsListed (remove_arg_network x l).nodes a xs
unfolding remove_arg_network
remove_arg_network-IsListed l a x xs s =
    let f = l.nodes in
    let other = first-other f x xs s.once.1.0 s.chain.1 in
    record {
      chain = rw (unlink-next_at f x a s.behind other) (
          Chain-cong f (unlink x f) (f x).next xs
            (All-imp xs (λ y (ne : y ≢ a). unlink-next_off f x a s.behind other y (λ e. ne (sym e)))
              s.once.0.1)
            s.chain.1);
      behind = IsBehind-unlink f x a xs s.behind other s.chain.1;
      once = (s.once.0.1, s.once.1.1);
    }

-- What is left when all but the local gateway have been removed: they have been freed in their order.
pub record IsAlone (l : Links) (a : ℕ) (xs : List ℕ) (k : Links) : Type 0 where
  pub head : k.gate_info ≡ l.gate_info
  pub last : (k.nodes a).next ≡ none
  pub freed : k.freed ≡ l.freed ++ xs

-- The loop ends, with such a state.
abbrev pub EndsAlone : Links → ℕ → List ℕ → Option Links → Type 0
EndsAlone l a xs none = ⊥
EndsAlone l a xs (some k) = IsAlone l a xs k

append_assoc : (xs ys zs : List ℕ) → (xs ++ ys) ++ zs ≡ xs ++ (ys ++ zs)
append_assoc [] ys zs = refl
append_assoc (x ∷ xs) ys zs = ap (λ t. x ∷ t) (append_assoc xs ys zs)

EndsAlone-more :
    (l m : Links) (a x : ℕ) (xs : List ℕ) (o : Option Links)
    → m.gate_info ≡ l.gate_info
    → m.freed ≡ l.freed ++ x ∷ []
    → EndsAlone m a xs o
    → EndsAlone l a (x ∷ xs) o
EndsAlone-more l m a x xs none head freed h = h
EndsAlone-more l m a x xs (some k) head freed h = record {
  head = h.head ∙ head;
  last = h.last;
  freed = h.freed ∙ ap (λ t. t ++ xs) freed ∙ append_assoc l.freed (x ∷ []) xs;
}

concat-nil : (xs : List ℕ) → xs ≡ xs ++ []
concat-nil [] = refl
concat-nil (x ∷ xs) = ap (λ t. x ∷ t) (concat-nil xs)

abbrev pub rounds : List ℕ → ℕ
rounds [] = 1
rounds (x ∷ xs) = suc (rounds xs)

pub remove_rest-EndsAlone :
    (l : Links) (a : ℕ) (xs : List ℕ)
    → IsListed l.nodes a xs
    → EndsAlone l a xs (remove_rest (rounds xs) a l)
unfolding remove_rest remove_arg_network
remove_rest-EndsAlone l a [] s =
    rw s.chain (record { head = refl; last = s.chain; freed = concat-nil l.freed })
remove_rest-EndsAlone l a (x ∷ xs) s = rw s.chain.0 (
    EndsAlone-more l (remove_arg_network x l) a x xs _ refl refl (
      remove_rest-EndsAlone (remove_arg_network x l) a xs (remove_arg_network-IsListed l a x xs s)))

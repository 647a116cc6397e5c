-- ===== src/Hopper/Links/Made.antt =====
-- hopper.c: the links of the list that `get_hopper_conf` makes, in both directions.
use addressroutinggateway.Prelude.{
  ℕ, ◌≡◌, ◌≢◌, refl, sym, ap, ◌∙◌, subst, List, [], ◌∷◌, ◌++◌, All, Option, none, some,
}
use addressroutinggateway.Hopper.Links.{Node, Links, cleared, hook, append, set_next}
use addressroutinggateway.Hopper.Links.Fields.{
  ==-self, ==-off, set_next-prev, set_prev-next, set_next-off, set_prev-off, set_next-at,
  set_prev-at,
}
use addressroutinggateway.Hopper.Links.Order.{Chain}
use addressroutinggateway.Machine.Invariant.{IsOnce}

-- From p on, behind `before`, the links lead through the list and back.
abbrev pub Linked : (ℕ → Node) → Option ℕ → Option ℕ → List ℕ → Type 0
Linked f before p [] = p ≡ none
Linked f before p (x ∷ xs) = (p ≡ some x) × ((f x).prev ≡ before) × Linked f (some x) (f x).next xs

abbrev pub last_of : ℕ → List ℕ → ℕ
last_of x [] = x
last_of x (y ∷ ys) = last_of y ys

last_of-All : (P : ℕ → Type 0) (x : ℕ) (xs : List ℕ) → All P (x ∷ xs) → P (last_of x xs)
last_of-All P x [] h = h.0
last_of-All P x (y ∷ ys) h = last_of-All P y ys h.1

pub some_of : {x y : ℕ} → some x ≡ some y → x ≡ y
some_of e = cc

pub Linked-Chain :
    (f : ℕ → Node) (before p : Option ℕ) (xs : List ℕ) → Linked f before p xs → Chain f p xs
Linked-Chain f before p [] c = c
Linked-Chain f before p (x ∷ xs) c = (c.0, Linked-Chain f (some x) (f x).next xs c.2)

-- One more at the end, behind q.
module _ (f : ℕ → Node) (n : ℕ) where
  hooked_prev : (q b : ℕ) → b ≢ n → (hook (some q) n (cleared n f) b).prev ≡ (f b).prev
  hooked_prev q b h =
      set_prev-off (some n) (some q) (set_next (some q) (some n) (cleared n f)) b
        (λ e. h (sym (some_of e)))
      ∙ set_next-prev (some q) (some n) (cleared n f) b
      ∙ rw (==-off b n h) refl

  hooked_next : (q b : ℕ) → b ≢ n → q ≢ b → (hook (some q) n (cleared n f) b).next ≡ (f b).next
  hooked_next q b h off =
      set_prev-next (some n) (some q) (set_next (some q) (some n) (cleared n f)) b
      ∙ set_next-off (some q) (some n) (cleared n f) b (λ e. off (some_of e))
      ∙ rw (==-off b n h) refl

  hooked_last : (q : ℕ) → (hook (some q) n (cleared n f) q).next ≡ some n
  hooked_last q =
      set_prev-next (some n) (some q) (set_next (some q) (some n) (cleared n f)) q
      ∙ set_next-at (some q) (some n) (cleared n f) q refl

  hooked_new :
      (q : ℕ)
      → q ≢ n
      → ((hook (some q) n (cleared n f) n).prev ≡ some q)
        × ((hook (some q) n (cleared n f) n).next ≡ none)
  hooked_new q h = (
    set_prev-at (some n) (some q) (set_next (some q) (some n) (cleared n f)) n refl,
    set_prev-next (some n) (some q) (set_next (some q) (some n) (cleared n f)) n
        ∙ set_next-off (some q) (some n) (cleared n f) n (λ e. h (some_of e))
        ∙ rw (==-self n) refl,
  )

  hook-Linked :
      (before p : Option ℕ) (x : ℕ) (xs : List ℕ)
      → Linked f before p (x ∷ xs)
      → IsOnce (x ∷ xs)
      → All (λ b. b ≢ n) (x ∷ xs)
      → Linked (hook (some (last_of x xs)) n (cleared n f)) before p (x ∷ xs ++ n ∷ [])
  hook-Linked before p x [] c once new = (
    c.0,
    hooked_prev x x new.0 ∙ c.1,
    (hooked_last x, (hooked_new x new.0).0, (hooked_new x new.0).1),
  )
  hook-Linked before p x (y ∷ ys) c once new = (
    c.0,
    hooked_prev (last_of y ys) x new.0 ∙ c.1,
    rw (hooked_next (last_of y ys) x new.0 (last_of-All (λ b. b ≢ x) y ys once.0))
        (hook-Linked (some x) (f x).next y ys c.2 once.1 new.1),
  )

-- What `get_hopper_conf` has made so far, with the latest gateway.
abbrev pub IsMade : Links → List ℕ → Option ℕ → Type 0
IsMade l [] latest = (l.gate_info ≡ none) × (latest ≡ none)
IsMade l (x ∷ xs) latest =
    (latest ≡ some (last_of x xs)) × Linked l.nodes none l.gate_info (x ∷ xs) × IsOnce (x ∷ xs)

last_of-concat : (x : ℕ) (xs : List ℕ) (n : ℕ) → n ≡ last_of x (xs ++ n ∷ [])
last_of-concat x [] n = refl
last_of-concat x (y ∷ ys) n = last_of-concat y ys n

All-end : (P : ℕ → Type 0) (xs : List ℕ) (n : ℕ) → All P xs → P n → All P (xs ++ n ∷ [])
All-end P [] n h p = (p, tt)
All-end P (x ∷ xs) n h p = (h.0, All-end P xs n h.1 p)

IsOnce-end : (xs : List ℕ) (n : ℕ) → All (λ b. b ≢ n) xs → IsOnce xs → IsOnce (xs ++ n ∷ [])
IsOnce-end [] n new once = (tt, tt)
IsOnce-end (x ∷ xs) n new once =
    (All-end (λ b. b ≢ x) xs n once.0 (λ e. new.0 (sym e)), IsOnce-end xs n new.1 once.1)

pub append-IsMade :
    (l : Links) (xs : List ℕ) (latest : Option ℕ) (n : ℕ)
    → IsMade l xs latest
    → All (λ b. b ≢ n) xs
    → IsMade (append latest n l) (xs ++ n ∷ []) (some n)
unfolding append
append-IsMade l [] latest n made new =
    rw made.0 (rw made.1 (refl, (refl, rw (==-self n) refl, rw (==-self n) refl), (tt, tt)))
append-IsMade l (x ∷ xs) latest n made new =
    subst (λ t. IsMade (append t n l) (x ∷ xs ++ n ∷ []) (some n)) (sym made.0)
      (subst
        (λ p.
          IsMade (append (some (last_of x xs)) n (record l { gate_info = p })) (x ∷ xs ++ n ∷ [])
            (some n))
        (sym made.1.0)
        (
          ap (λ b. some b) (last_of-concat x xs n),
          hook-Linked l.nodes n none (some x) x xs (refl, made.1.1, made.1.2) made.2 new,
          IsOnce-end (x ∷ xs) n new made.2,
        ))

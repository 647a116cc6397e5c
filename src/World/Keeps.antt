-- ===== src/World/Keeps.antt =====
-- Relations between the states before and after a call, for calls that are built by `do`. A call
-- that stops the program has no state after it.
use addressroutinggateway.Prelude.{
  ℕ, ◌≡◌, subst, Bool, true, false, Option, none, some, if◌then◌else◌,
}
use addressroutinggateway.World.Effects.{
  World, Outcome, done, null_dereference, deadlock, Run, pure, deref, gets, and_then, ◌>>=◌, ◌>>◌,
  read_gate,
}

-- The state of an outcome, and that of another call for one that has none.
abbrev pub state_of : {T A : Type 0} → World T → Outcome T A → World T
state_of w (done a v) = v
state_of w null_dereference = w
state_of w deadlock = w

module _ {T : Type 0} where
  -- The state of a call that returned is as stated.
  abbrev pub After : {A : Type 0} → (World T → Type 0) → Outcome T A → Type 0
  After P (done a w) = P w
  After P null_dereference = Unit {0}
  After P deadlock = Unit {0}

  -- A relation that holds between any state and itself, and can be chained.
  pub record IsPreorder (R : World T → World T → Type 0) : Type 0 where
    pub reflexive : (w : World T) → R w w
    pub transitive : (u v w : World T) → R u v → R v w → R u w

  -- Whenever the call returns, the states before and after are related.
  unfoldable pub Keeps : (World T → World T → Type 0) → {A : Type 0} → Run T A → Type 0
  Keeps R m = (w : World T) → After (R w) (m w)

  pub Keeps-done :
      (R : World T → World T → Type 0) {A : Type 0} (m : Run T A)
      → Keeps R m
      → (w w1 : World T) (a : A) → m w ≡ done a w1
      → R w w1
  unfolding Keeps
  Keeps-done R m k w w1 a e = subst (After (R w)) e (k w)

  module _ (R : World T → World T → Type 0) (p : IsPreorder R) where
    pub Keeps-pure : {A : Type 0} (a : A) → Keeps R (pure a)
    unfolding Keeps
    Keeps-pure a w = p.reflexive w

    pub Keeps-gets : {A : Type 0} (f : World T → A) → Keeps R (gets f)
    unfolding Keeps
    Keeps-gets f w = p.reflexive w

    pub Keeps-read_gate : (a : ℕ) → Keeps R (read_gate a)
    unfolding Keeps
    Keeps-read_gate a w = p.reflexive w

    pub Keeps-deref : {A : Type 0} (x : Option A) → Keeps R (deref x)
    unfolding Keeps
    Keeps-deref none w = tt
    Keeps-deref (some a) w = p.reflexive w

    After-chain :
        (u w : World T) → R u w → {A : Type 0} (o : Outcome T A) → After (R w) o → After (R u) o
    After-chain u w r (done a v) s = p.transitive u w v r s
    After-chain u w r null_dereference s = tt
    After-chain u w r deadlock s = tt

    pub After-next :
        {A B : Type 0} (u : World T) (o : Outcome T A) (f : A → Run T B)
        → After (R u) o
        → ((a : A) → Keeps R (f a))
        → After (R u) (and_then o f)
    unfolding Keeps
    After-next u (done a w) f r k = After-chain u w r (f a w) (k a w)
    After-next u null_dereference f r k = tt
    After-next u deadlock f r k = tt

    pub Keeps-bind :
        {A B : Type 0} (m : Run T A) (f : A → Run T B)
        → Keeps R m
        → ((a : A) → Keeps R (f a))
        → Keeps R (m >>= f)
    unfolding Keeps
    Keeps-bind m f k l w = After-next w (m w) f (k w) l

    pub Keeps-then :
        {A B : Type 0} (m : Run T A) (n : Run T B) → Keeps R m → Keeps R n → Keeps R (m >> n)
    unfolding Keeps
    Keeps-then m n k l w = After-next w (m w) (λ a. n) (k w) (λ a. l)

    pub Keeps-if :
        {A : Type 0} (b : Bool) (m n : Run T A)
        → Keeps R m
        → Keeps R n
        → Keeps R (if b then m else n)
    Keeps-if true m n k l = k
    Keeps-if false m n k l = l

  pub ruleset keeps_rules =
      (Keeps-pure, Keeps-gets, Keeps-read_gate, Keeps-deref, Keeps-bind, Keeps-then, Keeps-if)

-- A pointer that is known not to be NULL.
pub deref-keeps :
    {T B : Type 0} (P : Outcome T B → Type 0) (x : Option ℕ) (a : ℕ) (v : World T) (f : ℕ → Run T B)
    → x ≡ some a
    → P (f a v)
    → P (and_then (deref x v) f)
deref-keeps P none a v f e h = absurd cc
deref-keeps P (some b) a v f e h = let same : b ≡ a = cc in rw same h

-- ===== src/Hopper/Links/Reached.antt =====
-- hopper.c and protocol.c: the links in every state that the program reaches.
use addressroutinggateway.Prelude.{
  arith, ℕ, ◌≡◌, ◌≢◌, refl, sym, ◌∙◌, subst, List, [], ◌∷◌, ◌++◌, All, Option, none, some, inl, inr,
  ◌==◌, ==_iff, Bool-cases,
}
use addressroutinggateway.Hopper.Config.{without, to_front}
use addressroutinggateway.Hopper.Create.{insert_behind}
use addressroutinggateway.Hopper.Links.{
  false, Node, Links, no_links, cleared, append, unlink, set_next, set_prev, before_head,
  remove_behind, move_front, link_behind, remove_all_associated_arg_networks,
}
use addressroutinggateway.Hopper.Links.Fields.{
  ==-self, ==-off, set_next-prev, set_prev-next, set_next-off, set_prev-off, set_next-at,
  set_prev-at,
}
use addressroutinggateway.Hopper.Links.Order.{
  Chain, Chain-cong, All-imp, IsListed, IsBehind, EndsAlone, rounds, remove_rest-EndsAlone,
}
use addressroutinggateway.Hopper.Links.Made.{Linked, Linked-Chain, IsMade, append-IsMade, some_of}
use addressroutinggateway.Hopper.Links.Out.{Has, IsOut, Linked-IsOut}
use addressroutinggateway.Machine.Invariant.{IsOnce}
use addressroutinggateway.Machine.Lists.{All-without, without-ne, IsOnce-without}

-- A new gateway at n is hooked up behind the local one.
module _ (f : ℕ → Node) (a n : ℕ) (new : a ≢ n) where
  abbrev linked : ℕ → Node
  linked =
      set_next (some a) (some n)
        (set_prev (some n) (some a) (set_next (some n) (cleared n f a).next (cleared n f)))

  linked_local : (linked a).next ≡ some n
  linked_local = set_next-at (some a) (some n) _ a refl

  linked_new : (linked n).next ≡ (f a).next
  linked_new =
      set_next-off (some a) (some n) _ n (λ e. new (some_of e))
      ∙ set_prev-next (some n) (some a) _ n
      ∙ set_next-at (some n) _ (cleared n f) n refl
      ∙ rw (==-off a n new) refl

  linked_other : (b : ℕ) → b ≢ a → b ≢ n → (linked b).next ≡ (f b).next
  linked_other b ne off =
      set_next-off (some a) (some n) _ b (λ e. ne (sym (some_of e)))
      ∙ set_prev-next (some n) (some a) _ b
      ∙ set_next-off (some n) _ (cleared n f) b (λ e. off (sym (some_of e)))
      ∙ rw (==-off b n off) refl

  linked_behind : (linked n).prev ≡ some a
  linked_behind = set_next-prev (some a) (some n) _ n ∙ set_prev-at (some n) (some a) _ n refl

  others :
      (xs : List ℕ)
      → All (λ b. b ≢ a) xs
      → All (λ b. b ≢ n) xs
      → All (λ b. (linked b).next ≡ (f b).next) xs
  others [] ne off = tt
  others (x ∷ xs) ne off = (linked_other x ne.0 off.0, others xs ne.1 off.1)

  linked-IsListed :
      (xs : List ℕ) → All (λ b. b ≢ n) xs → IsListed f a xs → IsListed linked a (n ∷ xs)
  linked-IsListed xs off s = record {
    chain = (
      linked_local,
      rw linked_new (Chain-cong f linked (f a).next xs (others xs s.once.0 off) s.chain),
    );
    behind = linked_behind;
    once = (((λ e. new (sym e)), s.once.0), (off, s.once.1));
  }

-- The gateway at c, one of those behind x, is moved before x, the head.
module _ (f : ℕ → Node) (c x : ℕ) (apart : x ≢ c) where
  abbrev moved : ℕ → Node
  moved =
      set_next (some c) (some x) (set_prev (some c) none (set_prev (some x) (some c) (unlink c f)))

  moved_next : (b : ℕ) → b ≢ c → (moved b).next ≡ (unlink c f b).next
  moved_next b ne =
      set_next-off (some c) (some x) _ b (λ e. ne (sym (some_of e)))
      ∙ set_prev-next (some c) none _ b
      ∙ set_prev-next (some x) (some c) (unlink c f) b

  moved-IsListed :
      (xs : List ℕ) → IsOut f c x xs → IsOnce (x ∷ xs) → IsListed moved c (x ∷ without c xs)
  moved-IsListed xs o once = record {
    chain = (
      set_next-at (some c) (some x) _ c refl,
      rw (moved_next x apart) (
          Chain-cong (unlink c f) moved (unlink c f x).next (without c xs)
            (All-imp (without c xs) moved_next (without-ne c xs once.1)) o.chain),
    );
    behind =
        set_next-prev (some c) (some x) _ x
        ∙ set_prev-off (some c) none _ x (λ e. apart (sym (some_of e)))
        ∙ set_prev-at (some x) (some c) (unlink c f) x refl;
    once = (
      (apart, without-ne c xs once.1),
      (All-without (λ b. b ≢ x) c xs once.0, IsOnce-without c xs once.1),
    );
  }

-- The links that the program reaches, each with the order that the rest of this library has for it:
-- gateways are made, each behind the latest; one of them is moved to the front, unless that fails;
-- and the local gateway is told of others.
pub data IsBuilt : Links → List ℕ → Option ℕ → Type 0 where
  nothing : IsBuilt no_links [] none
  made :
      {l : Links} {xs : List ℕ} {latest : Option ℕ} (n : ℕ)
      → IsBuilt l xs latest
      → All (λ b. b ≢ n) xs
      → IsBuilt (append latest n l) (xs ++ n ∷ []) (some n)

pub data IsReached : Links → List ℕ → Type 0 where
  unmoved : {l : Links} {xs : List ℕ} {latest : Option ℕ} → IsBuilt l xs latest → IsReached l xs
  moved_front :
      {l : Links} {xs : List ℕ} {latest : Option ℕ} (c : ℕ)
      → IsBuilt l xs latest
      → Has c xs
      → IsReached (move_front c l) (to_front c xs)
  told :
      {l : Links} (a : ℕ) (xs : List ℕ) (n : ℕ)
      → IsReached l (a ∷ xs)
      → All (λ b. b ≢ n) (a ∷ xs)
      → IsReached (link_behind a n l) (insert_behind a n (a ∷ xs))

built-IsMade :
    {l : Links} {xs : List ℕ} {latest : Option ℕ} → IsBuilt l xs latest → IsMade l xs latest
built-IsMade nothing = (refl, refl)
built-IsMade (made n b new) = append-IsMade _ _ _ _ (built-IsMade b) new

-- The head is the first of the list, and the others follow.
abbrev pub Fits : Links → List ℕ → Type 0
Fits l [] = l.gate_info ≡ none
Fits l (a ∷ xs) = (l.gate_info ≡ some a) × IsListed l.nodes a xs

IsMade-IsBehind :
    (f : ℕ → Node) (a : ℕ) (p : Option ℕ) (xs : List ℕ) → Linked f (some a) p xs → IsBehind f a xs
IsMade-IsBehind f a p [] c = tt
IsMade-IsBehind f a p (x ∷ xs) c = c.1

IsMade-Fits : (l : Links) (xs : List ℕ) (latest : Option ℕ) → IsMade l xs latest → Fits l xs
IsMade-Fits l [] latest m = m.0
IsMade-Fits l (x ∷ xs) latest m = (
  m.1.0,
  record {
    chain = Linked-Chain l.nodes (some x) (l.nodes x).next xs m.1.2;
    behind = IsMade-IsBehind l.nodes x (l.nodes x).next xs m.1.2;
    once = m.2;
  },
)

to_front-same :
    (l : Links) (x : ℕ) (xs : List ℕ)
    → l.gate_info ≡ some x
    → IsListed l.nodes x xs
    → Fits (move_front x l) (to_front x (x ∷ xs))
unfolding move_front to_front without
to_front-same l x xs at s =
    subst (λ p. Fits (before_head p x l) (x ∷ without x (x ∷ xs))) (sym at) (rw (==-self x) (at, s))

to_front-other :
    (l : Links) (x c : ℕ) (xs : List ℕ) (apart : x ≢ c)
    → l.gate_info ≡ some x
    → IsListed (moved l.nodes c x apart) c (x ∷ without c xs)
    → Fits (move_front c l) (to_front c (x ∷ xs))
unfolding move_front to_front without
to_front-other l x c xs apart at s =
    subst (λ p. Fits (before_head p c l) (c ∷ without c (x ∷ xs))) (sym at)
      (rw (==-off c x (λ e. apart (sym e))) (rw (==-off x c apart) (refl, s)))

to_front-Fits :
    (l : Links) (xs : List ℕ) (latest : Option ℕ) (c : ℕ)
    → IsMade l xs latest
    → Has c xs
    → Fits (move_front c l) (to_front c xs)
to_front-Fits l [] latest c m h = absurd h
to_front-Fits l (x ∷ xs) latest c m h =
    let s = (IsMade-Fits l (x ∷ xs) latest m).1 in
    elim (Bool-cases (c == x)) [
      | inl here ↦
          subst (λ d. Fits (move_front d l) (to_front d (x ∷ xs))) (sym ((==_iff c x).0 here))
            (to_front-same l x xs m.1.0 s)
      | inr off ↦ to_front-other l x c xs (apart off) m.1.0 (
          moved-IsListed l.nodes c x (apart off) xs
            (Linked-IsOut l.nodes c x xs m.1.2 m.2 (behind off h)) m.2)
    ]
  where
    apart : (c == x) ≡ false → x ≢ c
    apart off e = ground arith

    behind : (c == x) ≡ false → Has c (x ∷ xs) → Has c xs
    behind off (inl e) = absurd (apart off e)
    behind off (inr further) = further

link_behind-Fits :
    (l : Links) (a : ℕ) (xs : List ℕ) (n : ℕ)
    → Fits l (a ∷ xs)
    → All (λ b. b ≢ n) (a ∷ xs)
    → Fits (link_behind a n l) (insert_behind a n (a ∷ xs))
unfolding link_behind insert_behind
link_behind-Fits l a xs n s off =
    rw (==-self a) (s.0, linked-IsListed l.nodes a n off.0 xs off.1 s.1)

reached-Fits : {l : Links} {xs : List ℕ} → IsReached l xs → Fits l xs
reached-Fits (unmoved {l} {xs} {latest} b) = IsMade-Fits l xs latest (built-IsMade b)
reached-Fits (moved_front {l} {xs} {latest} c b h) = to_front-Fits l xs latest c (built-IsMade b) h
reached-Fits (told {l} a xs n r off) = link_behind-Fits l a xs n (reached-Fits r) off

-- Whichever gateways have been made, moved to the front and told of: from `gateInfo` the `next` links
-- lead through the order that the list has elsewhere in this library, which holds each once, and to
-- NULL; `remove_all_associated_arg_networks` ends, has freed all but the local gateway, in the order,
-- and leaves that one alone. So it does although the `prev` link of the gateway behind a new one is
-- not set.
pub remove_all_associated_arg_networks-order :
    (l : Links) (a : ℕ) (xs : List ℕ)
    → IsReached l (a ∷ xs)
    → Chain l.nodes l.gate_info (a ∷ xs)
      × IsOnce (a ∷ xs)
      × EndsAlone l a xs (remove_all_associated_arg_networks (rounds xs) l)
unfolding remove_all_associated_arg_networks
remove_all_associated_arg_networks-order l a xs r =
    let (at, s) = reached-Fits r in
    (
      (at, s.chain),
      s.once,
      subst (λ p. EndsAlone l a xs (remove_behind (rounds xs) p l)) (sym at)
          (remove_rest-EndsAlone l a xs s),
    )

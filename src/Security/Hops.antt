-- ===== src/Security/Hops.antt =====
-- hopper.c: what an address that `is_valid_ip` accepts is.
use addressroutinggateway.Prelude.{
  suc, ℕ, ◌≡◌, refl, sym, ◌∙◌, subst, List, Bool, true, Bool-cases, ◌⊎◌, inl, inr, pos, ◌||◌,
}
use addressroutinggateway.World.{World, done, deadlock, Env, Gate}
use addressroutinggateway.Hopper.Address.{same_bytes, address_at, previous_hop, is_valid_ip}
use addressroutinggateway.Hopper.Window.{current_address, previous_address, is_valid_ip_lem}
use addressroutinggateway.Security.Authentic.{same_bytes→eq}

-- The address is that of the gateway at some reading of the clock, or that of the hop before.
abbrev pub IsHop : Env → Gate → List ℕ → Type 0
IsHop env g ip =
    (n : ℕ) × ((ip ≡ address_at env g (pos 0) (env.clock n))
      ⊎ (ip ≡ address_at env g (previous_hop g) (env.clock n)))

-- What a test of an address leaves as it is.
pub record SameState {T : Type 0} (w v : World T) : Type 0 where
  pub gates : v.gates ≡ w.gates
  pub sent : v.sent ≡ w.sent
  pub order : v.order ≡ w.order

module _ {T : Type 0} (env : Env) (a : ℕ) (ip : List ℕ) where
  tested-IsHop :
      (w : World T)
      → (same_bytes ip (current_address env a ip w) || same_bytes ip (previous_address env a ip w))
        ≡ true
      → IsHop env (w.gates a) ip
  tested-IsHop w e = elim (Bool-cases (same_bytes ip (current_address env a ip w))) [
    | inl now ↦ (w.clock_reads, inl (same_bytes→eq ip (current_address env a ip w) now))
    | inr other ↦
        (suc w.clock_reads, inr (same_bytes→eq ip (previous_address env a ip w) (rw other at e)))
  ]

  locked_out : (w : World T) → w.locked a ≡ true → is_valid_ip env a ip w ≡ deadlock
  unfolding is_valid_ip
  locked_out w held = rw held refl

  tested :
      (w u v : World T) (x b : Bool)
      → SameState w u
      → (x ≡ true → IsHop env (w.gates a) ip)
      → done x u ≡ done b v
      → SameState w v × (b ≡ true → IsHop env (w.gates a) ip)
  tested w u v x b same hop e =
      (subst (SameState w) (states e) same, λ passed. hop (results e ∙ passed))
    where
      states : done x u ≡ done b v → u ≡ v
      states e = cc

      results : done x u ≡ done b v → x ≡ b
      results e = cc

  pub is_valid_ip-IsHop :
      (w v : World T) (b : Bool)
      → is_valid_ip env a ip w ≡ done b v
      → SameState w v × (b ≡ true → IsHop env (w.gates a) ip)
  is_valid_ip-IsHop w v b e = elim (Bool-cases (w.locked a)) [
    | inl held ↦ absurd (waits (sym (locked_out w held) ∙ e))
    | inr free ↦
        tested w _ v _ b (record { gates = refl; sent = refl; order = refl }) (tested-IsHop w)
          (sym (is_valid_ip_lem env a ip w free) ∙ e)
  ]
    where
      waits : deadlock ≡ done b v → ⊥
      waits h = cc

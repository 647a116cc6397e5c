-- ===== src/Hopper/Containment.antt =====
-- hopper.c: every address that a gateway hops to lies in its network, so that `get_arg_network`
-- recognises its packets.
use addressroutinggateway.Prelude.{
  inr, inl, some, Option, ◌⊎◌, none, Option-cases, ℕ, ◌-◌, ◌≤◌, ◌≡◌, refl, List, [], ◌∷◌, ℤ,
  bit_and, bit_or, All, sym, arith,
}
use addressroutinggateway.Prelude.Bits.{mask-or_outside}
use addressroutinggateway.Utility.Time.{Timespec}
use addressroutinggateway.Utility.Mask.{mask_array_cmp_refl, mask_array_cmp}
use addressroutinggateway.World.{Gate, World, Env}
use addressroutinggateway.Hopper.Address.{or_unmasked, address_at}
use addressroutinggateway.Hopper.Networks.{find_network, get_arg_network}

or_byte : (b m x : ℕ) → m ≤ 255 → bit_and b m ≡ bit_and (bit_or b (bit_and (255 - m) x)) m
or_byte b m x h = sym (mask-or_outside 8 b m (255 - m) x (omega arith))

mask_array_cmp-or_unmasked :
    (bs ms xs : List ℕ) → All (λ m. m ≤ 255) ms → mask_array_cmp ms bs (or_unmasked bs ms xs) ≡ 0
unfolding mask_array_cmp or_unmasked
mask_array_cmp-or_unmasked [] [] xs h = refl
mask_array_cmp-or_unmasked [] (m ∷ ms) xs h = refl
mask_array_cmp-or_unmasked (b ∷ bs) [] xs h = refl
mask_array_cmp-or_unmasked (b ∷ bs) (m ∷ ms) [] h = mask_array_cmp_refl (m ∷ ms) (b ∷ bs)
mask_array_cmp-or_unmasked (b ∷ bs) (m ∷ ms) (x ∷ xs) h =
    ground (arith, or_byte b m x h.0, mask_array_cmp-or_unmasked bs ms xs h.1)

-- Every address of a gateway whose mask consists of bytes lies in its network, whatever the correction
-- and the time.
pub address_at-in_network :
    (env : Env) (g : Gate) (correction : ℤ) (now : Timespec)
    → All (λ m. m ≤ 255) g.mask
    → mask_array_cmp g.mask g.base_ip (address_at env g correction now) ≡ 0
unfolding address_at
address_at-in_network env g correction now h = mask_array_cmp-or_unmasked g.base_ip g.mask _ h

abbrev pub IsIn : ℕ → List ℕ → Type 0
IsIn a [] = ⊥
IsIn a (b ∷ rest) = (b ≡ a) ⊎ IsIn a rest

-- The address is in the network of the gate.
abbrev pub Contains : Gate → List ℕ → Type 0
Contains g ip = mask_array_cmp g.mask g.base_ip ip ≡ 0

find_network-only :
    (gates : ℕ → Gate) (order : List ℕ) (ip : List ℕ) (a : ℕ)
    → IsIn a order
    → Contains (gates a) ip
    → All (λ b. Contains (gates b) ip → b ≡ a) order
    → find_network gates order ip ≡ some a
unfolding find_network
find_network-only gates [] ip a here c only = absurd here
find_network-only gates (b ∷ rest) ip a here c only =
    ground (arith, only.0, find_network-only gates rest ip a)

find_network-Contains :
    (gates : ℕ → Gate) (order : List ℕ) (ip : List ℕ) {a : ℕ}
    → find_network gates order ip ≡ some a
    → IsIn a order × Contains (gates a) ip
unfolding find_network
find_network-Contains gates [] ip e = absurd (cc)
find_network-Contains gates (b ∷ rest) ip {a} e =
    ground (arith, find_network-Contains gates rest ip {a = a})

find_network-none :
    (gates : ℕ → Gate) (order : List ℕ) (ip : List ℕ)
    → find_network gates order ip ≡ none
    → All (λ b. ¬ Contains (gates b) ip) order
unfolding find_network
find_network-none gates [] ip e = tt
find_network-none gates (b ∷ rest) ip e = ground (arith, find_network-none gates rest ip)

-- A gateway that is listed and whose mask consists of bytes is found at every address that it hops
-- to, if no other listed network has that address.
pub get_arg_network-address_at :
    {T : Type 0} (env : Env) (w : World T) (a : ℕ) (correction : ℤ) (now : Timespec)
    → IsIn a w.order
    → All (λ m. m ≤ 255) (w.gates a).mask
    → All (λ b. Contains (w.gates b) (address_at env (w.gates a) correction now) → b ≡ a) w.order
    → get_arg_network (address_at env (w.gates a) correction now) w ≡ some a
unfolding get_arg_network
get_arg_network-address_at env w a correction now here bytes only =
    find_network-only w.gates w.order _ a here
      (address_at-in_network env (w.gates a) correction now bytes) only

-- The result of `get_arg_network`: a listed gateway whose network has the address, or NULL if no
-- listed network has it.
abbrev pub Finds : {T : Type 0} → World T → List ℕ → Option ℕ → Type 0
Finds w ip none = All (λ b. ¬ Contains (w.gates b) ip) w.order
Finds w ip (some a) = IsIn a w.order × Contains (w.gates a) ip

-- `get_arg_network` returns a listed gateway whose network has the address, and NULL only if no listed
-- network has it.
pub get_arg_network-Finds :
    {T : Type 0} (ip : List ℕ) (w : World T) → Finds w ip (get_arg_network ip w)
unfolding get_arg_network
get_arg_network-Finds ip w = elim (Option-cases (find_network w.gates w.order ip)) [
  | inl e ↦ rw e (find_network-none w.gates w.order ip e)
  | inr (a, e) ↦ rw e (find_network-Contains w.gates w.order ip e)
]

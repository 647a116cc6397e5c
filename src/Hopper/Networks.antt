-- ===== src/Hopper/Networks.antt =====
-- hopper.c: which known gateway an address belongs to.
use addressroutinggateway.Prelude.{
  ℕ, List, [], ◌∷◌, Bool, Option, none, some, is_some, ◌==◌, if◌then◌else◌,
}
use addressroutinggateway.Utility.Mask.{mask_array_cmp}
use addressroutinggateway.World.{Gate, World}

-- The walk along `next`.
unfoldable pub find_network : (ℕ → Gate) → List ℕ → List ℕ → Option ℕ
find_network gates [] ip = none
find_network gates (a ∷ rest) ip =
    if mask_array_cmp (gates a).mask (gates a).base_ip ip == 0
    then some a
    else find_network gates rest ip

module _ {T : Type 0} where
  -- `gateInfo`, which is NULL before the hopper is initialised.
  abbrev pub gate_info : World T → Option ℕ
  gate_info w = elim w.order [ [] ↦ none | a ∷ rest ↦ some a ]

  unfoldable pub get_arg_network : List ℕ → World T → Option ℕ
  unfolding find_network
  get_arg_network ip w = find_network w.gates w.order ip

  unfoldable pub is_arg_ip : List ℕ → World T → Bool
  unfolding get_arg_network
  is_arg_ip ip w = is_some (get_arg_network ip w)

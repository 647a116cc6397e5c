-- ===== src/Hopper/Direction/Unmatched.antt =====
-- hopper.c: what `invalid_ip_direction` misses.
use addressroutinggateway.Prelude.{ℕ, suc, ◌≡◌, refl, List, [], ◌∷◌, false, ℤ}
use addressroutinggateway.World.{World, done, Env, Gate, current_time}
use addressroutinggateway.Hopper.Address.{same_bytes, address_at, generate_ip_corrected}
use addressroutinggateway.Hopper.Direction.{
  no_direction, hops, directions, match_directions, invalid_ip_direction,
}

module _ {T : Type 0} (env : Env) (g : Gate) (ip : List ℕ)
    (unmatched : (n : ℕ)
      → same_bytes ip (address_at env g (hops g no_direction) (env.clock n)) ≡ false) where
  match_directions-unmatched :
      (is' : List ℤ) (w : World T)
      → (v : World T) × (match_directions env g ip no_direction is' w ≡ done no_direction v)
  unfolding match_directions generate_ip_corrected current_time
  match_directions-unmatched [] w = (w, refl)
  match_directions-unmatched (i ∷ more) w =
      rw (unmatched w.clock_reads)
        (match_directions-unmatched more (record w { clock_reads = suc w.clock_reads }))

  -- Where an address is not the one of INT_MAX hops from now at any time, no direction is found for
  -- it, although it may be that of a few hops from now: the tries do not use their own number until
  -- one of them has matched.
  pub invalid_ip_direction-unmatched :
      (w : World T) → (v : World T) × (invalid_ip_direction env g ip w ≡ done no_direction v)
  unfolding invalid_ip_direction
  invalid_ip_direction-unmatched w = match_directions-unmatched directions w

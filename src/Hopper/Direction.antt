-- ===== src/Hopper/Direction.antt =====
-- hopper.c: `invalid_ip_direction`, which nothing calls.
pub mod Unmatched
use addressroutinggateway.Prelude.{
  ℕ, ◌-◌, ◌*◌, ◌%◌, ◌^◌, List, [], ◌∷◌, ℤ, pos, negsuc, to_unsigned, of_unsigned, if◌then◌else◌,
}
use addressroutinggateway.World.{Run, pure, ◌>>=◌, Env, Gate}
use addressroutinggateway.Hopper.Address.{same_bytes, generate_ip_corrected}

-- INT_MAX
abbrev pub no_direction : ℤ
no_direction = pos (2 ^ 31 - 1)

-- `gate->hopInterval * dir`, of an unsigned and an `int`, as it is passed as an `int`.
unfoldable pub hops : Gate → ℤ → ℤ
unfolding of_unsigned to_unsigned
hops g dir = of_unsigned 32 ((g.hop_interval * to_unsigned 32 dir) % 2 ^ 32)

-- The values of `i`.
abbrev pub directions : List ℤ
directions =
    negsuc 4
    ∷ negsuc 3
    ∷ negsuc 2
    ∷ negsuc 1
    ∷ negsuc 0
    ∷ pos 0
    ∷ pos 1
    ∷ pos 2
    ∷ pos 3
    ∷ pos 4
    ∷ pos 5
    ∷ []

module _ {T : Type 0} (env : Env) where
  unfoldable pub match_directions : Gate → List ℕ → ℤ → List ℤ → Run T ℤ
  unfolding generate_ip_corrected hops
  match_directions g ip dir [] = pure dir
  match_directions g ip dir (i ∷ more) = do
    gen_ip ← generate_ip_corrected env g (hops g dir)
    match_directions g ip (if same_bytes ip gen_ip then i else dir) more

  unfoldable pub invalid_ip_direction : Gate → List ℕ → Run T ℤ
  unfolding match_directions
  invalid_ip_direction g ip = match_directions g ip no_direction directions

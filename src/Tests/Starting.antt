-- ===== src/Tests/Starting.antt =====
-- `get_hopper_conf` on key files of two gates.
use addressroutinggateway.Prelude.{ℕ, ◌≡◌, refl, [], ◌∷◌, List, some, pos, negsuc, ℤ, ◌⊎◌, inl, inr}
use addressroutinggateway.Prelude.Text.{codes}
use addressroutinggateway.Settings.Config.{Reading, got}
use addressroutinggateway.Settings.Keys.{read_private_key, read_public_key, KeyLibrary}
use addressroutinggateway.World.{World, done}
use addressroutinggateway.Hopper.Create.{create_arg_network_info, new_gate}
use addressroutinggateway.Hopper.Config.{HopperConf, get_hopper_conf}
use addressroutinggateway.Hopper.Config.Public.{Ends}
use addressroutinggateway.Machine.Invariant.{AreSound, IsWellFormed}
use addressroutinggateway.Machine.Configured.{
  IsConfigured, get_hopper_conf-IsConfigured, get_hopper_conf-Calls,
}
use addressroutinggateway.Machine.Director.{called, started, cleaning}
use addressroutinggateway.Nat.{clean_nat_table}
use addressroutinggateway.World.Keeps.{state_of}
use addressroutinggateway.Tests.Setting.{env, table, start}

-- A number is one character, and every text is an address.
abbrev first_number : List ℕ → ℤ ⊎ (ℕ × List ℕ)
first_number [] = inl (negsuc 0)
first_number (n ∷ rest) = inr (n, rest)

abbrev library : KeyLibrary
library = record {
  mpi_read_file = first_number;
  mpi_msb = λ n. 7;
  rsa_check_privkey = λ ns. pos 0;
  inet_pton = λ s. some (10 ∷ 0 ∷ 2 ∷ 0 ∷ []);
}

abbrev key_file : List ℕ → ℕ ⊎ List ℕ
key_file path = inr (codes "1\n2\nabcdefgh")

abbrev two_gates : HopperConf
two_gates = record {
  dir = codes "d";
  our_gate_name = codes "home";
  gates = codes "x" ∷ codes "home" ∷ [];
  hop_rate = pos 500;
}

-- Before anything has been made.
abbrev at_first : World table.Table
at_first = record start { gates = λ a. new_gate; order = []; fresh = 0 }

sound_at_first : AreSound at_first
sound_at_first = record { ready = λ a c. absurd cc; known = tt; once = tt }

get_hopper_conf-IsConfigured_example :
    Ends
      (IsConfigured env library key_file (codes "home") at_first)
      (get_hopper_conf env library key_file two_gates at_first)
get_hopper_conf-IsConfigured_example =
    get_hopper_conf-IsConfigured env library key_file two_gates at_first sound_at_first refl

abbrev world_of : Reading (ℤ × World table.Table) → World table.Table
world_of (got (ret, w)) = w
world_of other = at_first

abbrev configured : World table.Table
configured = world_of (get_hopper_conf env library key_file two_gates at_first)

configuring : get_hopper_conf env library key_file two_gates at_first ≡ got (pos 0, configured)
unfolding get_hopper_conf create_arg_network_info read_public_key read_private_key
configuring = refl

-- The second of the two stands first.
configured_order : configured.order ≡ 1 ∷ 0 ∷ []
unfolding get_hopper_conf create_arg_network_info read_public_key read_private_key
configured_order = refl

abbrev after_cleaning : World table.Table
after_cleaning = state_of configured (clean_nat_table table env configured)

cleaning_run : clean_nat_table table env configured ≡ done tt after_cleaning
unfolding clean_nat_table get_hopper_conf
cleaning_run = refl

get_hopper_conf-Calls_example : IsWellFormed table after_cleaning
get_hopper_conf-Calls_example =
    get_hopper_conf-Calls table env library key_file two_gates at_first configured after_cleaning
      (record { sound = sound_at_first; distinct = tt }) refl configuring
      (called started (cleaning cleaning_run))

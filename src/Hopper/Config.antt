-- ===== src/Hopper/Config.antt =====
-- hopper.c: `get_hopper_conf`, which makes the gateways that the configuration names. The links of
-- the new list are the order of the addresses, as in all of this library.
pub mod Public
use addressroutinggateway.Prelude.{
  ℕ, suc, ◌+◌, List, [], ◌∷◌, ◌++◌, Option, none, some, Bool, true, false, ◌⊎◌, ℤ, pos, negsuc,
  to_unsigned, take, ◌==◌, if◌then◌else◌,
}
use addressroutinggateway.Settings.{
  enomem, arg_config_bad, max_name_size, aes_key_size, aes_block_size, hop_key_size,
}
use addressroutinggateway.Settings.Config.{
  Reading, got, failed, null_dereference, stray_access, unfinished, ◌>>=◌,
}
use addressroutinggateway.Settings.Keys.{KeyLibrary, read_public_key, read_private_key}
use addressroutinggateway.Utility.Mask.{mask_array}
use addressroutinggateway.World.{
  World, Outcome, done, Env, Gate, set_gate, current_time, get_random_bytes,
}
use addressroutinggateway.Hopper.Address.{same_bytes}
use addressroutinggateway.Hopper.Create.{create_arg_network_info}

-- What `get_hopper_conf` reads of `struct config_data` and the directory: the strings `dir` and
-- `ourGateName`, the names along `config->gate`, and `hopRate`.
pub record HopperConf : Type 0 where
  pub dir : List ℕ
  pub our_gate_name : List ℕ
  pub gates : List (List ℕ)
  pub hop_rate : ℤ

-- A call on the gateways, in the outcomes of settings.c. None of the calls waits for a mutex.
abbrev pub returned : {T A : Type 0} → Outcome T A → Reading (A × World T)
returned (done a w) = got (a, w)
returned Outcome.null_dereference = null_dereference
returned Outcome.deadlock = unfinished

-- The first gateway of this name: `strncmp(config->ourGateName, currNet->name, 10) == 0`.
unfoldable pub find_name : (ℕ → Gate) → List ℕ → List ℕ → Option ℕ
find_name gates [] name = none
find_name gates (a ∷ rest) name =
    if same_bytes (take max_name_size name) (take max_name_size (gates a).name)
    then some a
    else find_name gates rest name

-- The list without its first a; and with a before all others.
unfoldable pub without : ℕ → List ℕ → List ℕ
without a [] = []
without a (b ∷ rest) = if b == a then rest else b ∷ without a rest

unfoldable pub to_front : ℕ → List ℕ → List ℕ
unfolding without
to_front a xs = a ∷ without a xs

-- `strncpy` of at most nine characters into zeroed memory.
abbrev pub named : List ℕ → Gate → Gate
named name g = record g { name = take 9 name }

abbrev pub masked : Gate → Gate
masked g = record g { base_ip = mask_array g.base_ip g.mask }

module _ {T : Type 0} (env : Env) (lib : KeyLibrary) (open_file : List ℕ → ℕ ⊎ List ℕ) where
  -- The new gateway at a, behind the others, with the public data from its file. The result of
  -- `read_public_key` is not looked at.
  unfoldable pub place_config : List ℕ → List ℕ → ℕ → World T → Reading (World T)
  unfolding set_gate
  place_config dir name a w = do
    (ret, g) ← read_public_key lib open_file dir (named name (w.gates a))
    got (set_gate a (masked g) (record w { order = w.order ++ a ∷ [] }))

  abbrev pub placed : List ℕ → List ℕ → Option ℕ × World T → Reading (ℤ × World T)
  placed dir name (none, w) = got (enomem, w)
  placed dir name (some a, w) = do v ← place_config dir name a w; got (pos 0, v)

  unfoldable pub add_config : List ℕ → List ℕ → World T → Reading (ℤ × World T)
  unfolding place_config
  add_config dir name w = do made ← returned (create_arg_network_info env w); placed dir name made

  -- "Read in each gate config", until one cannot be made.
  unfoldable pub add_configs : List ℕ → List (List ℕ) → World T → Reading (ℤ × World T)
  unfolding add_config
  add_configs dir [] w = got (pos 0, w)
  add_configs dir (name ∷ names) w = do
    (ret, v) ← add_config dir name w
    elim ret [ pos k ↦ add_configs dir names v | negsuc k ↦ got (negsuc k, v) ]

  -- "Hop and symmetric key", and the rest.
  unfoldable pub own_keys : ℤ → ℕ → World T → Reading (ℤ × World T)
  unfolding get_random_bytes current_time set_gate
  own_keys hop_rate a w = do
    (iv, w1) ← returned (get_random_bytes env aes_block_size w)
    (hop_key, w2) ← returned (get_random_bytes env hop_key_size w1)
    (sym_key, w3) ← returned (get_random_bytes env aes_key_size w2)
    (now, w4) ← returned (current_time env w3)
    got (
      pos 0,
      set_gate a
          (record (w4.gates a) {
            iv = iv;
            hop_key = hop_key;
            sym_key = sym_key;
            cipher_key = sym_key;
            time_base = now;
            hop_interval = to_unsigned 32 hop_rate;
          })
          w4,
    )

  -- A failure of `read_private_key`, whose error code is not looked at.
  abbrev pub with_private : ℤ → ℕ → World T → Reading Gate → Reading (ℤ × World T)
  with_private hop_rate a w (got g) = own_keys hop_rate a (set_gate a g w)
  with_private hop_rate a w (failed err) = got (arg_config_bad, w)
  with_private hop_rate a w null_dereference = null_dereference
  with_private hop_rate a w stray_access = stray_access
  with_private hop_rate a w unfinished = unfinished

  -- The gateway of our name at the head of the list.
  abbrev pub own_gate : HopperConf → World T → Option ℕ → Reading (ℤ × World T)
  own_gate conf w none = got (arg_config_bad, w)
  own_gate conf w (some a) =
      with_private conf.hop_rate a (record w { order = to_front a w.order })
        (read_private_key lib open_file conf.dir (w.gates a))

  abbrev pub after_configs : HopperConf → ℤ × World T → Reading (ℤ × World T)
  after_configs conf (pos k, w) = own_gate conf w (find_name w.gates w.order conf.our_gate_name)
  after_configs conf (ret, w) = got (ret, w)

  unfoldable pub get_hopper_conf : HopperConf → World T → Reading (ℤ × World T)
  unfolding add_configs find_name own_keys to_front
  get_hopper_conf conf w = do made ← add_configs conf.dir conf.gates w; after_configs conf made

-- ===== src/Machine/Configured.antt =====
-- hopper.c: the state in which `get_hopper_conf` leaves the gateways.
use addressroutinggateway.Prelude.{
  ℕ, suc, ◌<◌, ◌≡◌, refl, sym, subst, List, [], ◌∷◌, Option, none, some, true, ◌⊎◌, inl, inr, ℤ,
  pos, negsuc, take, ==_iff, Bool-cases, All,
}
use addressroutinggateway.Settings.{max_name_size}
use addressroutinggateway.Settings.Config.{
  Reading, got, failed, null_dereference, stray_access, unfinished,
}
use addressroutinggateway.Settings.Keys.{KeyLibrary, read_private_key}
use addressroutinggateway.World.{World, Env, Gate, set_gate, current_time, get_random_bytes}
use addressroutinggateway.Hopper.Address.{same_bytes}
use addressroutinggateway.Hopper.Config.{
  HopperConf, find_name, without, to_front, add_configs, own_keys, with_private, own_gate,
  after_configs, get_hopper_conf,
}
use addressroutinggateway.Hopper.Config.Public.{read_private_key-SameState, SameState, Ends}
use addressroutinggateway.Machine.Invariant.{AreSound}
use addressroutinggateway.Machine.Invariant.{IsWellFormed, Calls-IsWellFormed}
use addressroutinggateway.Machine.Director.{Calls}
use addressroutinggateway.Nat.{HashTable, Bucket}
use addressroutinggateway.Nat.Distinct.{IsDistinct}
use addressroutinggateway.Machine.Start.{
  Ends-chain, AreSound-set_gate, AreSound-to_front, StartsFrom, add_configs-StartsFrom,
}

find_name-All :
    (P : ℕ → Type 0) (gates : ℕ → Gate) (xs : List ℕ) (name : List ℕ) (a : ℕ)
    → find_name gates xs name ≡ some a
    → All P xs
    → P a × (same_bytes (take max_name_size name) (take max_name_size (gates a).name) ≡ true)
unfolding find_name
find_name-All P gates [] name a e h = absurd cc
find_name-All P gates (b ∷ xs) name a e h =
    elim (Bool-cases (same_bytes (take max_name_size name) (take max_name_size (gates b).name))) [
      | inl here ↦
          let same : b ≡ a = some_of (rw here at e) in
          (
            subst P same h.0,
            subst (λ c. same_bytes (take 10 name) (take 10 (gates c).name) ≡ true) same here,
          )
      | inr off ↦ find_name-All P gates xs name a (rw off at e) h.1
    ]
  where
    some_of : {x y : ℕ} → some x ≡ some y → x ≡ y
    some_of h = cc

-- The gateway has the configured name.
abbrev pub HasName : List ℕ → Gate → Type 0
HasName name g = same_bytes (take max_name_size name) (take max_name_size g.name) ≡ true

-- The first of the list has it.
abbrev pub IsOurs : List ℕ → (ℕ → Gate) → List ℕ → Type 0
IsOurs name gates [] = ⊥
IsOurs name gates (a ∷ rest) = HasName name (gates a)

module _ {T : Type 0} where
  module _ (env : Env) (lib : KeyLibrary) (open_file : List ℕ → ℕ ⊎ List ℕ) where
    -- What a run of `get_hopper_conf` leaves.
    abbrev pub IsConfigured : List ℕ → World T → ℤ × World T → Type 0
    IsConfigured name u (ret, v) = StartsFrom u v × (ret ≡ pos 0 → IsOurs name v.gates v.order)

    set_gate-IsConfigured :
        (name : List ℕ) (a : ℕ) (g : Gate) (rest : List ℕ) (u w : World T)
        → w.order ≡ a ∷ rest
        → HasName name g
        → g.connected ≡ (w.gates a).connected
        → g.proto ≡ (w.gates a).proto
        → StartsFrom u w
        → IsConfigured name u (pos 0, set_gate a g w)
    unfolding set_gate
    set_gate-IsConfigured name a g rest u w at ours same_connected same_proto (s, table) = (
      (AreSound-set_gate a g w same_connected same_proto s, table),
      λ e. rw at (rw ((==_iff a a).1 refl) ours),
    )

    own_keys-IsConfigured :
        (name : List ℕ) (hop_rate : ℤ) (a : ℕ) (rest : List ℕ) (u w : World T)
        → w.order ≡ a ∷ rest
        → HasName name (w.gates a)
        → StartsFrom u w
        → Ends (IsConfigured name u) (own_keys env lib open_file hop_rate a w)
    unfolding own_keys get_random_bytes current_time
    own_keys-IsConfigured name hop_rate a rest u w at ours (s, table) =
        set_gate-IsConfigured name a _ rest u
          (record w { clock_reads = suc w.clock_reads; draws = suc (suc (suc w.draws)) }) at ours
          refl refl (record { ready = s.ready; known = s.known; once = s.once }, table)

    with_private-IsConfigured :
        (name : List ℕ) (hop_rate : ℤ) (a : ℕ) (rest : List ℕ) (u w : World T) (o : Reading Gate)
        → w.order ≡ a ∷ rest
        → HasName name (w.gates a)
        → Ends (SameState (w.gates a)) o
        → StartsFrom u w
        → Ends (IsConfigured name u) (with_private env lib open_file hop_rate a w o)
    unfolding set_gate
    with_private-IsConfigured name hop_rate a rest u w (got g) at ours (c, p, n) (s, table) =
        own_keys-IsConfigured name hop_rate a rest u (set_gate a g w) at
          (rw ((==_iff a a).1 refl) (rw n ours)) (AreSound-set_gate a g w c p s, table)
    with_private-IsConfigured name hop_rate a rest u w (failed err) at ours same s =
        (s, λ e. absurd cc)
    with_private-IsConfigured name hop_rate a rest u w null_dereference at ours same s = same
    with_private-IsConfigured name hop_rate a rest u w stray_access at ours same s = tt
    with_private-IsConfigured name hop_rate a rest u w unfinished at ours same s = same

    own_gate-IsConfigured :
        (conf : HopperConf) (u w : World T) (found : Option ℕ)
        → find_name w.gates w.order conf.our_gate_name ≡ found
        → StartsFrom u w
        → Ends (IsConfigured conf.our_gate_name u) (own_gate env lib open_file conf w found)
    unfolding to_front
    own_gate-IsConfigured conf u w none at s = (s, λ e. absurd cc)
    own_gate-IsConfigured conf u w (some a) at (s, table) =
        let known =
          find_name-All (λ b. b < w.fresh) w.gates w.order conf.our_gate_name a at s.known in
        with_private-IsConfigured conf.our_gate_name conf.hop_rate a (without a w.order) u
          (record w { order = to_front a w.order })
          (read_private_key lib open_file conf.dir (w.gates a)) refl known.1
          (read_private_key-SameState lib (w.gates a) open_file conf.dir)
          (AreSound-to_front a w known.0 s, table)

    after_configs-IsConfigured :
        (conf : HopperConf) (u v : World T) (ret : ℤ)
        → StartsFrom u v
        → Ends (IsConfigured conf.our_gate_name u) (after_configs env lib open_file conf (ret, v))
    after_configs-IsConfigured conf u v (pos k) s =
        own_gate-IsConfigured conf u v (find_name v.gates v.order conf.our_gate_name) refl s
    after_configs-IsConfigured conf u v (negsuc k) s = (s, λ e. absurd cc)

    -- On an empty list of gateways `get_hopper_conf` ends, unless a line of a public key file leads it
    -- out of its line buffer. If before it every gateway that is connected has had its connection data
    -- and its time base, then after it so it is, no gateway stands twice in the list, all that stand in
    -- it have been made, and the NAT table is as before. If it is successful, the first gateway of the
    -- list has the configured name.
    pub get_hopper_conf-IsConfigured :
        (conf : HopperConf) (w : World T)
        → AreSound w
        → w.order ≡ []
        → Ends (IsConfigured conf.our_gate_name w) (get_hopper_conf env lib open_file conf w)
    unfolding get_hopper_conf
    get_hopper_conf-IsConfigured conf w s empty =
        Ends-chain (IsConfigured conf.our_gate_name w)
          (add_configs env lib open_file conf.dir conf.gates w)
          (λ made. after_configs env lib open_file conf made)
          (add_configs-StartsFrom env lib open_file conf.dir conf.gates w w (s, refl))
          λ (ret, v) t. after_configs-IsConfigured conf w v ret t

-- In a state with an empty list of gateways, where every gateway that is connected has had its
-- connection data and its time base, and where no key stands twice in the NAT table, a successful
-- `get_hopper_conf` and any sequence of calls that return lead to a state where the same two hold, no
-- gateway stands twice in the list, and all that stand in it have been made.
pub get_hopper_conf-Calls :
    (h : HashTable Bucket) (env : Env) (lib : KeyLibrary) (open_file : List ℕ → ℕ ⊎ List ℕ)
    (conf : HopperConf) (w v v' : World (HashTable.Table h))
    → IsWellFormed h w
    → w.order ≡ []
    → get_hopper_conf env lib open_file conf w ≡ got (pos 0, v)
    → Calls h env v v'
    → IsWellFormed h v'
get_hopper_conf-Calls h env lib open_file conf w v v' f empty e calls =
    let after : IsConfigured env lib open_file conf.our_gate_name w (pos 0, v) =
      subst (Ends (IsConfigured env lib open_file conf.our_gate_name w)) e
        (get_hopper_conf-IsConfigured env lib open_file conf w f.sound empty) in
    Calls-IsWellFormed h env v v' calls (record {
      sound = after.0.0;
      distinct = subst (λ t. IsDistinct (HashTable.items h t)) (sym after.0.1) f.distinct;
    })

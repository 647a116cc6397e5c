-- ===== src/Machine/Start.antt =====
-- hopper.c: the list that the gateways of the configuration become.
use addressroutinggateway.Prelude.{
  ℕ, suc, ◌<◌, ◌≡◌, sym, ap, ◌∙◌, List, [], ◌∷◌, ◌++◌, Option, none, some, false, ◌⊎◌, ℤ, pos,
  negsuc, ◌==◌, if◌then◌else◌, All, arith,
}
use addressroutinggateway.Settings.Config.{
  Reading, got, failed, null_dereference, stray_access, unfinished, ◌>>=◌,
}
use addressroutinggateway.Settings.Keys.{KeyLibrary, read_public_key}
use addressroutinggateway.Memory.{Bytes}
use addressroutinggateway.World.{set_flag, World, Env, Gate, set_gate, malloc}
use addressroutinggateway.Hopper.Create.{new_gate, place_gate, create_arg_network_info}
use addressroutinggateway.Hopper.Config.{
  returned, to_front, named, masked, place_config, placed, add_config, add_configs,
}
use addressroutinggateway.Hopper.Config.Public.{SameState, Ends, read_public_key-SameState}
use addressroutinggateway.Machine.Invariant.{All-grow, AreSound, set_gate-IsReady}
use addressroutinggateway.Machine.Lists.{
  All-concat, IsOnce-concat, All-without, without-ne, IsOnce-without,
}

pub Ends-chain :
    {A B : Type 0} {P : A → Type 0} (Q : B → Type 0) (m : Reading A) (f : A → Reading B)
    → Ends P m
    → ((a : A) → P a → Ends Q (f a))
    → Ends Q (m >>= f)
Ends-chain Q (got a) f p h = h a p
Ends-chain Q (failed err) f p h = tt
Ends-chain Q null_dereference f p h = p
Ends-chain Q stray_access f p h = tt
Ends-chain Q unfinished f p h = p

module _ {T : Type 0} where
  -- The gateways are sound, and the NAT table is as in u.
  abbrev pub StartsFrom : World T → World T → Type 0
  StartsFrom u v = AreSound v × (v.nat_table ≡ u.nat_table)

  pub AreSound-set_gate :
      (a : ℕ) (g : Gate) (w : World T)
      → g.connected ≡ (w.gates a).connected
      → g.proto ≡ (w.gates a).proto
      → AreSound w
      → AreSound (set_gate a g w)
  unfolding set_gate
  AreSound-set_gate a g w same_connected same_proto s = record {
    ready =
        set_gate-IsReady a g w
          (λ c.
            let (data_in, base_in) = s.ready a (sym same_connected ∙ c) in
            (
              ap (λ p. p.conn_data_available) same_proto ∙ data_in,
              ap (λ p. p.time_base_available) same_proto ∙ base_in,
            ))
          s.ready;
    known = s.known;
    once = s.once;
  }

  -- A structure that is not in the list comes to its end.
  AreSound-concat :
      (a : ℕ) (w : World T)
      → All (λ b. b < a) w.order
      → a < w.fresh
      → AreSound w
      → AreSound (record w { order = w.order ++ a ∷ [] })
  AreSound-concat a w below made s = record {
    ready = s.ready;
    known = All-concat (λ b. b < w.fresh) w.order a s.known made;
    once = IsOnce-concat w.order a below s.once;
  }

  pub AreSound-to_front :
      (a : ℕ) (w : World T)
      → a < w.fresh
      → AreSound w
      → AreSound (record w { order = to_front a w.order })
  unfolding to_front
  AreSound-to_front a w made s = record {
    ready = s.ready;
    known = (made, All-without (λ b. b < w.fresh) a w.order s.known);
    once = (without-ne a w.order s.once, IsOnce-without a w.order s.once);
  }

  module _ (env : Env) (lib : KeyLibrary) (open_file : List ℕ → ℕ ⊎ List ℕ) (dir : List ℕ) where
    -- With a structure at a that is behind all in the list.
    place_config-StartsFrom :
        (name : List ℕ) (a : ℕ) (u w : World T)
        → All (λ b. b < a) w.order
        → a < w.fresh
        → StartsFrom u w
        → Ends (StartsFrom u) (place_config env lib open_file dir name a w)
    unfolding place_config
    place_config-StartsFrom name a u w below made (s, table) =
        by_file (read_public_key lib open_file dir (named name (w.gates a)))
          (read_public_key-SameState lib (named name (w.gates a)) open_file dir)
      where
        by_file :
            (o : Reading (ℤ × Gate))
            → Ends (λ x. SameState (named name (w.gates a)) x.1) o
            → Ends (StartsFrom u) (
                o >>= λ (ret, g).
                got (set_gate a (masked g) (record w { order = w.order ++ a ∷ [] })))
        by_file (got (ret, g)) same = (
          AreSound-set_gate a (masked g) (record w { order = w.order ++ a ∷ [] }) same.0 same.1
              (AreSound-concat a w below made s),
          table,
        )
        by_file (failed err) same = tt
        by_file null_dereference same = same
        by_file stray_access same = tt
        by_file unfinished same = same

    -- The new structure is ready, and is at the next address.
    made_gate :
        (w : World T)
        → AreSound w
        → AreSound (record w {
          gates = λ b. if b == w.fresh then new_gate else w.gates b;
          locked = set_flag w.fresh false w.locked;
          fresh = suc w.fresh;
        })
    made_gate w s = record {
      ready = set_gate-IsReady w.fresh new_gate w (λ c. absurd cc) s.ready;
      known = All-grow w.fresh w.order s.known;
      once = s.once;
    }

    placed-StartsFrom :
        (name : List ℕ) (block : Option Bytes) (u w : World T)
        → StartsFrom u w
        → Ends
            (λ x. StartsFrom u x.1)
            (returned (place_gate env block w) >>= placed env lib open_file dir name)
    placed-StartsFrom name none u w s = s
    placed-StartsFrom name (some b) u w (s, table) =
        Ends-chain (λ x. StartsFrom u x.1)
          (place_config env lib open_file dir name w.fresh new_world) (λ v. got (pos 0, v))
          (place_config-StartsFrom name w.fresh u new_world s.known (omega arith)
            (made_gate w s, table))
          λ v t. t
      where
        new_world : World T
        new_world = record w {
          gates = λ b. if b == w.fresh then new_gate else w.gates b;
          locked = set_flag w.fresh false w.locked;
          fresh = suc w.fresh;
        }

    add_config-StartsFrom :
        (name : List ℕ) (u w : World T)
        → StartsFrom u w
        → Ends (λ x. StartsFrom u x.1) (add_config env lib open_file dir name w)
    unfolding add_config create_arg_network_info malloc
    add_config-StartsFrom name u w (s, table) =
        placed-StartsFrom name (env.malloc w.allocs) u (record w { allocs = suc w.allocs })
          (record { ready = s.ready; known = s.known; once = s.once }, table)

    by_result :
        (names : List (List ℕ)) (u : World T) (ret : ℤ) (v : World T)
        → (StartsFrom u v
            → Ends (λ x. StartsFrom u x.1) (add_configs env lib open_file dir names v))
        → StartsFrom u v
        → Ends
            (λ x. StartsFrom u x.1)
            (elim ret [
              | pos k ↦ add_configs env lib open_file dir names v
              | negsuc k ↦ got (negsuc k, v)
            ])
    by_result names u (pos k) v rest s = rest s
    by_result names u (negsuc k) v rest s = s

    pub add_configs-StartsFrom :
        (names : List (List ℕ)) (u w : World T)
        → StartsFrom u w
        → Ends (λ x. StartsFrom u x.1) (add_configs env lib open_file dir names w)
    unfolding add_configs
    add_configs-StartsFrom [] u w s = s
    add_configs-StartsFrom (name ∷ names) u w s =
        Ends-chain (λ x. StartsFrom u x.1) (add_config env lib open_file dir name w)
          (λ (ret, v). elim ret [
            | pos k ↦ add_configs env lib open_file dir names v
            | negsuc k ↦ got (negsuc k, v)
          ])
          (add_config-StartsFrom name u w s)
          λ (ret, v) t. by_result names u ret v (add_configs-StartsFrom names u v) t

-- ===== src/Machine/Trust.antt =====
-- protocol.c: `send_all_trust` and `process_arg_trust` make only steps of the gateway program.
use addressroutinggateway.Prelude.{
  ap, ◌∙◌, ==_iff, fun_ext, ◌≡◌, suc, refl, ◌∷◌, ℕ, List, [], Bool, true, false, Option, none, some,
  ℤ, pos, is_zero, if◌then◌else◌, Bool-cases, inl, inr, ◌==◌,
}
use addressroutinggateway.Memory.{Bytes, slice}
use addressroutinggateway.Packet.{PacketData}
use addressroutinggateway.World.{
  deref, ◌>>=◌, unlock, update_proto, update_gate, World, Env, Gate, lock, set_flag, set_gate,
  malloc,
}
use addressroutinggateway.World.Keeps.{Keeps, After}
use addressroutinggateway.Hopper.Create.{
  place_gate, insert_behind, create_arg_network_info, new_gate,
}
use addressroutinggateway.Protocol.Message.{ArgMsg}
use addressroutinggateway.Protocol.Trust.{
  n_offset, e_offset, trusted_gate, send_trust_data, send_trust_with, send_arg_trust, trust_unless,
  send_trust_list, send_all_trust, add_trusted, learn, trust_sized, trust_message,
  process_arg_trust,
}
use addressroutinggateway.Machine.Steps.{Step, Reach, next, one-Step}
use addressroutinggateway.Machine.Calls.{Runs, call_rules, do_rules, Runs-pure}
use addressroutinggateway.Machine.Messages.{packet_rules}

module _ (T : Type 0) (env : Env) where
  Runs-send_trust_data :
      (l r : ℕ) (msg : ArgMsg) (b : Bytes) (n e : Option (List ℕ))
      → Runs {T = T} (send_trust_data env l r msg b n e)
  Runs-send_trust_data l r msg b none e = Runs-pure _ _ _
  Runs-send_trust_data l r msg b (some n) none = Runs-pure _ _ _
  Runs-send_trust_data l r msg b (some n) (some e) = search packet_rules depth 10

  Runs-send_trust_with :
      (l r a : ℕ) (msg : Option ArgMsg) → Runs {T = T} (send_trust_with env l r a msg)
  Runs-send_trust_with l r a none = Runs-pure _ _ _
  Runs-send_trust_with l r a (some msg) = search (do_rules, Runs-send_trust_data)

  Runs-send_arg_trust : (l r a : ℕ) → Runs {T = T} (send_arg_trust env l r a)
  unfolding send_arg_trust
  Runs-send_arg_trust l r a = search (call_rules, Runs-send_trust_with)

  Runs-trust_unless : (l r a : ℕ) (b : Bool) → Runs {T = T} (trust_unless env l r a b)
  Runs-trust_unless l r a true = Runs-pure _ _ _
  Runs-trust_unless l r a false = Runs-send_arg_trust l r a

  Runs-send_trust_list :
      (l r : ℕ) (rest : List ℕ) (ret : ℤ) → Runs {T = T} (send_trust_list env l r rest ret)
  unfolding send_trust_list
  Runs-send_trust_list l r [] ret = Runs-pure _ _ _
  Runs-send_trust_list l r (a ∷ rest) ret = search (
    do_rules,
    Runs-trust_unless,
    λ (s : ℤ). Runs-send_trust_list l r rest (if is_zero s then ret else pos 1),
  )

  pub Runs-send_all_trust : (l r : ℕ) → Runs {T = T} (send_all_trust env l r)
  unfolding send_all_trust
  Runs-send_all_trust l r = search (do_rules, Runs-send_trust_list)

-- Two writes to one place.
abbrev set_at : ℕ → Gate → (ℕ → Gate) → ℕ → Gate
set_at a g gates b = if b == a then g else gates b

set_at-at : (a : ℕ) (g : Gate) (gates : ℕ → Gate) → set_at a g gates a ≡ g
set_at-at a g gates = rw ((==_iff a a).1 refl) refl

set_at-twice :
    (a : ℕ) (g g' : Gate) (gates : ℕ → Gate) → set_at a g' (set_at a g gates) ≡ set_at a g' gates
set_at-twice a g g' gates =
    fun_ext λ b. elim (Bool-cases (b == a)) [ inl at ↦ rw at refl | inr off ↦ rw off refl ]

set_at-change :
    (a : ℕ) (g : Gate) (f : Gate → Gate) (gates : ℕ → Gate)
    → set_at a (f (set_at a g gates a)) (set_at a g gates) ≡ set_at a (f g) gates
set_at-change a g f gates =
    set_at-twice a g (f (set_at a g gates a)) gates
    ∙ ap (λ x. set_at a (f x) gates) (set_at-at a g gates)

abbrev asked : Gate → Gate
asked g = record g { proto = record g.proto { send_conn_data = true } }

module _ (T : Type 0) (env : Env) (l : ℕ) (b : Bytes) where
  -- The state with the new structure in the list.
  abbrev joined : Gate → (ℕ → Bool) → World T → World T
  joined g locked w = record w {
    allocs = suc w.allocs;
    gates = set_at w.fresh g w.gates;
    locked = locked;
    fresh = suc w.fresh;
    order = insert_behind l w.fresh w.order;
  }

  Reach-joined :
      (n e bits : ℕ) (locked : ℕ → Bool) (w : World T)
      → Reach w (joined (asked (trusted_gate b n e bits new_gate)) locked w)
  unfolding set_gate trusted_gate
  Reach-joined n e bits locked w =
      next
        (next
          (one-Step (
            Step.quiet {v = record w { allocs = suc w.allocs }} (record {
              same_gates = refl;
              same_locked = refl;
              same_order = refl;
              same_fresh = refl;
              same_table = refl;
            })))
          (Step.locks locked))
        (Step.join l (asked (trusted_gate b n e bits new_gate)) (record {
          same_connected = refl;
          same_conn_data = refl;
          same_time_base = refl;
          same_update = refl;
          same_base_ip = refl;
          same_mask = refl;
          same_hop_key = refl;
          same_sym_key = refl;
        }))

  gates_path :
      (a n e bits : ℕ) (gates : ℕ → Gate)
      → set_at a
          (asked (
            set_at a
              (trusted_gate b n e bits (set_at a new_gate gates a))
              (set_at a new_gate gates)
              a))
          (set_at a (trusted_gate b n e bits (set_at a new_gate gates a)) (set_at a new_gate gates))
        ≡ set_at a (asked (trusted_gate b n e bits new_gate)) gates
  gates_path a n e bits gates =
      ap (λ G. set_at a (asked (G a)) G) (set_at-change a new_gate (trusted_gate b n e bits) gates)
      ∙ set_at-change a (trusted_gate b n e bits new_gate) asked gates

  Reach-given_up :
      (locked : ℕ → Bool) (w : World T)
      → Reach w (record w {
        allocs = suc w.allocs;
        gates = set_at w.fresh new_gate w.gates;
        locked = locked;
        fresh = suc w.fresh;
      })
  unfolding set_gate
  Reach-given_up locked w =
      next
        (next
          (one-Step (
            Step.quiet {v = record w { allocs = suc w.allocs }} (record {
              same_gates = refl;
              same_locked = refl;
              same_order = refl;
              same_fresh = refl;
              same_table = refl;
            })))
          (Step.locks locked))
        Step.give_up

  Runs-add_placed :
      (block : Option Bytes) (n e : Option ℕ) (w : World T)
      → After (Reach w) (
          (place_gate env block >>= λ new. deref new >>= λ a. add_trusted env l b a n e)
            (record w { allocs = suc w.allocs }))
  unfolding update_gate update_proto set_gate lock unlock
  Runs-add_placed none n e w = tt
  Runs-add_placed (some block) none e w = Reach-given_up _ w
  Runs-add_placed (some block) (some n) none w = Reach-given_up _ w
  Runs-add_placed (some block) (some n) (some e) w =
      elim (Bool-cases (set_flag w.fresh false w.locked l)) [
        | inl held ↦ rw held tt
        | inr free ↦
            rw (free, gates_path w.fresh n e (env.mpi_msb n) w.gates)
              (Reach-joined n e (env.mpi_msb n) _ w)
      ]

  Runs-learn_new : Runs {T = T} (learn env l b none)
  unfolding Keeps malloc create_arg_network_info
  Runs-learn_new w =
      Runs-add_placed (env.malloc w.allocs) (env.mpi_read_binary (slice b n_offset 130))
        (env.mpi_read_binary (slice b e_offset 10)) w

  pub Runs-learn : (known : Option ℕ) → Runs {T = T} (learn env l b known)
  Runs-learn (some known) = Runs-pure _ _ _
  Runs-learn none = Runs-learn_new

module _ (T : Type 0) (env : Env) where
  Runs-trust_sized : (l : ℕ) (msg : ArgMsg) (b : Bool) → Runs {T = T} (trust_sized env l msg b)
  Runs-trust_sized l msg true = search (do_rules, Runs-learn)
  Runs-trust_sized l msg false = Runs-pure _ _ _

  Runs-trust_message : (l : ℕ) (got : ℤ × Option ArgMsg) → Runs {T = T} (trust_message env l got)
  Runs-trust_message l (ret, msg) = search (do_rules, Runs-trust_sized)

  pub Runs-process_arg_trust :
      (l r : ℕ) (p : PacketData) → Runs {T = T} (process_arg_trust env l r p)
  unfolding process_arg_trust
  Runs-process_arg_trust l r p = search (packet_rules, Runs-trust_message)

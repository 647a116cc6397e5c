-- ===== src/Machine/Calls.antt =====
-- The calls of the system and of packet.c, and mutexes, as steps of the gateway program.
use addressroutinggateway.Prelude.{
  ℕ, suc, refl, Bool, true, false, Option, ℤ, if◌then◌else◌, Bool-cases, inl, inr,
}
use addressroutinggateway.Utility.Time.{Timespec}
use addressroutinggateway.Packet.{PacketData}
use addressroutinggateway.Packet.Buffers.{create_packet, copy_packet, send_packet}
use addressroutinggateway.World.{
  done, Outcome, null_dereference, deadlock, modify, set_flag, ◌>>◌, gets, read_gate, World, Env,
  Gate, Run, pure, deref, ◌>>=◌, lock, unlock, current_time, current_time_offset, get_random_bytes,
  malloc, update_gate,
}
use addressroutinggateway.World.Keeps.{
  After, Keeps, Keeps-bind, Keeps-then, Keeps-if, Keeps-pure, Keeps-gets, Keeps-read_gate,
  Keeps-deref,
}
use addressroutinggateway.Hopper.Address.{generate_ip_corrected}
use addressroutinggateway.Protocol.Message.{create_arg_msg}
use addressroutinggateway.Machine.Steps.{IsQuiet, GateStep, Step, Reach, one-Step, Reach-IsPreorder}
use addressroutinggateway.Machine.Quiet.{
  Quietly, Quietly-malloc, Quietly-current_time, Quietly-get_random_bytes,
  Quietly-current_time_offset, Quietly-generate_ip, Quietly-create_packet, Quietly-copy_packet,
  Quietly-send_packet, Quietly-create_arg_msg,
}

-- The call makes only steps of the gateway program.
abbrev pub Runs : {T : Type 0} {A : Type 0} → Run T A → Type 0
Runs m = Keeps Reach m

-- A quiet call is one step.
After-quiet :
    {T A : Type 0} (w : World T) (o : Outcome T A) → After (IsQuiet w) o → After (Reach w) o
After-quiet w (done a v) q = one-Step (Step.quiet q)
After-quiet w null_dereference q = tt
After-quiet w deadlock q = tt

module _ (T : Type 0) where
  pub Runs-pure : (A : Type 0) (a : A) → Runs {T = T} (pure a)
  Runs-pure A a = Keeps-pure Reach Reach-IsPreorder a

  pub Runs-quiet : (A : Type 0) (m : Run T A) → Quietly m → Runs m
  unfolding Keeps
  Runs-quiet A m q w = After-quiet w (m w) (q w)

  pub Runs-gets : (A : Type 0) (f : World T → A) → Runs (gets f)
  Runs-gets A f = Keeps-gets Reach Reach-IsPreorder f

  pub Runs-read_gate : (a : ℕ) → Runs {T = T} (read_gate a)
  Runs-read_gate a = Keeps-read_gate Reach Reach-IsPreorder a

  pub Runs-deref : (A : Type 0) (x : Option A) → Runs {T = T} (deref x)
  Runs-deref A x = Keeps-deref Reach Reach-IsPreorder x

  pub Runs-bind :
      (A B : Type 0) (m : Run T A) (f : A → Run T B)
      → Runs m
      → ((a : A) → Runs (f a))
      → Runs (m >>= f)
  Runs-bind A B m f k l = Keeps-bind Reach Reach-IsPreorder m f k l

  pub Runs-then : (A B : Type 0) (m : Run T A) (n : Run T B) → Runs m → Runs n → Runs (m >> n)
  Runs-then A B m n k l = Keeps-then Reach Reach-IsPreorder m n k l

  pub Runs-if :
      (A : Type 0) (b : Bool) (m n : Run T A) → Runs m → Runs n → Runs (if b then m else n)
  Runs-if A b m n k l = Keeps-if Reach Reach-IsPreorder b m n k l

  pub Runs-unlock : (a : ℕ) → Runs {T = T} (unlock a)
  unfolding unlock Keeps
  Runs-unlock a w = one-Step (Step.locks (set_flag a false w.locked))

  pub Runs-lock : (a : ℕ) → Runs {T = T} (lock a)
  unfolding lock Keeps
  Runs-lock a w = elim (Bool-cases (w.locked a)) [
    | inl held ↦ rw held tt
    | inr free ↦ rw free (one-Step (Step.locks (set_flag a true w.locked)))
  ]

  pub Runs-draw : Runs {T = T} (modify (λ w. record w { draws = suc w.draws }))
  unfolding Keeps
  Runs-draw w = one-Step (
      Step.quiet (record {
        same_gates = refl;
        same_locked = refl;
        same_order = refl;
        same_fresh = refl;
        same_table = refl;
      }))

  pub Runs-update_gate :
      (a : ℕ) (f : Gate → Gate) → ((g : Gate) → GateStep g (f g)) → Runs {T = T} (update_gate a f)
  unfolding Keeps update_gate
  Runs-update_gate a f step w = one-Step (Step.change a (step (w.gates a)))

  pub ruleset do_rules = (
    Runs-pure, Runs-gets, Runs-read_gate, Runs-deref, Runs-bind, Runs-then, Runs-if, Runs-unlock,
    Runs-lock,
  )

module _ (T : Type 0) (env : Env) where
  pub Runs-malloc : Runs {T = T} (malloc env)
  Runs-malloc = Runs-quiet T _ _ (Quietly-malloc T env)

  pub Runs-current_time : Runs {T = T} (current_time env)
  Runs-current_time = Runs-quiet T _ _ (Quietly-current_time T env)

  pub Runs-get_random_bytes : (n : ℕ) → Runs {T = T} (get_random_bytes env n)
  Runs-get_random_bytes n = Runs-quiet T _ _ (Quietly-get_random_bytes T env n)

  pub Runs-current_time_offset : (t : Timespec) → Runs {T = T} (current_time_offset env t)
  Runs-current_time_offset t = Runs-quiet T _ _ (Quietly-current_time_offset T env t)

  pub Runs-generate_ip : (g : Gate) (c : ℤ) → Runs {T = T} (generate_ip_corrected env g c)
  Runs-generate_ip g c = Runs-quiet T _ _ (Quietly-generate_ip T env g c)

  pub Runs-create_packet : (n : ℕ) → Runs {T = T} (create_packet env n)
  Runs-create_packet n = Runs-quiet T _ _ (Quietly-create_packet T env n)

  pub Runs-copy_packet : (p : PacketData) → Runs {T = T} (copy_packet env p)
  Runs-copy_packet p = Runs-quiet T _ _ (Quietly-copy_packet T env p)

  pub Runs-send_packet : (p : PacketData) → Runs {T = T} (send_packet env p)
  Runs-send_packet p = Runs-quiet T _ _ (Quietly-send_packet T env p)

  pub Runs-create_arg_msg : (n : ℕ) → Runs {T = T} (create_arg_msg env n)
  Runs-create_arg_msg n = Runs-quiet T _ _ (Quietly-create_arg_msg T env n)

  pub ruleset call_rules = (
    do_rules, Runs-malloc, Runs-current_time, Runs-get_random_bytes, Runs-current_time_offset,
    Runs-generate_ip, Runs-create_packet, Runs-copy_packet, Runs-send_packet, Runs-create_arg_msg,
  )

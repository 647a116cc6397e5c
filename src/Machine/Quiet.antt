-- ===== src/Machine/Quiet.antt =====
-- packet.c and the calls of the system: they leave the gateways and the table as they are.
use addressroutinggateway.Prelude.{
  ◌∙◌, ℕ, zero, suc, refl, Bool, Option, none, some, ℤ, ◌==◌, if◌then◌else◌, List, Bool-cases, inl,
  inr,
}
use addressroutinggateway.Memory.{Bytes}
use addressroutinggateway.Utility.Time.{Timespec}
use addressroutinggateway.Packet.{PacketData}
use addressroutinggateway.Packet.Buffers.{
  create_with, create_data, create_packet, copy_with, copy_data, copy_packet, transmit, send_packet,
}
use addressroutinggateway.World.{
  ◌>>◌, gets, read_gate, World, Env, Gate, Run, pure, deref, ◌>>=◌, current_time,
  current_time_offset, get_random_bytes, malloc,
}
use addressroutinggateway.World.Keeps.{
  IsPreorder, Keeps, Keeps-bind, Keeps-then, Keeps-if, Keeps-pure, Keeps-gets, Keeps-read_gate,
  Keeps-deref,
}
use addressroutinggateway.Hopper.Address.{generate_ip_corrected}
use addressroutinggateway.Protocol.Message.{msg_with, msg_data, create_arg_msg}
use addressroutinggateway.Machine.Steps.{IsQuiet}

-- The call leaves the gateways, their list and the table as they are.
abbrev pub Quietly : {T : Type 0} {A : Type 0} → Run T A → Type 0
Quietly m = Keeps IsQuiet m

IsQuiet-IsPreorder : {T : Type 0} → IsPreorder {T = T} IsQuiet
IsQuiet-IsPreorder = record {
  reflexive = λ w. record {
    same_gates = refl;
    same_locked = refl;
    same_order = refl;
    same_fresh = refl;
    same_table = refl;
  };
  transitive = λ u v w p q. record {
    same_gates = q.same_gates ∙ p.same_gates;
    same_locked = q.same_locked ∙ p.same_locked;
    same_order = q.same_order ∙ p.same_order;
    same_fresh = q.same_fresh ∙ p.same_fresh;
    same_table = q.same_table ∙ p.same_table;
  };
}

quietly :
    {T : Type 0} (c d m n : ℕ) (s : List (List ℕ)) (w : World T)
    → IsQuiet w (record w { clock_reads = c; draws = d; allocs = m; sends = n; sent = s })
quietly c d m n s w = record {
  same_gates = refl;
  same_locked = refl;
  same_order = refl;
  same_fresh = refl;
  same_table = refl;
}

module _ (T : Type 0) where
  pub Quietly-pure : (A : Type 0) (a : A) → Quietly {T = T} (pure a)
  Quietly-pure A a = Keeps-pure IsQuiet IsQuiet-IsPreorder a

  pub Quietly-gets : (A : Type 0) (f : World T → A) → Quietly (gets f)
  Quietly-gets A f = Keeps-gets IsQuiet IsQuiet-IsPreorder f

  pub Quietly-read_gate : (a : ℕ) → Quietly {T = T} (read_gate a)
  Quietly-read_gate a = Keeps-read_gate IsQuiet IsQuiet-IsPreorder a

  pub Quietly-deref : (A : Type 0) (x : Option A) → Quietly {T = T} (deref x)
  Quietly-deref A x = Keeps-deref IsQuiet IsQuiet-IsPreorder x

  pub Quietly-bind :
      (A B : Type 0) (m : Run T A) (f : A → Run T B)
      → Quietly m
      → ((a : A) → Quietly (f a))
      → Quietly (m >>= f)
  Quietly-bind A B m f k l = Keeps-bind IsQuiet IsQuiet-IsPreorder m f k l

  pub Quietly-then :
      (A B : Type 0) (m : Run T A) (n : Run T B) → Quietly m → Quietly n → Quietly (m >> n)
  Quietly-then A B m n k l = Keeps-then IsQuiet IsQuiet-IsPreorder m n k l

  pub Quietly-if :
      (A : Type 0) (b : Bool) (m n : Run T A) → Quietly m → Quietly n → Quietly (if b then m else n)
  Quietly-if A b m n k l = Keeps-if IsQuiet IsQuiet-IsPreorder b m n k l

  pub ruleset quiet_do_rules = (
    Quietly-pure, Quietly-gets, Quietly-read_gate, Quietly-deref, Quietly-bind, Quietly-then,
    Quietly-if,
  )

module _ (T : Type 0) (env : Env) where
  pub Quietly-malloc : Quietly {T = T} (malloc env)
  unfolding malloc Keeps
  Quietly-malloc w = quietly _ _ _ _ _ w

  pub Quietly-current_time : Quietly {T = T} (current_time env)
  unfolding current_time Keeps
  Quietly-current_time w = quietly _ _ _ _ _ w

  pub Quietly-get_random_bytes : (n : ℕ) → Quietly {T = T} (get_random_bytes env n)
  unfolding get_random_bytes Keeps
  Quietly-get_random_bytes n w = quietly _ _ _ _ _ w

  pub Quietly-current_time_offset : (t : Timespec) → Quietly {T = T} (current_time_offset env t)
  unfolding current_time_offset
  Quietly-current_time_offset t = search (quiet_do_rules, Quietly-current_time)

  pub Quietly-generate_ip : (g : Gate) (c : ℤ) → Quietly {T = T} (generate_ip_corrected env g c)
  unfolding generate_ip_corrected
  Quietly-generate_ip g c = search (quiet_do_rules, Quietly-current_time)

  Quietly-create_with : (n : ℕ) (s : Option Bytes) → Quietly {T = T} (create_with env n s)
  Quietly-create_with n none = Quietly-pure _ _ _
  Quietly-create_with n (some s) = Quietly-pure _ _ _

  Quietly-create_data : (n : ℕ) (s : Option Bytes) → Quietly {T = T} (create_data env n s)
  Quietly-create_data n none = Quietly-pure _ _ none
  Quietly-create_data zero (some s) = Quietly-pure _ _ _
  Quietly-create_data (suc n) (some s) =
      search (quiet_do_rules, Quietly-malloc, Quietly-create_with)

  pub Quietly-create_packet : (n : ℕ) → Quietly {T = T} (create_packet env n)
  unfolding create_packet
  Quietly-create_packet n = search (quiet_do_rules, Quietly-malloc, Quietly-create_data)

  Quietly-copy_with : (p : PacketData) (s : Option Bytes) → Quietly {T = T} (copy_with env p s)
  Quietly-copy_with p none = Quietly-pure _ _ _
  Quietly-copy_with p (some s) = Quietly-pure _ _ _

  Quietly-copy_data : (p : PacketData) (s : Option Bytes) → Quietly {T = T} (copy_data env p s)
  Quietly-copy_data p none = Quietly-pure _ _ _
  Quietly-copy_data p (some s) = search (quiet_do_rules, Quietly-malloc, Quietly-copy_with)

  pub Quietly-copy_packet : (p : PacketData) → Quietly {T = T} (copy_packet env p)
  unfolding copy_packet
  Quietly-copy_packet p = search (quiet_do_rules, Quietly-malloc, Quietly-copy_data)

  pub Quietly-transmit : (bytes : List ℕ) → Quietly {T = T} (transmit env bytes)
  unfolding transmit Keeps
  Quietly-transmit bytes w = elim (Bool-cases (env.sendto w.sends == 0)) [
    | inl good ↦ rw good (quietly _ _ _ _ _ w)
    | inr failed ↦ rw failed (quietly _ _ _ _ _ w)
  ]

  pub Quietly-send_packet : (p : PacketData) → Quietly {T = T} (send_packet env p)
  unfolding send_packet
  Quietly-send_packet p = search (quiet_do_rules, Quietly-transmit)

  Quietly-msg_with : (n : ℕ) (s : Option Bytes) → Quietly {T = T} (msg_with env n s)
  Quietly-msg_with n none = Quietly-pure _ _ _
  Quietly-msg_with n (some s) = Quietly-pure _ _ _

  Quietly-msg_data : (n : ℕ) (s : Option Bytes) → Quietly {T = T} (msg_data env n s)
  Quietly-msg_data n none = Quietly-pure _ _ _
  Quietly-msg_data n (some s) = search (quiet_do_rules, Quietly-malloc, Quietly-msg_with)

  pub Quietly-create_arg_msg : (n : ℕ) → Quietly {T = T} (create_arg_msg env n)
  unfolding create_arg_msg
  Quietly-create_arg_msg n = search (quiet_do_rules, Quietly-malloc, Quietly-msg_data)

  pub ruleset quiet_rules = (
    quiet_do_rules, Quietly-malloc, Quietly-current_time, Quietly-get_random_bytes,
    Quietly-current_time_offset, Quietly-generate_ip, Quietly-create_packet, Quietly-copy_packet,
    Quietly-send_packet, Quietly-create_arg_msg,
  )

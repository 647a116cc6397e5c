-- ===== src/Security/Silent.antt =====
-- protocol.c: `process_arg_packet` sends nothing and leaves the mutexes.
use addressroutinggateway.Prelude.{
  ℕ, ◌≡◌, refl, ◌∙◌, Bool, true, false, Option, none, some, ℤ, pos, negsuc,
}
use addressroutinggateway.Memory.{Bytes}
use addressroutinggateway.Packet.{PacketData}
use addressroutinggateway.Packet.Buffers.{copy_with, copy_data, copy_packet}
use addressroutinggateway.World.{World, Env, Gate, Run, malloc, update_proto, set_gate, ProtoData}
use addressroutinggateway.World.Keeps.{IsPreorder, Keeps, keeps_rules, Keeps-pure}
use addressroutinggateway.Protocol.Message.{ArgMsg, msg_with, msg_data, create_arg_msg}
use addressroutinggateway.Protocol.Receive.{
  SeqCheck, advance, recheck, bad, decrypt, recheck_iv, recheck_seq, after_decrypt, after_verify,
  check_copy, check_packet, process_arg_packet,
}

-- The same packets have been sent, and the same mutexes are held.
abbrev pub IsInward : {T : Type 0} → World T → World T → Type 0
IsInward u v = (v.sent ≡ u.sent) × (v.locked ≡ u.locked)

module _ (T : Type 0) where
  pub IsInward-IsPreorder : IsPreorder {T = T} IsInward
  IsInward-IsPreorder = record {
    reflexive = λ w. (refl, refl);
    transitive = λ u v w p q. (q.0 ∙ p.0, q.1 ∙ p.1);
  }

  -- The call sends nothing and leaves the mutexes.
  abbrev pub IsSilent : {A : Type 0} → Run T A → Type 0
  IsSilent m = Keeps IsInward m

  pub ruleset silent_do = (keeps_rules, IsInward-IsPreorder)

  module _ (env : Env) where
    pub IsSilent-malloc : IsSilent (malloc env)
    unfolding malloc Keeps
    IsSilent-malloc w = (refl, refl)

    IsSilent-copy_with : (p : PacketData) (s : Option Bytes) → IsSilent (copy_with env p s)
    IsSilent-copy_with p none = Keeps-pure _ IsInward-IsPreorder _
    IsSilent-copy_with p (some s) = Keeps-pure _ IsInward-IsPreorder _

    IsSilent-copy_data : (p : PacketData) (s : Option Bytes) → IsSilent (copy_data env p s)
    IsSilent-copy_data p none = Keeps-pure _ IsInward-IsPreorder _
    IsSilent-copy_data p (some s) = search (silent_do, IsSilent-malloc, IsSilent-copy_with)

    IsSilent-copy_packet : (p : PacketData) → IsSilent (copy_packet env p)
    unfolding copy_packet
    IsSilent-copy_packet p = search (silent_do, IsSilent-malloc, IsSilent-copy_data)

    IsSilent-msg_with : (n : ℕ) (s : Option Bytes) → IsSilent (msg_with env n s)
    IsSilent-msg_with n none = Keeps-pure _ IsInward-IsPreorder _
    IsSilent-msg_with n (some s) = Keeps-pure _ IsInward-IsPreorder _

    IsSilent-msg_data : (n : ℕ) (s : Option Bytes) → IsSilent (msg_data env n s)
    IsSilent-msg_data n none = Keeps-pure _ IsInward-IsPreorder _
    IsSilent-msg_data n (some s) = search (silent_do, IsSilent-malloc, IsSilent-msg_with)

    IsSilent-create_arg_msg : (n : ℕ) → IsSilent (create_arg_msg env n)
    unfolding create_arg_msg
    IsSilent-create_arg_msg n = search (silent_do, IsSilent-malloc, IsSilent-msg_data)

    IsSilent-decrypt :
        (local : Gate) (b : Bytes) (u : ℕ) (c : Bytes) (a' u' : ℕ)
        → IsSilent (decrypt env local b u c a' u')
    unfolding decrypt
    IsSilent-decrypt local b u c a' u' = search (silent_do, IsSilent-create_arg_msg) depth 10

    pub IsSilent-update_proto : (a : ℕ) (f : ProtoData → ProtoData) → IsSilent (update_proto a f)
    unfolding update_proto set_gate Keeps
    IsSilent-update_proto a f w = (refl, refl)

    IsSilent-recheck_iv : (r : ℕ) (msg : ArgMsg) (b : Bool) → IsSilent (recheck_iv env r msg b)
    IsSilent-recheck_iv r msg true = Keeps-pure _ IsInward-IsPreorder _
    IsSilent-recheck_iv r msg false = search (silent_do, IsSilent-update_proto)

    IsSilent-recheck_seq :
        (r : ℕ) (check : SeqCheck) (msg : Option ArgMsg) → IsSilent (recheck_seq env r check msg)
    IsSilent-recheck_seq r recheck none = Keeps-pure _ IsInward-IsPreorder _
    IsSilent-recheck_seq r recheck (some msg) = search (silent_do, IsSilent-recheck_iv)
    IsSilent-recheck_seq r advance msg = Keeps-pure _ IsInward-IsPreorder _
    IsSilent-recheck_seq r bad msg = Keeps-pure _ IsInward-IsPreorder _

    IsSilent-after_decrypt :
        (r : ℕ) (check : SeqCheck) (result : ℤ × Option ArgMsg)
        → IsSilent (after_decrypt env r check result)
    IsSilent-after_decrypt r check (pos code, msg) = IsSilent-recheck_seq r check msg
    IsSilent-after_decrypt r check (negsuc code, msg) = Keeps-pure _ IsInward-IsPreorder _

    IsSilent-after_verify :
        (l r : ℕ) (check : SeqCheck) (b : Bytes) (u : ℕ) (c : Bytes) (a' u' : ℕ) (ret : ℤ)
        → IsSilent (after_verify env l r check b u c a' u' ret)
    IsSilent-after_verify l r check b u c a' u' (pos code) =
        search (silent_do, IsSilent-decrypt, IsSilent-after_decrypt)
    IsSilent-after_verify l r check b u c a' u' (negsuc code) = Keeps-pure _ IsInward-IsPreorder _

    IsSilent-check_copy :
        (l r : ℕ) (p : PacketData) (a : ℕ) (check : SeqCheck) (c : Option PacketData)
        → IsSilent (check_copy env l r p a check c)
    IsSilent-check_copy l r p a check none = Keeps-pure _ IsInward-IsPreorder _
    IsSilent-check_copy l r p a check (some c) = search (silent_do, IsSilent-after_verify) depth 10

    IsSilent-check_packet :
        (l r : ℕ) (p : PacketData) (a : ℕ) (check : SeqCheck)
        → IsSilent (check_packet env l r p a check)
    IsSilent-check_packet l r p a bad = Keeps-pure _ IsInward-IsPreorder _
    IsSilent-check_packet l r p a advance =
        search (silent_do, IsSilent-copy_packet, IsSilent-update_proto, IsSilent-check_copy) depth
          10
    IsSilent-check_packet l r p a recheck =
        search (silent_do, IsSilent-copy_packet, IsSilent-check_copy) depth 10

    pub IsInward-process_arg_packet :
        (l r : ℕ) (p : PacketData) → IsSilent (process_arg_packet env l r p)
    unfolding process_arg_packet
    IsInward-process_arg_packet l r p = search (silent_do, IsSilent-check_packet) depth 10

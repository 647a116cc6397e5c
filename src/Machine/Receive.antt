-- ===== src/Machine/Receive.antt =====
-- protocol.c: taking a packet makes only steps of the gateway program.
use addressroutinggateway.Prelude.{ℕ, Bool, true, false, Option, none, some, ℤ, pos, negsuc, refl}
use addressroutinggateway.Memory.{Bytes}
use addressroutinggateway.Packet.{PacketData}
use addressroutinggateway.World.{Env, Gate, update_proto}
use addressroutinggateway.Protocol.Message.{ArgMsg}
use addressroutinggateway.Protocol.Receive.{
  SeqCheck, advance, recheck, bad, decrypt, recheck_iv, recheck_seq, after_decrypt, after_verify,
  check_copy, check_packet, process_arg_packet,
}
use addressroutinggateway.Machine.Calls.{Runs, call_rules, do_rules, Runs-pure}
use addressroutinggateway.Machine.Create.{Runs-update_proto}

module _ (T : Type 0) (env : Env) where
  Runs-decrypt :
      (local : Gate) (b : Bytes) (u : ℕ) (c : Bytes) (a' u' : ℕ)
      → Runs {T = T} (decrypt env local b u c a' u')
  unfolding decrypt
  Runs-decrypt local b u c a' u' = search call_rules depth 10

  Runs-note_seq : (r n : ℕ) → Runs {T = T} (update_proto r (λ s. record s { in_seq_num = n }))
  Runs-note_seq r n =
      Runs-update_proto T r (λ s. record s { in_seq_num = n }) (λ s. refl) (λ s. refl)

  Runs-recheck_iv : (r : ℕ) (msg : ArgMsg) (b : Bool) → Runs {T = T} (recheck_iv env r msg b)
  Runs-recheck_iv r msg true = Runs-pure _ _ _
  Runs-recheck_iv r msg false = search (do_rules, Runs-note_seq)

  Runs-recheck_seq :
      (r : ℕ) (check : SeqCheck) (msg : Option ArgMsg) → Runs {T = T} (recheck_seq env r check msg)
  Runs-recheck_seq r recheck none = Runs-pure _ _ _
  Runs-recheck_seq r recheck (some msg) = search (do_rules, Runs-recheck_iv)
  Runs-recheck_seq r advance msg = Runs-pure _ _ _
  Runs-recheck_seq r bad msg = Runs-pure _ _ _

  Runs-after_decrypt :
      (r : ℕ) (check : SeqCheck) (result : ℤ × Option ArgMsg)
      → Runs {T = T} (after_decrypt env r check result)
  Runs-after_decrypt r check (pos code, msg) = Runs-recheck_seq r check msg
  Runs-after_decrypt r check (negsuc code, msg) = Runs-pure _ _ _

  Runs-after_verify :
      (l r : ℕ) (check : SeqCheck) (b : Bytes) (u : ℕ) (c : Bytes) (a' u' : ℕ) (ret : ℤ)
      → Runs {T = T} (after_verify env l r check b u c a' u' ret)
  Runs-after_verify l r check b u c a' u' (pos code) =
      search (do_rules, Runs-decrypt, Runs-after_decrypt)
  Runs-after_verify l r check b u c a' u' (negsuc code) = Runs-pure _ _ _

  Runs-check_copy :
      (l r : ℕ) (p : PacketData) (a : ℕ) (check : SeqCheck) (c : Option PacketData)
      → Runs {T = T} (check_copy env l r p a check c)
  Runs-check_copy l r p a check none = Runs-pure _ _ _
  Runs-check_copy l r p a check (some c) = search (do_rules, Runs-after_verify) depth 10

  Runs-check_packet :
      (l r : ℕ) (p : PacketData) (a : ℕ) (check : SeqCheck)
      → Runs {T = T} (check_packet env l r p a check)
  Runs-check_packet l r p a bad = Runs-pure _ _ _
  Runs-check_packet l r p a advance = search (call_rules, Runs-note_seq, Runs-check_copy) depth 10
  Runs-check_packet l r p a recheck = search (call_rules, Runs-check_copy) depth 10

  pub Runs-process_arg_packet :
      (l r : ℕ) (p : PacketData) → Runs {T = T} (process_arg_packet env l r p)
  unfolding process_arg_packet
  Runs-process_arg_packet l r p = search (do_rules, Runs-check_packet) depth 10

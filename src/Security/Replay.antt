-- ===== src/Security/Replay.antt =====
-- protocol.c: the sequence numbers that `process_arg_packet` accepts.
use addressroutinggateway.Prelude.{
  subst, ap, ◌⊎◌, ◌⊎◌, ℕ, ◌≡◌, refl, ◌∙◌, Option, none, some, inl, inr, ℤ, pos, negsuc, arith,
}
use addressroutinggateway.Memory.{Bytes}
use addressroutinggateway.Settings.{arg_seq_bad}
use addressroutinggateway.Packet.{PacketData}
use addressroutinggateway.World.{
  gates-set_gate, World, update_proto, ◌>>=◌, done, Env, Gate, set_gate,
}
use addressroutinggateway.World.Keeps.{state_of, Keeps-done}
use addressroutinggateway.Packet.Buffers.{copy_packet}
use addressroutinggateway.Machine.Steps.{IsQuiet}
use addressroutinggateway.Machine.Quiet.{Quietly, quiet_rules, quiet_do_rules, Quietly-pure}
use addressroutinggateway.Protocol.Message.{
  ArgMsg, hdr_type, hdr_seq, arg_conn_data_req_msg, arg_conn_data_resp_msg,
}
use addressroutinggateway.Protocol.Receive.{
  decrypt, after_decrypt, after_verify, check_copy, advance, bad, check_seq, check_packet,
  process_arg_packet,
}

-- A message that brings connection data may have an old number, if it has a new IV.
abbrev pub BringsKeys : ℕ → Type 0
BringsKeys type = (type ≡ arg_conn_data_req_msg) ⊎ (type ≡ arg_conn_data_resp_msg)

check_seq_again : (type seq : ℕ) → ¬ BringsKeys type → check_seq type seq seq ≡ bad
unfolding check_seq
check_seq_again type seq plain = ground arith

check_seq-plain :
    (type seq last : ℕ)
    → ¬ BringsKeys type
    → (check_seq type seq last ≡ advance) ⊎ (check_seq type seq last ≡ bad)
unfolding check_seq
check_seq-plain type seq last plain = ground arith

module _ (T : Type 0) (env : Env) where
  pub Quietly-decrypt :
      (local : Gate) (b : Bytes) (u : ℕ) (c : Bytes) (a' u' : ℕ)
      → Quietly {T = T} (decrypt env local b u c a' u')
  unfolding decrypt
  Quietly-decrypt local b u c a' u' = search quiet_rules depth 10

  Quietly-after_decrypt :
      (r : ℕ) (result : ℤ × Option ArgMsg) → Quietly {T = T} (after_decrypt env r advance result)
  Quietly-after_decrypt r (pos code, msg) = Quietly-pure _ _ _
  Quietly-after_decrypt r (negsuc code, msg) = Quietly-pure _ _ _

  Quietly-after_verify :
      (l r : ℕ) (b : Bytes) (u : ℕ) (c : Bytes) (a' u' : ℕ) (ret : ℤ)
      → Quietly {T = T} (after_verify env l r advance b u c a' u' ret)
  Quietly-after_verify l r b u c a' u' (pos code) =
      search (quiet_do_rules, Quietly-decrypt, Quietly-after_decrypt)
  Quietly-after_verify l r b u c a' u' (negsuc code) = Quietly-pure _ _ _

  Quietly-check_copy :
      (l r : ℕ) (p : PacketData) (a : ℕ) (c : Option PacketData)
      → Quietly {T = T} (check_copy env l r p a advance c)
  Quietly-check_copy l r p a none = Quietly-pure _ _ _
  Quietly-check_copy l r p a (some c) = search (quiet_do_rules, Quietly-after_verify) depth 10

  Quietly-rest :
      (l r : ℕ) (p : PacketData) (a : ℕ)
      → Quietly {T = T} (copy_packet env p >>= check_copy env l r p a advance)
  Quietly-rest l r p a = search (quiet_rules, Quietly-check_copy)

  -- The number of the packet is noted, whatever comes of it.
  check_packet-seq :
      (l r : ℕ) (p : PacketData) (a : ℕ) (w w1 : World T) (x : ℤ × Option ArgMsg)
      → check_packet env l r p a advance w ≡ done x w1
      → (w1.gates r).proto.in_seq_num ≡ hdr_seq p.data_bytes a
  unfolding update_proto set_gate
  check_packet-seq l r p a w w1 x ran =
      let q =
        Keeps-done IsQuiet (copy_packet env p >>= check_copy env l r p a advance)
          (Quietly-rest l r p a) _ w1 x ran in
      ap (λ G. (G r).proto.in_seq_num) q.same_gates
      ∙ ap (λ g. g.proto.in_seq_num) (gates-set_gate r _ w)

  process_arg_packet-refused :
      (l r : ℕ) (p : PacketData) (a : ℕ) (w : World T)
      → p.arg ≡ some a
      → check_seq (hdr_type p.data_bytes a) (hdr_seq p.data_bytes a) (w.gates r).proto.in_seq_num
        ≡ bad
      → process_arg_packet env l r p w ≡ done (arg_seq_bad, none) w
  unfolding process_arg_packet
  process_arg_packet-refused l r p a w here old = rw (here, old, check_packet) refl

  replay_after :
      (l r : ℕ) (p : PacketData) (a : ℕ) (w w1 : World T) (x : ℤ × Option ArgMsg)
      → p.arg ≡ some a
      → ¬ BringsKeys (hdr_type p.data_bytes a)
      → check_packet env l r p a
          (check_seq
            (hdr_type p.data_bytes a)
            (hdr_seq p.data_bytes a)
            (w.gates r).proto.in_seq_num)
          w
        ≡ done x w1
      → process_arg_packet env l r p w1 ≡ done (arg_seq_bad, none) w1
  replay_after l r p a w w1 x here plain ran =
      elim (check_seq-plain (hdr_type p.data_bytes a) (hdr_seq p.data_bytes a)
        (w.gates r).proto.in_seq_num plain) [
          | inl new ↦
              let noted = check_packet-seq l r p a w w1 x (rw new at ran) in
              process_arg_packet-refused l r p a w1 here (
                ap (check_seq (hdr_type p.data_bytes a) (hdr_seq p.data_bytes a)) noted
                ∙ check_seq_again (hdr_type p.data_bytes a) (hdr_seq p.data_bytes a) plain)
          | inr old ↦
              let same : done (arg_seq_bad, none) w ≡ done x w1 = rw (old, check_packet) at ran in
              subst (λ v. process_arg_packet env l r p v ≡ done (arg_seq_bad, none) v)
                (ap (state_of w) same) (process_arg_packet-refused l r p a w here old)
        ]

  -- No replay: once a packet has been taken, whether it was accepted or not, the same packet is refused
  -- with ARG_SEQ_BAD when it comes next, and nothing changes, if it does not bring connection data.
  pub process_arg_packet-replay :
      (l r : ℕ) (p : PacketData) (a : ℕ) (w w1 : World T) (x : ℤ × Option ArgMsg)
      → p.arg ≡ some a
      → ¬ BringsKeys (hdr_type p.data_bytes a)
      → process_arg_packet env l r p w ≡ done x w1
      → process_arg_packet env l r p w1 ≡ done (arg_seq_bad, none) w1
  unfolding process_arg_packet copy_packet
  process_arg_packet-replay l r p a w w1 x here plain ran =
      replay_after l r p a w w1 x here plain (rw here at ran)

-- ===== src/Protocol/Taken.antt =====
-- protocol.c: `process_arg_wrapped` on a frame with a sealed packet.
use addressroutinggateway.Prelude.{
  ℕ, ◌+◌, ◌≤◌, ◌<◌, ◌≡◌, sym, ap, ◌∙◌, subst, List, ◌∷◌, Option, none, some, ℤ, pos, Bool, true,
  false, ◌==◌, arith,
}
use addressroutinggateway.Memory.{Bytes, slice, u16}
use addressroutinggateway.Packet.{PacketData, parse_packet, eth_p_ip, ip_tot_len}
use addressroutinggateway.Packet.Buffers.{raw_packet}
use addressroutinggateway.World.{
  World, Outcome, done, null_dereference, deadlock, and_then, Env, lock, set_flag,
}
use addressroutinggateway.Protocol.Message.{ArgMsg}
use addressroutinggateway.Protocol.Stream.{IsStreamCipher}
use addressroutinggateway.Protocol.Sealed.{IsSealed}
use addressroutinggateway.Protocol.Wrapped.{unwrap_message, unwrap_connected, process_arg_wrapped}
use addressroutinggateway.Protocol.Receive.{process_arg_packet}
use addressroutinggateway.Protocol.Arrives.{Shares, Brings, process_arg_packet-Brings}
use addressroutinggateway.Protocol.Forwards.{Forwards, unwrap_message-Forwards}

module _ (T : Type 0) (env : Env) (memory : ℕ → Bytes)
    (has_memory : (n : ℕ) → env.malloc n ≡ some (memory n)) (stream : List ℕ → List ℕ → ℕ → ℕ)
    (c : IsStreamCipher env stream) (sends : (n : ℕ) → env.sendto n ≡ 0) (msg : ArgMsg)
    (some_text : 4 ≤ msg.len) (short : msg.len + 156 < 65536)
    (tot_len : ip_tot_len msg.msg_bytes 0 ≡ msg.len) where
  module _ (mac_key key iv : List ℕ) (seq : ℕ) (b : Bytes)
      (sealed : IsSealed env stream mac_key key iv msg seq b 14) (ether : u16 b 12 ≡ eth_p_ip)
      (n l r : ℕ) (other : (l == r) ≡ false) where
    abbrev pub Received : World T → Outcome T (ℤ × Option ArgMsg) → Type 0
    Received =
        Brings T env memory has_memory stream c msg (omega arith) short mac_key key iv seq b sealed

    abbrev pub Passed : World T → Outcome T ℤ → Type 0
    Passed = Forwards T env memory has_memory sends r msg some_text tot_len

    Passed-from : (w v : World T) (o : Outcome T ℤ) → v.sent ≡ w.sent → Passed v o → Passed w o
    Passed-from w v (done ret u) same (ok, sent, free) =
        (ok, sent ∙ ap (λ s. slice msg.msg_bytes 0 msg.len ∷ s) same, free)
    Passed-from w v null_dereference same h = h
    Passed-from w v deadlock same h = h

    unwrapped :
        (w : World T) (o : Outcome T (ℤ × Option ArgMsg))
        → Received w o
        → Passed w (and_then o (unwrap_message env r))
    unwrapped w (done (ret, none) v) h = elim h [ ]
    unwrapped w null_dereference h = h
    unwrapped w deadlock h = h
    unwrapped w (done (ret, some out) v) (ok, text, same) =
        subst (λ x. Passed w (unwrap_message env r (x, some out) v)) (sym ok)
          (Passed-from w v (unwrap_message env r (pos 0, some out) v) same (
            unwrap_message-Forwards T env memory has_memory sends r msg some_text tot_len out text
              v))

    abbrev pub arrived : PacketData
    arrived = (parse_packet (raw_packet n 14 b)).0

    connected-Passed :
        (w : World T) (up : Bool)
        → up ≡ true
        → Received w (process_arg_packet env l r arrived w)
        → Passed w (unwrap_connected env l r arrived up w)
    connected-Passed w true e h = unwrapped w (process_arg_packet env l r arrived w) h
    connected-Passed w false e h = absurd cc

    abbrev pub Shared : World T → Type 0
    Shared =
        Shares T env memory has_memory stream c msg (omega arith) short mac_key key iv seq b sealed
          l r

    pub process_arg_wrapped-Passed :
        (w : World T)
        → Shared w
        → (w.gates r).proto.in_seq_num < seq
        → w.locked r ≡ false
        → Passed w (process_arg_wrapped env l r arrived w)
    unfolding process_arg_wrapped lock
    process_arg_wrapped-Passed w shares newer free =
        let held = record w { locked = set_flag r true w.locked } in
        rw free (
          connected-Passed held (w.gates r).connected shares.1 (
            process_arg_packet-Brings T env memory has_memory stream c msg (omega arith) short
              mac_key key iv seq b sealed ether n l r other held shares newer))

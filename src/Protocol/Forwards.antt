-- ===== src/Protocol/Forwards.antt =====
-- protocol.c: `process_arg_wrapped` passes on the message of a sealed packet.
use addressroutinggateway.Prelude.{
  ==_iff, ℕ, suc, ◌+◌, ◌≤◌, ◌<◌, ◌≡◌, refl, sym, ap, ◌∙◌, subst, ◌∷◌, some, ℤ, pos, false, arith,
}
use addressroutinggateway.Memory.{
  Bytes, slice, write, length-slice, get_or-slice, write_at, slice_ext, u16,
}
use addressroutinggateway.Packet.{PacketData, parse_packet, ip_tot_len}
use addressroutinggateway.Packet.Allocate.{create_packet-done}
use addressroutinggateway.Packet.Buffers.{raw_packet, clear, send_packet, transmit}
use addressroutinggateway.Packet.Reparse.{
  parse_packet-SameFrame, parse_packet-raw_packet, parse_packet-ipv4,
}
use addressroutinggateway.World.{
  pure, World, Outcome, done, null_dereference, deadlock, and_then, deref, ◌>>◌, Env, unlock,
}
use addressroutinggateway.Protocol.Message.{ArgMsg}
use addressroutinggateway.Protocol.Unwraps.{SameText}
use addressroutinggateway.Protocol.Wrapped.{fill_packet, forward, unwrap_message}

module _ (T : Type 0) (env : Env) (memory : ℕ → Bytes)
    (has_memory : (n : ℕ) → env.malloc n ≡ some (memory n)) (sends : (n : ℕ) → env.sendto n ≡ 0)
    (r : ℕ) (msg : ArgMsg) (some_text : 4 ≤ msg.len)
    (tot_len : ip_tot_len msg.msg_bytes 0 ≡ msg.len) where
  -- The message has gone out as a datagram, the last one to do so, and the mutex is free.
  abbrev pub Forwards : World T → Outcome T ℤ → Type 0
  Forwards w (done ret v) =
      (ret ≡ pos 0) × (v.sent ≡ slice msg.msg_bytes 0 msg.len ∷ w.sent) × (v.locked r ≡ false)
  Forwards w null_dereference = ⊥
  Forwards w deadlock = ⊥

  module _ (out : ArgMsg) (text : SameText msg out) where
    -- The bytes of the packet for the message.
    abbrev filled : Bytes → Bytes
    filled d = write d 0 (slice out.msg_bytes 0 out.len)

    filled_at : (d : Bytes) (j : ℕ) → j < msg.len → filled d j ≡ msg.msg_bytes j
    filled_at d j h =
        ap (filled d) {x = j} {y = 0 + j} (omega arith)
        ∙ write_at d 0 (slice out.msg_bytes 0 out.len) j
            (omega (arith, text.0, length-slice out.msg_bytes 0 out.len))
        ∙ get_or-slice out.msg_bytes 0 out.len j (omega (arith, text.0))
        ∙ ap out.msg_bytes (omega arith)
        ∙ text.1 j h

    filled_len : (d : Bytes) → ip_tot_len (filled d) 0 ≡ msg.len
    unfolding u16
    filled_len d = omega (arith, filled_at d 2 (omega arith), filled_at d 3 (omega arith), tot_len)

    filled_text :
        (d : Bytes) → slice (filled d) 0 (ip_tot_len (filled d) 0) ≡ slice msg.msg_bytes 0 msg.len
    filled_text d =
        ap (slice (filled d) 0) (filled_len d)
        ∙ slice_ext (filled d) msg.msg_bytes 0 msg.len (λ j h k. filled_at d j (omega arith))

    fill_packet-parts :
        (p : PacketData)
        → p.link_layer_len ≡ 0
        → ((fill_packet out p).ipv4 ≡ some 0)
          × ((fill_packet out p).link_layer_len ≡ 0)
          × ((fill_packet out p).data_bytes ≡ filled p.data_bytes)
    unfolding fill_packet
    fill_packet-parts p link =
        let q = record p { data_bytes = filled p.data_bytes } in
        let same = parse_packet-SameFrame q in
        (
          ap (λ (x : PacketData × ℤ). x.0.ipv4) (parse_packet-raw_packet q)
              ∙ ap (λ (m : ℕ). (parse_packet (raw_packet q.len m q.data_bytes)).0.ipv4) link
              ∙ parse_packet-ipv4 q.len q.data_bytes,
          same.0 ∙ link,
          same.1,
        )

    send_packet-done :
        (q : PacketData) (d : Bytes) (w : World T)
        → q.ipv4 ≡ some 0
        → q.link_layer_len ≡ 0
        → q.data_bytes ≡ filled d
        → send_packet env q w
          ≡ done
              (pos 0)
              (record w { sends = suc w.sends; sent = slice msg.msg_bytes 0 msg.len ∷ w.sent })
    unfolding send_packet transmit
    send_packet-done q d w ip link bytes =
        ap
          (λ x.
            and_then (deref x w)
              (λ o. transmit env (slice q.data_bytes q.link_layer_len (ip_tot_len q.data_bytes o))))
          ip
        ∙ ap (λ (m : ℕ). transmit env (slice q.data_bytes m (ip_tot_len q.data_bytes 0)) w) link
        ∙ ap (λ (x : Bytes). transmit env (slice x 0 (ip_tot_len x 0)) w) bytes
        ∙ ap (λ xs. transmit env xs w) (filled_text d)
        ∙ rw (sends w.sends) refl

    forward-Forwards :
        (p : PacketData) (w : World T)
        → p.link_layer_len ≡ 0
        → Forwards w (forward env r out (some p) w)
    unfolding unlock
    forward-Forwards p w link =
        let (ip, link', bytes) = fill_packet-parts p link in
        subst (λ o. Forwards w (and_then o (λ ret. unlock r >> pure ret)))
          (sym (send_packet-done (fill_packet out p) p.data_bytes w ip link' bytes))
          (refl, refl, rw ((==_iff r r).1 refl) refl)

    pub unwrap_message-Forwards :
        (w : World T) → Forwards w (unwrap_message env r (pos 0, some out) w)
    unwrap_message-Forwards w =
        let block = clear out.len (memory (suc w.allocs)) in
        subst (λ o. Forwards w (and_then o (forward env r out)))
          (sym (create_packet-done T env memory has_memory out.len w (omega (arith, text.0))))
          (forward-Forwards (parse_packet (raw_packet out.len 0 block)).0
            (record w { allocs = suc (suc w.allocs) })
            (parse_packet-SameFrame (raw_packet out.len 0 block)).0)

-- ===== src/Protocol/Arrives.antt =====
-- protocol.c: `process_arg_packet` and `process_arg_wrapped` as they act on a frame with a sealed
-- packet, where there is memory.
use addressroutinggateway.Prelude.{
  ==_iff, ℕ, suc, ◌+◌, ◌<◌, ◌≡◌, refl, sym, ap, ◌∙◌, subst, List, Option, none, some, ℤ, pos, Bool,
  true, false, ltb, ◌==◌, if◌then◌else◌, arith,
}
use addressroutinggateway.Memory.{Bytes, copy, u16}
use addressroutinggateway.Packet.{PacketData, parse_packet, eth_p_ip}
use addressroutinggateway.Packet.Buffers.{clear, raw_packet, copy_packet}
use addressroutinggateway.Packet.Reparse.{parse_packet-SameFrame, parse_packet-frame}
use addressroutinggateway.World.Keeps.{deref-keeps}
use addressroutinggateway.World.{
  World, Outcome, done, null_dereference, deadlock, and_then, Run, Env, Gate, malloc, set_gate,
  update_proto,
}
use addressroutinggateway.Protocol.Message.{ArgMsg, hdr_type, hdr_len, hdr_seq, create_arg_msg}
use addressroutinggateway.Protocol.Create.{is_symmetric}
use addressroutinggateway.Protocol.Stream.{IsStreamCipher}
use addressroutinggateway.Protocol.Receive.{
  decrypt_into, decrypt_symmetric, decrypt_private, clear_sig, advance, decrypt, after_decrypt,
  after_verify, check_copy, check_packet, process_arg_packet, verify, check_seq,
}
use addressroutinggateway.Protocol.Sealed.{IsSealed}
use addressroutinggateway.Protocol.Unwraps.{
  SameText, cleared_type, cleared_len, sealed-verify, sealed-decrypt_symmetric,
}

module _ (T : Type 0) (env : Env) (memory : ℕ → Bytes)
    (has_memory : (n : ℕ) → env.malloc n ≡ some (memory n)) where
  copy_packet-done :
      (p : PacketData) (w : World T)
      → copy_packet env p w
        ≡ done
            (some
              (parse_packet (
                raw_packet p.len p.link_layer_len
                  (copy p.len p.data_bytes (memory (suc w.allocs))))).0)
            (record w { allocs = suc (suc w.allocs) })
  unfolding copy_packet malloc
  copy_packet-done p w = rw (has_memory w.allocs, has_memory (suc w.allocs)) refl

  module _ (stream : List ℕ → List ℕ → ℕ → ℕ) (c : IsStreamCipher env stream) (msg : ArgMsg)
      (some_text : 0 < msg.len) (short : msg.len + 156 < 65536) (mac_key key iv : List ℕ) (seq : ℕ)
      (b : Bytes) (sealed : IsSealed env stream mac_key key iv msg seq b 14) where
    -- The message has come out, and nothing has been sent.
    abbrev pub Brings : World T → Outcome T (ℤ × Option ArgMsg) → Type 0
    Brings w (done (ret, some out) v) = (ret ≡ pos 0) × SameText msg out × (v.sent ≡ w.sent)
    Brings w (done (ret, none) v) = ⊥
    Brings w null_dereference = ⊥
    Brings w deadlock = ⊥

    -- What the gateways at l and r share, and that the sender at r is connected.
    abbrev pub Shares : ℕ → ℕ → World T → Type 0
    Shares l r w =
        ((w.gates r).sym_key ≡ mac_key)
        × ((w.gates r).connected ≡ true)
        × ((w.gates l).cipher_key ≡ key)
        × ((w.gates l).iv ≡ iv)

    module _ (d : Bytes) (same : (j : ℕ) → j < 170 + msg.len → d j ≡ b j) (l r : ℕ) where
      abbrev without_sig : Bytes
      without_sig = clear_sig d 34

      abbrev buffer : World T → ArgMsg
      buffer w = record {
        len = hdr_len without_sig 34;
        msg_bytes = clear (hdr_len without_sig 34) (memory (suc w.allocs));
      }

      more_data : ltb 136 (hdr_len without_sig 34) ≡ true
      more_data =
          ground (arith, cleared_len env stream c mac_key key iv msg seq short b d sealed same)

      is_wrapped : is_symmetric (hdr_type without_sig 34) ≡ true
      is_wrapped =
          ground (arith, cleared_type env stream c mac_key key iv msg seq short b d sealed same)

      create_arg_msg-done :
          (w : World T)
          → create_arg_msg env (hdr_len without_sig 34) w
            ≡ done (some (buffer w)) (record w { allocs = suc (suc w.allocs) })
      unfolding create_arg_msg malloc
      create_arg_msg-done w = rw (has_memory w.allocs, has_memory (suc w.allocs)) refl

      decrypt_into-wrapped :
          (local : Gate) (out : ArgMsg)
          → decrypt_into env local b 170 without_sig 34 170 (some out)
            ≡ (pos 0, some (decrypt_symmetric env local b 170 without_sig 34 out))
      unfolding decrypt_into
      decrypt_into-wrapped local out =
          ap
            (λ (t : Bool).
              if t
              then (pos 0, some (decrypt_symmetric env local b 170 without_sig 34 out))
              else decrypt_private env local without_sig 170 out)
            is_wrapped

      decrypt-done :
          (local : Gate) (w : World T)
          → decrypt env local b 170 without_sig 34 170 w
            ≡ done
                (pos 0, some (decrypt_symmetric env local b 170 without_sig 34 (buffer w)))
                (record w { allocs = suc (suc w.allocs) })
      unfolding decrypt
      decrypt-done local w =
          ap (λ (t : Bool). (if t then with_buffer else (λ (u : World T). done (pos 0, none) u)) w)
            more_data
          ∙ ap
              (λ o.
                and_then o (λ out u. done (decrypt_into env local b 170 without_sig 34 170 out) u))
              (create_arg_msg-done w)
          ∙ ap (λ x. done x (record w { allocs = suc (suc w.allocs) }))
              (decrypt_into-wrapped local (buffer w))
        where
          with_buffer : Run T (ℤ × Option ArgMsg)
          with_buffer u =
              and_then (create_arg_msg env (hdr_len without_sig 34) u)
                (λ out v. done (decrypt_into env local b 170 without_sig 34 170 out) v)

      decrypt-Brings :
          (local : Gate) (w : World T)
          → local.cipher_key ≡ key
          → local.iv ≡ iv
          → Brings w (
              and_then (decrypt env local b 170 without_sig 34 170 w) (after_decrypt env r advance))
      decrypt-Brings local w same_key same_iv =
          subst (λ o. Brings w (and_then o (after_decrypt env r advance)))
            (sym (decrypt-done local w))
            (
              refl,
              sealed-decrypt_symmetric env stream c mac_key key iv msg seq short b d sealed same
                  local (buffer w) same_key same_iv,
              refl,
            )

      after_verify-Brings :
          (w : World T)
          → (w.gates l).cipher_key ≡ key
          → (w.gates l).iv ≡ iv
          → Brings w (after_verify env l r advance b 170 without_sig 34 170 (pos 0) w)
      after_verify-Brings w same_key same_iv = decrypt-Brings (w.gates l) w same_key same_iv

      verified-Brings :
          (w : World T)
          → Shares l r w
          → Brings w (
              after_verify env l r advance b 170 without_sig 34 170
                (verify env (w.gates r) b 34 without_sig 34)
                w)
      verified-Brings w (mac_is, up, key_is, iv_is) =
          subst (λ ret. Brings w (after_verify env l r advance b 170 without_sig 34 170 ret w))
            (sym (
              sealed-verify env stream c mac_key key iv msg seq short b d sealed same (w.gates r)
                mac_is up))
            (after_verify-Brings w key_is iv_is)

      abbrev AtEnd : World T → Bytes → Bytes → Type 0
      AtEnd w x y = Brings w (
          after_verify env l r advance x 170 (clear_sig y 34) 34 170
            (verify env (w.gates r) x 34 (clear_sig y 34) 34) w)

      check_copy-Brings :
          (p q : PacketData) (w : World T)
          → p.unknown_data ≡ some 170
          → p.data_bytes ≡ b
          → q.arg ≡ some 34
          → q.unknown_data ≡ some 170
          → q.data_bytes ≡ d
          → Shares l r w
          → Brings w (check_copy env l r p 34 advance (some q) w)
      check_copy-Brings p q w text bytes arg text' bytes' shares =
          deref-keeps (Brings w) q.arg 34 w _ arg (
            deref-keeps (Brings w) p.unknown_data 170 w _ text (
              deref-keeps (Brings w) q.unknown_data 170 w _ text' (
                subst (λ x. AtEnd w x q.data_bytes) (sym bytes)
                  (subst (λ y. AtEnd w b y) (sym bytes') (verified-Brings w shares)))))

    -- The frame as it was captured, with n bytes.
    module _ (ether : u16 b 12 ≡ eth_p_ip) (n l r : ℕ) (other : (l == r) ≡ false) where
      abbrev pub frame : PacketData
      frame = (parse_packet (raw_packet n 14 b)).0

      frame_bytes : frame.data_bytes ≡ b
      frame_bytes = (parse_packet-SameFrame (raw_packet n 14 b)).1

      frame_link : frame.link_layer_len ≡ 14
      frame_link = (parse_packet-SameFrame (raw_packet n 14 b)).0

      frame_parts :
          (frame.arg ≡ some 34) × (frame.unknown_data ≡ some 170) × (frame.len ≡ 170 + msg.len)
      frame_parts =
          let (arg, text, len) = parse_packet-frame n b ether sealed.version_at sealed.proto_at in
          (arg, text, omega (arith, len, sealed.total_at))

      -- The bytes of the copy.
      abbrev copied : World T → Bytes
      copied w = copy frame.len frame.data_bytes (memory (suc w.allocs))

      copied_same : (w : World T) (j : ℕ) → j < 170 + msg.len → copied w j ≡ b j
      unfolding copy
      copied_same w j h = ground (arith, frame_parts.2, ap (λ (x : Bytes). x j) frame_bytes)

      copy_parts :
          (w : World T) (m : ℕ)
          → m ≡ 14
          → ((parse_packet (raw_packet frame.len m (copied w))).0.arg ≡ some 34)
            × ((parse_packet (raw_packet frame.len m (copied w))).0.unknown_data ≡ some 170)
      unfolding u16
      copy_parts w m e = rw e (
          let (arg, text, len) =
            parse_packet-frame frame.len (copied w)
              (omega (arith, copied_same w 12 (omega arith), copied_same w 13 (omega arith), ether))
              (copied_same w 14 (omega arith) ∙ sealed.version_at)
              (copied_same w 23 (omega arith) ∙ sealed.proto_at) in
          (arg, text))

      checked-Brings :
          (w : World T)
          → Shares l r w
          → Brings w (and_then (copy_packet env frame w) (check_copy env l r frame 34 advance))
      checked-Brings w shares =
          let parts = copy_parts w frame.link_layer_len frame_link in
          subst (λ o. Brings w (and_then o (check_copy env l r frame 34 advance)))
            (sym (copy_packet-done frame w))
            (check_copy-Brings (copied w) (copied_same w) l r frame
              (parse_packet (raw_packet frame.len frame.link_layer_len (copied w))).0
              (record w { allocs = suc (suc w.allocs) }) frame_parts.1 frame_bytes parts.0 parts.1
              (parse_packet-SameFrame (raw_packet frame.len frame.link_layer_len (copied w))).1
              shares)

      noted : World T → World T
      noted w =
          set_gate r
            (record (w.gates r) {
              proto = record (w.gates r).proto { in_seq_num = hdr_seq frame.data_bytes 34 };
            })
            w

      noted-Shares : (w : World T) → Shares l r w → Shares l r (noted w)
      unfolding noted set_gate
      noted-Shares w (mac_is, up, key_is, iv_is) =
          let at_r : (r == r) ≡ true = (==_iff r r).1 refl in
          (rw at_r mac_is, rw at_r up, rw other key_is, rw other iv_is)

      advances :
          (last : ℕ)
          → last < seq
          → check_seq (hdr_type frame.data_bytes 34) (hdr_seq frame.data_bytes 34) last ≡ advance
      unfolding check_seq
      advances last h = ground (arith, ap (λ (x : Bytes). hdr_seq x 34) frame_bytes, sealed.seq_at)

      pub process_arg_packet-Brings :
          (w : World T)
          → Shares l r w
          → (w.gates r).proto.in_seq_num < seq
          → Brings w (process_arg_packet env l r frame w)
      unfolding process_arg_packet update_proto noted set_gate
      process_arg_packet-Brings w shares newer =
          deref-keeps (Brings w) frame.arg 34 w _ frame_parts.0 (
            subst (λ s. Brings w (check_packet env l r frame 34 s w))
              (sym (advances (w.gates r).proto.in_seq_num newer))
              (checked-Brings (noted w) (noted-Shares w shares)))

-- ===== src/Protocol/Departs.antt =====
-- protocol.c: `send_arg_wrapped` puts a sealed datagram on the wire, where there is memory.
use addressroutinggateway.Prelude.{
  ==_iff, ℕ, suc, ◌+◌, ◌≤◌, ◌<◌, ◌≡◌, refl, sym, ap, ◌∙◌, subst, List, [], ◌∷◌, Option, none, some,
  ℤ, pos, Bool, true, false, length, get_or, arith,
}
use addressroutinggateway.Memory.{Bytes, slice, length-slice, get_or-slice}
use addressroutinggateway.Packet.{PacketData, ip_tot_len}
use addressroutinggateway.Packet.Buffers.{send_packet, transmit}
use addressroutinggateway.World.{
  pure, World, Outcome, done, null_dereference, deadlock, and_then, deref, ◌>>◌, Env, lock, unlock,
  set_flag,
}
use addressroutinggateway.Protocol.Stream.{IsStreamCipher}
use addressroutinggateway.Protocol.Sealed.{IsSealed, IsSealed-same}
use addressroutinggateway.Protocol.Wrapped.{
  inner_message, wrap_connected, send_wrapped, send_arg_wrapped,
}
use addressroutinggateway.Protocol.Create.{create_arg_packet}
use addressroutinggateway.Protocol.Wraps.{IsWhole, Makes, create_arg_packet-IsWhole}

-- The datagram that was sent last.
abbrev pub last_sent : List (List ℕ) → List ℕ
last_sent [] = []
last_sent (x ∷ rest) = x

abbrev pub bytes_from : List ℕ → Bytes
bytes_from xs j = get_or xs j 0

module _ (T : Type 0) (env : Env) (memory : ℕ → Bytes)
    (has_memory : (n : ℕ) → env.malloc n ≡ some (memory n)) (stream : List ℕ → List ℕ → ℕ → ℕ)
    (c : IsStreamCipher env stream) (sends : (n : ℕ) → env.sendto n ≡ 0)
    (mac_short : (key xs : List ℕ) → length (env.md_hmac key xs) ≤ 128) (l r : ℕ) (p : PacketData)
    (w : World T) (four : length (w.gates l).base_ip ≡ 4) (four' : length (w.gates r).base_ip ≡ 4)
    (up : (w.gates r).connected ≡ true) (free : w.locked r ≡ false)
    (small : (w.gates r).proto.out_seq_num < 4294967296)
    (fits : (inner_message p).len + (w.gates l).rsa.len + 156 < 65536) where
  abbrev pub IsOnWire : List ℕ → Type 0
  IsOnWire wire =
      (length wire ≡ 156 + (inner_message p).len)
      × IsSealed env stream (w.gates l).sym_key (w.gates r).cipher_key (w.gates r).iv
          (inner_message p) (w.gates r).proto.out_seq_num (bytes_from wire) 0

  -- The sealed datagram has gone out, and the mutex is free.
  abbrev pub Puts : Outcome T ℤ → Type 0
  Puts (done ret v) = (ret ≡ pos 0) × (v.locked r ≡ false) × IsOnWire (last_sent v.sent)
  Puts null_dereference = ⊥
  Puts deadlock = ⊥

  abbrev WholeMsg : PacketData → Type 0
  WholeMsg =
      IsWhole env stream (w.gates l) (w.gates r) (inner_message p) (w.gates r).proto.out_seq_num

  on_wire :
      (q : PacketData) → WholeMsg q → IsOnWire (slice q.data_bytes 0 (ip_tot_len q.data_bytes 0))
  on_wire q (ip, link, sealed) = (
    length-slice q.data_bytes 0 (ip_tot_len q.data_bytes 0) ∙ sealed.total_at,
    IsSealed-same env stream (w.gates l).sym_key (w.gates r).cipher_key (w.gates r).iv
        (inner_message p) (w.gates r).proto.out_seq_num q.data_bytes
        (bytes_from (slice q.data_bytes 0 (ip_tot_len q.data_bytes 0))) 0 0
        (λ j h.
          get_or-slice q.data_bytes 0 (ip_tot_len q.data_bytes 0) (0 + j)
            (omega (arith, sealed.total_at))
          ∙ ap q.data_bytes (omega arith))
        sealed,
  )

  send_packet-whole :
      (q : PacketData) (v : World T)
      → WholeMsg q
      → send_packet env q v
        ≡ done (pos 0) (record v {
          sends = suc v.sends;
          sent = slice q.data_bytes 0 (ip_tot_len q.data_bytes 0) ∷ v.sent;
        })
  unfolding send_packet transmit
  send_packet-whole q v (ip, link, sealed) =
      ap
        (λ x.
          and_then (deref x v)
            (λ o. transmit env (slice q.data_bytes q.link_layer_len (ip_tot_len q.data_bytes o))))
        ip
      ∙ ap (λ (m : ℕ). transmit env (slice q.data_bytes m (ip_tot_len q.data_bytes 0)) v) link
      ∙ rw (sends v.sends) refl

  sent-Puts :
      (q : PacketData) (v : World T) → WholeMsg q → Puts (send_wrapped env r (pos 0, some q) v)
  unfolding unlock
  sent-Puts q v whole =
      subst (λ o. Puts (and_then o (λ sent. unlock r >> pure sent)))
        (sym (send_packet-whole q v whole)) (refl, rw ((==_iff r r).1 refl) refl, on_wire q whole)

  created-Puts :
      (s : List (List ℕ)) (o : Outcome T (ℤ × Option PacketData))
      → Makes WholeMsg s o
      → Puts (and_then o (send_wrapped env r))
  created-Puts s (done (ret, none) v) h = elim h [ ]
  created-Puts s null_dereference h = h
  created-Puts s deadlock h = h
  created-Puts s (done (ret, some q) v) (ok, whole, same) =
      subst (λ x. Puts (send_wrapped env r (x, some q) v)) (sym ok) (sent-Puts q v whole)

  connected-Puts :
      (v : World T) (b : Bool)
      → b ≡ true
      → Makes WholeMsg v.sent (create_arg_packet env l r 0 (some (inner_message p)) v)
      → Puts (wrap_connected env l r p b v)
  connected-Puts v true e h =
      created-Puts v.sent (create_arg_packet env l r 0 (some (inner_message p)) v) h
  connected-Puts v false e h = absurd cc

  pub send_arg_wrapped-Puts : Puts (send_arg_wrapped env l r p w)
  unfolding send_arg_wrapped lock
  send_arg_wrapped-Puts =
      let held = record w { locked = set_flag r true w.locked } in
      rw free (
        connected-Puts held (w.gates r).connected up (
          create_arg_packet-IsWhole T env stream c memory has_memory mac_short (inner_message p)
            (omega arith) l r held four four' up small fits))

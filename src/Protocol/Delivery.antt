-- ===== src/Protocol/Delivery.antt =====
-- protocol.c: the way of a datagram through the tunnel, from `send_arg_wrapped` to `process_arg_wrapped`.
use addressroutinggateway.Prelude.{
  ℕ, zero, suc, ◌+◌, ◌≤◌, ◌<◌, ◌≡◌, refl, ap, ◌∙◌, List, [], ◌∷◌, ◌++◌, some, ℤ, pos, true, false,
  length, get_or, ◌==◌, arith,
}
use addressroutinggateway.Memory.{Bytes, u16}
use addressroutinggateway.Packet.{PacketData, parse_packet, eth_p_ip, ip_tot_len}
use addressroutinggateway.Packet.Buffers.{raw_packet}
use addressroutinggateway.World.{World, Outcome, done, null_dereference, deadlock, Env}
use addressroutinggateway.Protocol.Message.{ArgMsg}
use addressroutinggateway.Protocol.Stream.{IsStreamCipher}
use addressroutinggateway.Protocol.Sealed.{padded, IsSealed, IsSealed-same}
use addressroutinggateway.Protocol.Wrapped.{inner_message, process_arg_wrapped, send_arg_wrapped}
use addressroutinggateway.Protocol.Forwards.{Forwards}
use addressroutinggateway.Protocol.Departs.{
  last_sent, bytes_from, IsOnWire, Puts, send_arg_wrapped-Puts,
}
use addressroutinggateway.Protocol.Taken.{process_arg_wrapped-Passed}

-- What stands in the wire, in front and behind.
get_or-front : (xs ys : List ℕ) (j : ℕ) → j < length xs → get_or (xs ++ ys) j 0 ≡ get_or xs j 0
get_or-front [] ys j h = absurd (omega arith)
get_or-front (x ∷ xs) ys zero h = refl
get_or-front (x ∷ xs) ys (suc j) h = get_or-front xs ys j (omega arith)

get_or-behind : (xs ys : List ℕ) (j : ℕ) → get_or (xs ++ ys) (length xs + j) 0 ≡ get_or ys j 0
get_or-behind [] ys j = ap (λ (t : ℕ). get_or ys t 0) (omega arith)
get_or-behind (x ∷ xs) ys j =
    ap (λ (t : ℕ). get_or (x ∷ (xs ++ ys)) t 0) {x = suc (length xs) + j} {y = suc (length xs + j)}
      (omega arith)
    ∙ get_or-behind xs ys j

-- A frame of n bytes, with an Ethernet header and a datagram.
abbrev pub frame_of : ℕ → List ℕ → List ℕ → PacketData
frame_of n eth datagram = (parse_packet (raw_packet n 14 (bytes_from (eth ++ datagram)))).0

module _ (T : Type 0) (env far_env : Env) (memory far_memory : ℕ → Bytes)
    (has_memory : (n : ℕ) → env.malloc n ≡ some (memory n))
    (far_has_memory : (n : ℕ) → far_env.malloc n ≡ some (far_memory n))
    (stream : List ℕ → List ℕ → ℕ → ℕ) (c : IsStreamCipher env stream)
    (far_c : IsStreamCipher far_env stream)
    (same_mac : (key xs : List ℕ) → env.md_hmac key xs ≡ far_env.md_hmac key xs)
    (mac_short : (key xs : List ℕ) → length (env.md_hmac key xs) ≤ 128)
    (sends : (n : ℕ) → env.sendto n ≡ 0) (far_sends : (n : ℕ) → far_env.sendto n ≡ 0) (l r : ℕ)
    (p : PacketData) (w : World T) (four : length (w.gates l).base_ip ≡ 4)
    (four' : length (w.gates r).base_ip ≡ 4) (up : (w.gates r).connected ≡ true)
    (free : w.locked r ≡ false) (small : (w.gates r).proto.out_seq_num < 4294967296)
    (fits : (inner_message p).len + (w.gates l).rsa.len + 156 < 65536)
    (some_text : 4 ≤ (inner_message p).len)
    (tot_len : ip_tot_len (inner_message p).msg_bytes 0 ≡ (inner_message p).len) (far_l far_r : ℕ)
    (v : World T) (other : (far_l == far_r) ≡ false)
    (same_sym_key : (v.gates far_r).sym_key ≡ (w.gates l).sym_key)
    (far_up : (v.gates far_r).connected ≡ true)
    (same_cipher_key : (v.gates far_l).cipher_key ≡ (w.gates r).cipher_key)
    (same_iv : (v.gates far_l).iv ≡ (w.gates r).iv)
    (newer : (v.gates far_r).proto.in_seq_num < (w.gates r).proto.out_seq_num)
    (far_free : v.locked far_r ≡ false) (n : ℕ) (eth : List ℕ) (eth_len : length eth ≡ 14)
    (ether : u16 (bytes_from eth) 12 ≡ eth_p_ip) where
  abbrev inner : ArgMsg
  inner = inner_message p

  -- The call has been successful and has given the mutex back, and so does the call at the other end
  -- on the frame with the datagram that went out; there the inner datagram goes out.
  abbrev pub Delivers : Outcome T ℤ → Type 0
  Delivers (done ret u) =
      (ret ≡ pos 0)
      × (u.locked r ≡ false)
      × Forwards T far_env far_memory far_has_memory far_sends far_r inner some_text tot_len v
          (process_arg_wrapped far_env far_l far_r (frame_of n eth (last_sent u.sent)) v)
  Delivers null_dereference = ⊥
  Delivers deadlock = ⊥

  far-IsSealed :
      (wire : List ℕ)
      → IsOnWire T env memory has_memory stream c sends mac_short l r p w four four' up free small
          fits wire
      → IsSealed far_env stream
          (w.gates l).sym_key
          (w.gates r).cipher_key
          (w.gates r).iv
          inner
          (w.gates r).proto.out_seq_num
          (bytes_from (eth ++ wire))
          14
  far-IsSealed wire (len, s) =
      let here =
        IsSealed-same env stream (w.gates l).sym_key (w.gates r).cipher_key (w.gates r).iv inner
          (w.gates r).proto.out_seq_num (bytes_from wire) (bytes_from (eth ++ wire)) 0 14
          (λ j h.
            ap (λ (t : ℕ). get_or (eth ++ wire) t 0) {x = 14 + j} {y = length eth + j}
              (omega (arith, eth_len))
            ∙ get_or-behind eth wire j
            ∙ ap (λ (t : ℕ). get_or wire t 0) {x = j} {y = 0 + j} (omega arith))
          s in
      record {
        version_at = here.version_at;
        proto_at = here.proto_at;
        total_at = here.total_at;
        type_at = here.type_at;
        len_at = here.len_at;
        seq_at = here.seq_at;
        data_at = here.data_at;
        sig_at = here.sig_at ∙ ap padded (same_mac _ _);
      }

  frame_ether : (wire : List ℕ) → u16 (bytes_from (eth ++ wire)) 12 ≡ eth_p_ip
  unfolding u16
  frame_ether wire = omega (
    arith,
    get_or-front eth wire 12 (omega (arith, eth_len)),
    get_or-front eth wire 13 (omega (arith, eth_len)),
    ether,
  )

  delivered :
      (o : Outcome T ℤ)
      → Puts T env memory has_memory stream c sends mac_short l r p w four four' up free small fits
          o
      → Delivers o
  delivered null_dereference h = h
  delivered deadlock h = h
  delivered (done ret u) (ok, unlocked, wire) = (
    ok,
    unlocked,
    process_arg_wrapped-Passed T far_env far_memory far_has_memory stream far_c far_sends inner
        some_text (omega arith) tot_len (w.gates l).sym_key (w.gates r).cipher_key (w.gates r).iv
        (w.gates r).proto.out_seq_num (bytes_from (eth ++ last_sent u.sent))
        (far-IsSealed (last_sent u.sent) wire) (frame_ether (last_sent u.sent)) n far_l far_r other
        v (same_sym_key, far_up, same_cipher_key, same_iv) newer far_free,
  )

  -- A datagram that is given to `send_arg_wrapped` for a connected peer goes out at the peer's machine
  -- as it went in, and neither call keeps its mutex: the sending call succeeds, and so does
  -- `process_arg_wrapped` on a frame of an Ethernet header for IP and the datagram that was sent, which
  -- sends the inner datagram. Both machines have memory, can send and compute the same HMAC, of at most
  -- 128 bytes, and the same stream cipher; the mutexes are free; the two networks have addresses of
  -- four bytes; the peer counts the sender as connected, they share the symmetric key, the cipher key
  -- and the IV, and the sequence number is newer than the peer's last one and fits its field; the
  -- datagram has the length that its header states, and fits behind the headers of the tunnel.
  pub send_arg_wrapped-Delivers : Delivers (send_arg_wrapped env l r p w)
  send_arg_wrapped-Delivers = delivered (send_arg_wrapped env l r p w) (
      send_arg_wrapped-Puts T env memory has_memory stream c sends mac_short l r p w four four' up
        free small fits)

-- ===== src/Protocol/Wraps.antt =====
-- protocol.c: a packet that `create_arg_packet` returns for the tunnel is sealed.
use addressroutinggateway.Prelude.{
  ℕ, suc, ◌+◌, ◌≤◌, ◌<◌, ◌≡◌, refl, sym, ap, ◌∙◌, subst, List, Option, none, some, ℤ, pos, inr,
  true, length, arith,
}
use addressroutinggateway.Memory.{Bytes, slice, write, put8, put16, put32, u16}
use addressroutinggateway.Packet.{PacketData, parse_packet, ip_tot_len}
use addressroutinggateway.Packet.Buffers.{clear, raw_packet, create_packet}
use addressroutinggateway.Packet.Reparse.{parse_packet-SameFrame, parse_packet-ipv4}
use addressroutinggateway.World.{
  current_time, update_proto, set_gate, World, Outcome, done, null_dereference, deadlock, and_then,
  deref, ◌>>=◌, Env, Gate,
}
use addressroutinggateway.Hopper.Address.{address_at, generate_ip_corrected}
use addressroutinggateway.Protocol.Message.{ArgMsg, hdr_len}
use addressroutinggateway.Protocol.Create.{
  encrypt_symmetric, full_len, fill_ip, fill_header, set_lengths, encrypt, sign, finish_packet,
  fill_body, build_at, build_packet, create_arg_packet,
}
use addressroutinggateway.Protocol.Front.{parse_packet-IsArgAt}
use addressroutinggateway.Protocol.Fields.{front-version, front-proto, front-type, front-seq}
use addressroutinggateway.Protocol.Headers.{fill_ip-version, fill_ip-proto, length-address_at}
use addressroutinggateway.World.Keeps.{deref-keeps}
use addressroutinggateway.Packet.Allocate.{create_packet-done}
use addressroutinggateway.Protocol.Stream.{IsStreamCipher}
use addressroutinggateway.Protocol.Sealed.{IsSealed}
use addressroutinggateway.Protocol.Seals.{
  IsFront, sealed_msg, sized, msg_lengths, sized_len, sized_low, sized_other, signed-IsSealed,
  msg_low,
}

-- A packet has been made, it is as stated, and what has been sent is s.
abbrev pub Makes :
    {T : Type 0}
    → (PacketData → Type 0)
    → List (List ℕ)
    → Outcome T (ℤ × Option PacketData)
    → Type 0
Makes F s (done (x, some q) w) = (x ≡ pos 0) × F q × (w.sent ≡ s)
Makes F s (done (x, none) w) = ⊥
Makes F s null_dereference = ⊥
Makes F s deadlock = ⊥

-- The headers over memory that is zero where the signature goes.
module _ (source dest : List ℕ) (source_len : length source ≡ 4) (dest_len : length dest ≡ 4)
    (seq : ℕ) (small_seq : seq < 4294967296) (b : Bytes)
    (zeros : (j : ℕ) → 28 ≤ j → j < 156 → b j ≡ 0) where
  front-total : ip_tot_len (fill_header (fill_ip b 0 source dest) 20 0 seq) 0 ≡ 20
  unfolding fill_header fill_ip put8 put16 put32 write u16
  front-total = ground arith

  front-no_sig : (j : ℕ) → 28 ≤ j → fill_header (fill_ip b 0 source dest) 20 0 seq j ≡ b j
  unfolding fill_header fill_ip put8 put16 put32 write
  front-no_sig j h = ground arith

  filled-IsFront : IsFront seq (fill_header (fill_ip b 0 source dest) 20 0 seq)
  filled-IsFront = record {
    version = front-version source dest source_len dest_len 0 seq (omega arith) small_seq b;
    proto = front-proto source dest source_len dest_len 0 seq (omega arith) small_seq b;
    total = front-total;
    type = front-type source dest source_len dest_len 0 seq (omega arith) small_seq b;
    seq_is = front-seq source dest source_len dest_len 0 seq (omega arith) small_seq b;
    no_sig = λ j h k. front-no_sig j h ∙ zeros j h k;
  }

-- A packet whose IP header is at its start, and that is sealed there.
abbrev pub IsWhole :
    Env → (List ℕ → List ℕ → ℕ → ℕ) → Gate → Gate → ArgMsg → ℕ → PacketData → Type 0
IsWhole env stream local remote msg seq q =
    (q.ipv4 ≡ some 0)
    × (q.link_layer_len ≡ 0)
    × IsSealed env stream local.sym_key remote.cipher_key remote.iv msg seq q.data_bytes 0

module _ (T : Type 0) (env : Env) (stream : List ℕ → List ℕ → ℕ → ℕ) (c : IsStreamCipher env stream)
    (memory : ℕ → Bytes) (has_memory : (n : ℕ) → env.malloc n ≡ some (memory n))
    (mac_short : (key xs : List ℕ) → length (env.md_hmac key xs) ≤ 128) (msg : ArgMsg)
    (short : msg.len + 156 < 65536) where
  module _ (local remote : Gate) (up : remote.connected ≡ true) (f : Bytes) (seq : ℕ)
      (front : IsFront seq f) where
    abbrev sealed : Bytes
    sealed = sealed_msg env stream c remote f seq front msg short

    abbrev whole : Bytes
    whole = sized env stream c remote f seq front msg short

    sign-IsWhole :
        (q : PacketData) (v : World T)
        → q.ipv4 ≡ some 0
        → q.link_layer_len ≡ 0
        → q.data_bytes ≡ whole
        → Makes (IsWhole env stream local remote msg seq) v.sent (sign env 0 local q 20 v)
    unfolding sign
    sign-IsWhole q v ip link bytes = (
      refl,
      (
        ip,
        link,
        subst
            (λ (d : Bytes).
              IsSealed env stream local.sym_key remote.cipher_key remote.iv msg seq
                (write d 28 (env.md_hmac local.sym_key (slice d 20 (hdr_len d 20)))) 0)
            (sym bytes)
            (subst
              (λ (n : ℕ).
                IsSealed env stream local.sym_key remote.cipher_key remote.iv msg seq
                  (write whole 28 (env.md_hmac local.sym_key (slice whole 20 n))) 0)
              (sym (sized_len env stream c remote f seq front msg short))
              (signed-IsSealed env stream c remote f seq front msg short local.sym_key
                (mac_short local.sym_key (slice whole 20 (msg.len + 136))))),
      ),
      refl,
    )

    finish_packet-IsWhole :
        (p : PacketData) (v : World T)
        → p.link_layer_len ≡ 0
        → Makes
            (IsWhole env stream local remote msg seq)
            v.sent
            (finish_packet env 0 local p 0 20 (inr sealed) v)
    unfolding set_lengths
    finish_packet-IsWhole p v link =
        let total = ip_tot_len sealed 0 + hdr_len sealed 20 in
        let lengths = msg_lengths env stream c remote f seq front msg short in
        let total_is : total ≡ 156 + msg.len = omega (arith, lengths.0, lengths.1) in
        let q = record p { len = total; data_bytes = put16 sealed 2 total } in
        let bytes : put16 sealed 2 total ≡ whole = ap (put16 sealed 2) total_is in
        let found =
          parse_packet-IsArgAt q link
            (ap (λ (d : Bytes). d 0) bytes
              ∙ sized_low env stream c remote f seq front msg short 0 (omega arith)
              ∙ msg_low env stream c remote f seq front msg short 0 (omega arith)
              ∙ front.version)
            (ap (λ (d : Bytes). d 9) bytes
              ∙ sized_other env stream c remote f seq front msg short 9 (omega arith)
              ∙ msg_low env stream c remote f seq front msg short 9 (omega arith)
              ∙ front.proto) in
        let frame = parse_packet-SameFrame q in
        deref-keeps (Makes (IsWhole env stream local remote msg seq) v.sent) (parse_packet q).0.arg
          20 v (λ a. sign env 0 local (parse_packet q).0 a) found.arg_start
          (sign-IsWhole (parse_packet q).0 v found.ip_start (frame.0 ∙ link) (frame.1 ∙ bytes))

    encrypt-IsWhole :
        (p : PacketData) (v : World T)
        → p.link_layer_len ≡ 0
        → Makes (IsWhole env stream local remote msg seq) v.sent (
            and_then
              (encrypt env 0 remote f 20 156 (some msg) v)
              (finish_packet env 0 local p 0 20))
    unfolding encrypt_symmetric
    encrypt-IsWhole p v link = rw up (finish_packet-IsWhole p v link)

  module _ (l r : ℕ) where
    abbrev Wrapped : World T → PacketData → Type 0
    Wrapped w = IsWhole env stream (w.gates l) (w.gates r) msg (w.gates r).proto.out_seq_num

    -- Memory that is zero where the signature goes.
    abbrev NoSig : Bytes → Type 0
    NoSig b = (j : ℕ) → 28 ≤ j → j < 156 → b j ≡ 0

    fill_body-IsWhole :
        (p : PacketData) (b : Bytes) (source dest : List ℕ) (w : World T)
        → length source ≡ 4
        → length dest ≡ 4
        → (w.gates r).connected ≡ true
        → (w.gates r).proto.out_seq_num < 4294967296
        → NoSig b
        → p.link_layer_len ≡ 0
        → p.data_bytes ≡ fill_ip b 0 source dest
        → Makes (Wrapped w) w.sent (fill_body env l r 0 (some msg) p 0 20 156 w)
    unfolding update_proto set_gate
    fill_body-IsWhole p b source dest w four four' up small zeros link bytes =
        let seq = (w.gates r).proto.out_seq_num in
        rw bytes (
          encrypt-IsWhole (w.gates l) (w.gates r) up
            (fill_header (fill_ip b 0 source dest) 20 0 seq) seq
            (filled-IsFront source dest four four' seq small b zeros) p _ link)

    build_at-IsWhole :
        (p : PacketData) (w : World T)
        → length (w.gates l).base_ip ≡ 4
        → length (w.gates r).base_ip ≡ 4
        → (w.gates r).connected ≡ true
        → (w.gates r).proto.out_seq_num < 4294967296
        → NoSig p.data_bytes
        → p.link_layer_len ≡ 0
        → Makes (Wrapped w) w.sent (build_at env l r 0 (some msg) p 0 w)
    unfolding generate_ip_corrected current_time
    build_at-IsWhole p w four four' up small zeros link =
        let source = address_at env (w.gates l) (pos 0) (env.clock w.clock_reads) in
        let dest = address_at env (w.gates r) (pos 0) (env.clock (suc w.clock_reads)) in
        let filled = record p { data_bytes = fill_ip p.data_bytes 0 source dest } in
        let found =
          parse_packet-IsArgAt filled link
            (fill_ip-version env T l r 0 (omega arith) (some msg) p.data_bytes source dest)
            (fill_ip-proto env T l r 0 (omega arith) (some msg) p.data_bytes source dest) in
        let frame = parse_packet-SameFrame filled in
        let w1 = record w { clock_reads = suc (suc w.clock_reads) } in
        deref-keeps (Makes (Wrapped w) w.sent) (parse_packet filled).0.arg 20 w1
          (λ a. deref (parse_packet filled).0.unknown_data >>= λ u.
            fill_body env l r 0 (some msg) (parse_packet filled).0 0 a u)
          found.arg_start
          (deref-keeps (Makes (Wrapped w) w.sent) (parse_packet filled).0.unknown_data 156 w1
            (λ u. fill_body env l r 0 (some msg) (parse_packet filled).0 0 20 u) found.data_start
            (fill_body-IsWhole (parse_packet filled).0 p.data_bytes source dest w1
              (length-address_at env T l r 0 (omega arith) (some msg) (w.gates l)
                  (env.clock w.clock_reads)
                ∙ four)
              (length-address_at env T l r 0 (omega arith) (some msg) (w.gates r)
                  (env.clock (suc w.clock_reads))
                ∙ four')
              up small zeros (frame.0 ∙ link) frame.1))

    -- What an allocation of enough bytes leaves, in w.
    abbrev Zeroed : World T → Outcome T (Option PacketData) → Type 0
    Zeroed w (done (some p) v) =
        (p.ipv4 ≡ some 0)
        × (p.link_layer_len ≡ 0)
        × NoSig p.data_bytes
        × (v.gates ≡ w.gates)
        × (v.sent ≡ w.sent)
    Zeroed w (done none v) = ⊥
    Zeroed w null_dereference = ⊥
    Zeroed w deadlock = ⊥

    create_packet-Zeroed : (n : ℕ) (w : World T) → 156 ≤ n → Zeroed w (create_packet env n w)
    unfolding clear
    create_packet-Zeroed n w enough =
        let block = clear n (memory (suc w.allocs)) in
        let frame = parse_packet-SameFrame (raw_packet n 0 block) in
        subst (Zeroed w) (sym (create_packet-done T env memory has_memory n w (omega arith))) (
          parse_packet-ipv4 n block,
          frame.0,
          (λ j h k. ap (λ (d : Bytes). d j) frame.1 ∙ ground arith),
          refl,
          refl,
        )

    module _ (w : World T) (four : length (w.gates l).base_ip ≡ 4)
        (four' : length (w.gates r).base_ip ≡ 4) (up : (w.gates r).connected ≡ true)
        (small : (w.gates r).proto.out_seq_num < 4294967296)
        (fits : msg.len + (w.gates l).rsa.len + 156 < 65536) where
      built-IsWhole :
          (o : Outcome T (Option PacketData))
          → Zeroed w o
          → Makes (Wrapped w) w.sent (and_then o (build_packet env l r 0 (some msg)))
      built-IsWhole (done none v) h = h
      built-IsWhole null_dereference h = h
      built-IsWhole deadlock h = h
      built-IsWhole (done (some p) v) (ip, link, zeros, gates, sent) =
          deref-keeps (Makes (Wrapped w) w.sent) p.ipv4 0 v (λ o. build_at env l r 0 (some msg) p o)
            ip
            (rw (sym gates, sym sent)
              (build_at-IsWhole p v (rw gates four) (rw gates four') (rw gates up) (rw gates small)
                zeros link))

      pub create_arg_packet-IsWhole :
          Makes (Wrapped w) w.sent (create_arg_packet env l r 0 (some msg) w)
      unfolding create_arg_packet full_len
      create_arg_packet-IsWhole =
          built-IsWhole (create_packet env (full_len (some msg) (w.gates l)) w)
            (create_packet-Zeroed (full_len (some msg) (w.gates l)) w (omega arith))

-- ===== src/Protocol/Headers.antt =====
-- protocol.c: the headers of the packets that `create_arg_packet` returns.
use addressroutinggateway.Prelude.{
  subst, ℕ, zero, suc, ◌<◌, ◌≡◌, refl, sym, ◌∙◌, List, Option, none, some, ℤ, pos, length, arith,
}
use addressroutinggateway.Memory.{Bytes, write, put8, put16}
use addressroutinggateway.Packet.{PacketData, parse_packet, arg_proto}
use addressroutinggateway.Packet.Buffers.{
  clear, raw_packet, create_with, create_data, create_packet,
}
use addressroutinggateway.Packet.Reparse.{parse_packet-SameFrame, parse_packet-ipv4}
use addressroutinggateway.Utility.Time.{Timespec}
use addressroutinggateway.World.{
  current_time, malloc, update_proto, World, Outcome, done, null_dereference, deadlock, and_then,
  deref, ◌>>=◌, Env, Gate,
}
use addressroutinggateway.Hopper.Address.{address_at, generate_ip_corrected}
use addressroutinggateway.Protocol.Message.{ArgMsg}
use addressroutinggateway.Protocol.Create.{
  full_len, fill_ip, fill_body, build_at, build_packet, create_arg_packet,
}
use addressroutinggateway.Protocol.Front.{Made, Made-weaken, parse_packet-IsArgAt, encrypt-Made}
use addressroutinggateway.Protocol.Fields.{
  HasHeaders, length-or_unmasked, front, front-version, front-proto, IsHeaded-HasHeaders,
}

module _ (env : Env) (T : Type 0) (l r type : ℕ) (small_type : type < 256)
    (msg : Option ArgMsg) where
  fill_body-Made :
      (p : PacketData) (b : Bytes) (source dest : List ℕ) (w : World T)
      → length source ≡ 4
      → length dest ≡ 4
      → (w.gates r).proto.out_seq_num < 4294967296
      → p.link_layer_len ≡ 0
      → p.data_bytes ≡ fill_ip b 0 source dest
      → Made
          (HasHeaders source dest type (w.gates r).proto.out_seq_num)
          (fill_body env l r type msg p 0 20 156 w)
  unfolding update_proto
  fill_body-Made p b source dest w four four' small link bytes =
      let seq = (w.gates r).proto.out_seq_num in
      Made-weaken _ _ _ (IsHeaded-HasHeaders source dest four four' type seq small_type small b) (
        rw bytes (
          encrypt-Made env T l r type (front source dest four four' type seq small_type small b)
            (front-version source dest four four' type seq small_type small b)
            (front-proto source dest four four' type seq small_type small b) (w.gates l) (w.gates r)
            p msg _ link))

  -- From the two pointers on that the parse has set.
  started-Made :
      (F : PacketData → Type 0) (q : PacketData) (x y : Option ℕ) (v : World T)
      → x ≡ some 20
      → y ≡ some 156
      → Made F (fill_body env l r type msg q 0 20 156 v)
      → Made F (and_then (deref x v) (λ a. deref y >>= (λ u. fill_body env l r type msg q 0 a u)))
  started-Made F q none y v e e' m = tt
  started-Made F q (some a) none v e e' m = tt
  started-Made F q (some a) (some u) v e e' m =
      let same : a ≡ 20 = cc in let same' : u ≡ 156 = cc in rw (same, same') m

  pub fill_ip-version : (b : Bytes) (source dest : List ℕ) → fill_ip b 0 source dest 0 ≡ 0x45
  unfolding fill_ip put8 put16 write
  fill_ip-version b source dest = ground arith

  pub fill_ip-proto : (b : Bytes) (source dest : List ℕ) → fill_ip b 0 source dest 9 ≡ arg_proto
  unfolding fill_ip put8 put16 write
  fill_ip-proto b source dest = ground arith

  pub length-address_at :
      (g : Gate) (now : Timespec) → length (address_at env g (pos 0) now) ≡ length g.base_ip
  unfolding address_at
  length-address_at g now = length-or_unmasked g.base_ip g.mask _

  -- Of a packet that has been allocated.
  build_at-Made :
      (p : PacketData) (w : World T)
      → length (w.gates l).base_ip ≡ 4
      → length (w.gates r).base_ip ≡ 4
      → (w.gates r).proto.out_seq_num < 4294967296
      → p.link_layer_len ≡ 0
      → Made
          (HasHeaders
            (address_at env (w.gates l) (pos 0) (env.clock w.clock_reads))
            (address_at env (w.gates r) (pos 0) (env.clock (suc w.clock_reads)))
            type
            (w.gates r).proto.out_seq_num)
          (build_at env l r type msg p 0 w)
  unfolding generate_ip_corrected current_time
  build_at-Made p w four four' small link =
      let source = address_at env (w.gates l) (pos 0) (env.clock w.clock_reads) in
      let dest = address_at env (w.gates r) (pos 0) (env.clock (suc w.clock_reads)) in
      let filled = record p { data_bytes = fill_ip p.data_bytes 0 source dest } in
      let found =
        parse_packet-IsArgAt filled link (fill_ip-version p.data_bytes source dest)
          (fill_ip-proto p.data_bytes source dest) in
      let frame = parse_packet-SameFrame filled in
      started-Made _ (parse_packet filled).0 (parse_packet filled).0.arg
        (parse_packet filled).0.unknown_data _ found.arg_start found.data_start
        (fill_body-Made (parse_packet filled).0 p.data_bytes source dest _
          (length-address_at (w.gates l) (env.clock w.clock_reads) ∙ four)
          (length-address_at (w.gates r) (env.clock (suc w.clock_reads)) ∙ four') small
          (frame.0 ∙ link) frame.1)

  -- What the allocation of a packet leaves, in w, and the packet that it makes.
  abbrev Allocated : World T → Outcome T (Option PacketData) → Type 0
  Allocated w (done (some p) v) =
      (p.ipv4 ≡ some 0)
      × (p.link_layer_len ≡ 0)
      × (v.gates ≡ w.gates)
      × (v.clock_reads ≡ w.clock_reads)
  Allocated w (done none v) = Unit {0}
  Allocated w null_dereference = Unit {0}
  Allocated w deadlock = Unit {0}

  create_with-Allocated :
      (n : ℕ) (s : Option Bytes) (w v : World T)
      → v.gates ≡ w.gates
      → v.clock_reads ≡ w.clock_reads
      → Allocated w (create_with env n s v)
  create_with-Allocated n none w v g c = tt
  create_with-Allocated n (some b) w v g c = (
    parse_packet-ipv4 n (clear n b),
    (parse_packet-SameFrame (raw_packet n 0 (clear n b))).0,
    g,
    c,
  )

  create_data-Allocated :
      (n : ℕ) (s : Option Bytes) (w v : World T)
      → v.gates ≡ w.gates
      → v.clock_reads ≡ w.clock_reads
      → Allocated w (create_data env n s v)
  unfolding malloc
  create_data-Allocated n none w v g c = tt
  create_data-Allocated zero (some s) w v g c =
      (parse_packet-ipv4 0 s, (parse_packet-SameFrame (raw_packet 0 0 s)).0, g, c)
  create_data-Allocated (suc n) (some s) w v g c =
      create_with-Allocated (suc n) (env.malloc v.allocs) w _ g c

  create_packet-Allocated : (n : ℕ) (w : World T) → Allocated w (create_packet env n w)
  unfolding create_packet malloc
  create_packet-Allocated n w = create_data-Allocated n (env.malloc w.allocs) w _ refl refl

  module _ (w : World T) (four : length (w.gates l).base_ip ≡ 4)
      (four' : length (w.gates r).base_ip ≡ 4)
      (small : (w.gates r).proto.out_seq_num < 4294967296) where
    abbrev IsCreated : PacketData → Type 0
    IsCreated =
        HasHeaders (address_at env (w.gates l) (pos 0) (env.clock w.clock_reads))
          (address_at env (w.gates r) (pos 0) (env.clock (suc w.clock_reads))) type
          (w.gates r).proto.out_seq_num

    placed-Made :
        (p : PacketData) (x : Option ℕ) (v : World T)
        → x ≡ some 0
        → Made IsCreated (build_at env l r type msg p 0 v)
        → Made IsCreated (and_then (deref x v) (λ o. build_at env l r type msg p o))
    placed-Made p none v e m = tt
    placed-Made p (some o) v e m = let same : o ≡ 0 = cc in rw same m

    built-Made :
        (o : Outcome T (Option PacketData))
        → Allocated w o
        → Made IsCreated (and_then o (build_packet env l r type msg))
    built-Made (done none v) h = tt
    built-Made null_dereference h = tt
    built-Made deadlock h = tt
    built-Made (done (some p) v) (ip, link, gates, reads) = placed-Made p p.ipv4 v ip (
        rw (sym gates, sym reads)
          (build_at-Made p v (rw gates four) (rw gates four') (rw gates small) link))

    -- A packet that `create_arg_packet` returns carries, for the peer to read, the address that the
    -- local gateway has at the first reading of the clock and the one that the peer has at the second,
    -- the type and the peer's next sequence number, and its headers stand where the parse finds them,
    -- whatever the ciphers, the signature and the memory are, if both networks have addresses of four
    -- bytes and the type and the number fit into their fields.
    pub create_arg_packet-HasHeaders :
        (q : PacketData) (x : ℤ) (v : World T)
        → create_arg_packet env l r type msg w ≡ done (x, some q) v
        → HasHeaders
            (address_at env (w.gates l) (pos 0) (env.clock w.clock_reads))
            (address_at env (w.gates r) (pos 0) (env.clock (suc w.clock_reads)))
            type
            (w.gates r).proto.out_seq_num
            q
    unfolding create_arg_packet
    create_arg_packet-HasHeaders q x v e = subst (Made IsCreated) e (
        built-Made (create_packet env (full_len msg (w.gates l)) w)
          (create_packet-Allocated (full_len msg (w.gates l)) w))

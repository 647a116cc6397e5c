-- ===== src/Protocol/Fields.antt =====
-- protocol.c: the fields of the headers that `create_arg_packet` has written.
use addressroutinggateway.Prelude.{
  ℕ, suc, ◌<◌, ◌≤◌, ◌%◌, ◌≡◌, refl, sym, ap, ◌∙◌, List, [], ◌∷◌, some, inl, inr, length, arith,
}
use addressroutinggateway.Memory.{
  bytes16, bytes32, Bytes, slice, write, put8, put16, put32, u32, write_below, write_above,
  slice_ext, slice-write_self, slice-write_after, u32-put32,
}
use addressroutinggateway.Packet.{PacketData, arg_proto}
use addressroutinggateway.Hopper.Address.{or_unmasked}
use addressroutinggateway.Protocol.Message.{hdr_type, hdr_seq}
use addressroutinggateway.Protocol.Create.{fill_ip, fill_header}
use addressroutinggateway.Protocol.Front.{IsHeaded}

-- The addresses, the type and the sequence number of a packet.
pub record HasHeaders (source dest : List ℕ) (type seq : ℕ) (q : PacketData) : Type 0 where
  pub ip_at : q.ipv4 ≡ some 0
  pub arg_at : q.arg ≡ some 20
  pub source_at : slice q.data_bytes 12 4 ≡ source
  pub dest_at : slice q.data_bytes 16 4 ≡ dest
  pub type_at : hdr_type q.data_bytes 20 ≡ type
  pub seq_at : hdr_seq q.data_bytes 20 ≡ seq

pub length-or_unmasked : (bs ms xs : List ℕ) → length (or_unmasked bs ms xs) ≡ length bs
unfolding or_unmasked
length-or_unmasked [] ms xs = refl
length-or_unmasked (b ∷ bs) [] xs = refl
length-or_unmasked (b ∷ bs) (m ∷ ms) [] = refl
length-or_unmasked (b ∷ bs) (m ∷ ms) (x ∷ xs) = ap suc (length-or_unmasked bs ms xs)

module _ (source dest : List ℕ) (source_len : length source ≡ 4) (dest_len : length dest ≡ 4)
    (type seq : ℕ) (small_type : type < 256) (small_seq : seq < 4294967296) (b : Bytes) where
  abbrev pub front : Bytes
  front = fill_header (fill_ip b 0 source dest) 20 type seq

  pub front-version : front 0 ≡ 0x45
  unfolding fill_header fill_ip put8 put16 put32 write
  front-version = ground arith

  pub front-proto : front 9 ≡ arg_proto
  unfolding fill_header fill_ip put8 put16 put32 write
  front-proto = ground arith

  pub front-type : hdr_type front 20 ≡ type
  unfolding fill_header put8 put32 write
  front-type = ground arith

  pub front-seq : hdr_seq front 20 ≡ seq
  unfolding fill_header put32
  front-seq = u32-put32 _ 24 seq small_seq

  -- The bytes of the IP header before the addresses are placed.
  abbrev placed : Bytes
  placed = put8 (put8 (put8 (put8 b 0 0x45) 8 32) 1 0) 9 arg_proto

  front-addresses : (j : ℕ) → 12 ≤ j → j < 20 → front j ≡ write (write placed 12 source) 16 dest j
  unfolding fill_header fill_ip put8 put16 put32
  front-addresses j h k =
      let addressed = write (write placed 12 source) 16 dest in
      let with_id = put16 addressed 4 0 in
      let with_frag = put16 with_id 6 0 in
      let with_len = put16 with_frag 2 20 in
      let ip = fill_ip b 0 source dest in
      write_below (put8 (put8 ip 20 1) 21 type) 24 (bytes32 seq) j (omega arith)
      ∙ write_below (put8 ip 20 1) 21 (type % 256 ∷ []) j (omega arith)
      ∙ write_below ip 20 (1 ∷ []) j (omega arith)
      ∙ write_above with_len 10 (bytes16 0) j (omega arith)
      ∙ write_above with_frag 2 (bytes16 20) j (omega arith)
      ∙ write_above with_id 6 (bytes16 0) j (omega arith)
      ∙ write_above addressed 4 (bytes16 0) j (omega arith)

  front-source : slice front 12 4 ≡ source
  front-source =
      slice_ext front _ 12 4 (λ j p q. front-addresses j p (omega arith))
      ∙ slice-write_after (write placed 12 source) 12 4 16 dest (omega arith)
      ∙ ap (slice (write placed 12 source) 12) (sym source_len)
      ∙ slice-write_self placed 12 source

  front-dest : slice front 16 4 ≡ dest
  front-dest =
      slice_ext front _ 16 4 (λ j p q. front-addresses j (omega arith) (omega arith))
      ∙ ap (slice (write (write placed 12 source) 16 dest) 16) (sym dest_len)
      ∙ slice-write_self (write placed 12 source) 16 dest

  pub IsHeaded-HasHeaders : (q : PacketData) → IsHeaded front q → HasHeaders source dest type seq q
  unfolding u32
  IsHeaded-HasHeaders q h = record {
    ip_at = h.ip_at;
    arg_at = h.arg_at;
    source_at =
        slice_ext q.data_bytes front 12 4
          (λ j p k. h.same_front j (omega arith) (inr (inl (omega arith, omega arith))))
        ∙ front-source;
    dest_at =
        slice_ext q.data_bytes front 16 4
          (λ j p k. h.same_front j (omega arith) (inr (inl (omega arith, omega arith))))
        ∙ front-dest;
    type_at = h.same_front 21 (omega arith) (inr (inl (omega arith, omega arith))) ∙ front-type;
    seq_at =
        rw
          (
            h.same_front 24 (omega arith) (inr (inr (omega arith))),
            h.same_front 25 (omega arith) (inr (inr (omega arith))),
            h.same_front 26 (omega arith) (inr (inr (omega arith))),
            h.same_front 27 (omega arith) (inr (inr (omega arith))),
          )
          front-seq;
  }

-- ===== src/Nat/Fields.antt =====
-- nat.c: which bytes of a packet the two rewrites change.
use addressroutinggateway.Prelude.{
  ℕ, ◌+◌, ◌<◌, ◌≤◌, ◌≡◌, refl, sym, ap, ◌∙◌, subst, List, Option, none, some, ◌⊎◌, inl, inr, length,
  arith,
}
use addressroutinggateway.Memory.{
  Bytes, bytes16, u16, put16, slice, write, write_below, write_above, slice_ext, slice-write_self,
  u16-put16,
}
use addressroutinggateway.Packet.{
  PacketData, set_source_port, set_dest_port, port_header, put_port_at,
}
use addressroutinggateway.Packet.Checksum.{
  fill_check, csum_bytes, csum_with_psuedo, udp_csum, tcp_csum,
}
use addressroutinggateway.Nat.Entries.{NatEntry}
use addressroutinggateway.Nat.Rewrite.{rewrite_source, rewrite_destination}

-- The place is not among the n bytes from i.
abbrev pub IsOutside : ℕ → ℕ → ℕ → Type 0
IsOutside i n j = (j < i) ⊎ (i + n ≤ j)

write-IsOutside :
    (b : Bytes) (i : ℕ) (xs : List ℕ) (j : ℕ) → IsOutside i (length xs) j → write b i xs j ≡ b j
write-IsOutside b i xs j (inl h) = write_below b i xs j h
write-IsOutside b i xs j (inr h) = write_above b i xs j h

put16-IsOutside : (b : Bytes) (i v j : ℕ) → IsOutside i 2 j → put16 b i v j ≡ b j
unfolding put16
put16-IsOutside b i v j h = write-IsOutside b i (bytes16 v) j h

fill_check-IsOutside :
    (b : Bytes) (o t c len j : ℕ) → IsOutside c 2 j → fill_check b o t c len j ≡ b j
unfolding fill_check
fill_check-IsOutside b o t c len j h =
    put16-IsOutside (put16 b c 0) c _ j h ∙ put16-IsOutside b c 0 j h

-- The TCP or UDP header is at t, and its check field k behind that.
abbrev pub IsTransport : Option ℕ → Option ℕ → ℕ → ℕ → Type 0
IsTransport tcp udp t k = ((tcp ≡ some t) × (k ≡ 16)) ⊎ ((tcp ≡ none) × (udp ≡ some t) × (k ≡ 6))

csum_bytes-IsOutside :
    (o : ℕ) (tcp udp : Option ℕ) (b : Bytes) (t k j : ℕ)
    → IsTransport tcp udp t k
    → IsOutside (t + k) 2 j
    → csum_bytes (some o) tcp udp b j ≡ b j
unfolding csum_bytes
csum_bytes-IsOutside o tcp udp b t k j (inl (is_tcp, sixteen)) h =
    rw is_tcp
      (fill_check-IsOutside b o t (t + 16) _ j (subst (λ n. IsOutside (t + n) 2 j) sixteen h))
csum_bytes-IsOutside o tcp udp b t k j (inr (no_tcp, is_udp, six)) h =
    rw (no_tcp, is_udp)
      (fill_check-IsOutside b o t (t + 6) _ j (subst (λ n. IsOutside (t + n) 2 j) six h))

module _ (o t k : ℕ) where
  csum-IsOutside :
      (p : PacketData) (j : ℕ)
      → p.ipv4 ≡ some o
      → IsTransport p.tcp p.udp t k
      → IsOutside (t + k) 2 j
      → (csum_with_psuedo p).data_bytes j ≡ p.data_bytes j
  unfolding csum_with_psuedo
  csum-IsOutside p j ip at h = rw ip (csum_bytes-IsOutside o p.tcp p.udp p.data_bytes t k j at h)

  -- With the second sum alone, or after the first.
  sums-IsOutside :
      (p : PacketData) (j : ℕ) (x : Option ℕ)
      → p.ipv4 ≡ some o
      → IsTransport p.tcp p.udp t k
      → IsOutside (t + k) 2 j
      → (csum_with_psuedo (elim x [ none ↦ p | some u ↦ csum_with_psuedo p ])).data_bytes j
        ≡ p.data_bytes j
  unfolding csum_with_psuedo
  sums-IsOutside p j none ip at h = csum-IsOutside p j ip at h
  sums-IsOutside p j (some u) ip at h =
      csum-IsOutside (csum_with_psuedo p) j ip at h ∙ csum-IsOutside p j ip at h

  csums-IsOutside :
      (p : PacketData) (j : ℕ)
      → p.ipv4 ≡ some o
      → IsTransport p.tcp p.udp t k
      → IsOutside (t + k) 2 j
      → (tcp_csum (udp_csum p)).data_bytes j ≡ p.data_bytes j
  unfolding tcp_csum udp_csum
  csums-IsOutside p j ip at h = sums-IsOutside p j p.udp ip at h

  -- The address at i is ip, the port at m is port, and all else but the check field is as in b.
  abbrev pub Differs : Bytes → ℕ → List ℕ → ℕ → ℕ → Bytes → Type 0
  Differs b i ip m port c =
      (slice c i 4 ≡ ip)
      × (u16 c m ≡ port)
      × ((j : ℕ) → IsOutside i 4 j → IsOutside m 2 j → IsOutside (t + k) 2 j → c j ≡ b j)

  changed-Differs :
      (b c : Bytes) (i m port : ℕ) (ip : List ℕ)
      → ((j : ℕ) → IsOutside (t + k) 2 j → c j ≡ put16 (write b i ip) m port j)
      → length ip ≡ 4
      → port < 65536
      → i + 4 ≤ m
      → m + 2 ≤ t + k
      → Differs b i ip m port c
  unfolding u16
  changed-Differs b c i m port ip h four small before inside = (
    slice_ext c (write b i ip) i 4 (λ j p q.
          h j (inl (omega arith)) ∙ put16-IsOutside (write b i ip) m port j (inl (omega arith)))
        ∙ ap (slice (write b i ip) i) (sym four)
        ∙ slice-write_self b i ip,
    rw (h m (inl (omega arith)), h (m + 1) (inl (omega arith)))
        (u16-put16 (write b i ip) m port small),
    λ j p q s.
        h j s
        ∙ put16-IsOutside (write b i ip) m port j q
        ∙ write-IsOutside b i ip j (subst (λ n. IsOutside i n j) (sym four) p),
  )

  IsTransport-k : (tcp udp : Option ℕ) → IsTransport tcp udp t k → 6 ≤ k
  IsTransport-k tcp udp (inl (is_tcp, sixteen)) = omega (arith, sixteen)
  IsTransport-k tcp udp (inr (no_tcp, is_udp, six)) = omega (arith, six)

  put_port_at-header :
      (p : PacketData) (m n v : ℕ) (b : Bytes)
      → t + m ≡ n
      → IsTransport p.tcp p.udp t k
      → put_port_at (port_header p) m v b ≡ put16 b n v
  put_port_at-header p m n v b there (inl (is_tcp, sixteen)) =
      rw is_tcp (ap (λ i. put16 b i v) there)
  put_port_at-header p m n v b there (inr (no_tcp, is_udp, six)) =
      rw (no_tcp, is_udp) (ap (λ i. put16 b i v) there)

  module _ (e : NatEntry) (p : PacketData) (ip : p.ipv4 ≡ some o) (at : IsTransport p.tcp p.udp t k)
      (behind : o + 20 ≤ t) where
    -- A TCP or UDP packet to the outside, rewritten for an entry, has the address and the port of the
    -- gateway in the entry as its source, and differs from the packet in nothing else but the check
    -- field, if the header lies behind the IP header, the address has four bytes and the port two.
    pub rewrite_source-Differs :
        length e.gate_ip ≡ 4
        → e.gate_port < 65536
        → Differs p.data_bytes (o + 12) e.gate_ip t e.gate_port (rewrite_source e p o).data_bytes
    unfolding rewrite_source set_source_port
    rewrite_source-Differs four small =
        changed-Differs p.data_bytes _ (o + 12) t e.gate_port e.gate_ip
          (λ j h.
            csums-IsOutside
              (set_source_port (record p { data_bytes = write p.data_bytes (o + 12) e.gate_ip })
                e.gate_port)
              j ip at h
            ∙ ap (λ (b : Bytes). b j)
                (put_port_at-header p 0 t e.gate_port (write p.data_bytes (o + 12) e.gate_ip)
                  (omega arith) at))
          four small (omega arith) (omega (arith, IsTransport-k p.tcp p.udp at))

    -- A TCP or UDP packet from outside, rewritten for an entry, has the address and the port of the
    -- internal host in the entry as its destination, and differs from the packet in nothing else but
    -- the check field, if the header lies behind the IP header, the address has four bytes and the
    -- port two.
    pub rewrite_destination-Differs :
        length e.int_ip ≡ 4
        → e.int_port < 65536
        → Differs p.data_bytes
            (o + 16)
            e.int_ip
            (t + 2)
            e.int_port
            (rewrite_destination e p o).data_bytes
    unfolding rewrite_destination set_dest_port
    rewrite_destination-Differs four small =
        changed-Differs p.data_bytes _ (o + 16) (t + 2) e.int_port e.int_ip
          (λ j h.
            csums-IsOutside
              (set_dest_port (record p { data_bytes = write p.data_bytes (o + 16) e.int_ip })
                e.int_port)
              j ip at h
            ∙ ap (λ (b : Bytes). b j)
                (put_port_at-header p 2 (t + 2) e.int_port (write p.data_bytes (o + 16) e.int_ip)
                  refl at))
          four small (omega arith) (omega (arith, IsTransport-k p.tcp p.udp at))

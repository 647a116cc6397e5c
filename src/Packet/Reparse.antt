-- ===== src/Packet/Reparse.antt =====
-- packet.c: what `parse_packet` leaves as it is, and that a second parse finds nothing new.
use addressroutinggateway.Prelude.{
  arith, ℕ, ◌+◌, ◌≡◌, refl, ◌∙◌, Bool, true, false, Bool-cases, Option, none, some, inl, inr, ◌==◌,
  if◌then◌else◌,
}
use addressroutinggateway.Memory.{Bytes, u16}
use addressroutinggateway.Packet.Header.{
  PacketData, ethhdr_size, eth_p_ip, eth_p_arp, ip_version, arg_proto, tcp_proto, udp_proto,
  icmp_proto, ip_protocol, ip_tot_len,
}
use addressroutinggateway.Packet.Buffers.{raw_packet}
use addressroutinggateway.Packet.Parse.{
  clear_pointers, point_ipv4, parse_ethertype, parse_link, parse_transport, set_unknown_len,
  parse_network, parse_packet,
}

-- The parts of a packet that a parse reads.
abbrev SameFrame : PacketData → PacketData → Type 0
SameFrame p q = (p.link_layer_len ≡ q.link_layer_len) × (p.data_bytes ≡ q.data_bytes)

SameFrame-if :
    (b : Bool) (p q r : PacketData)
    → SameFrame p r
    → SameFrame q r
    → SameFrame (if b then p else q) r
SameFrame-if true p q r h k = h
SameFrame-if false p q r h k = k

parse_link-SameFrame : (p : PacketData) → SameFrame (parse_link p) p
unfolding parse_link parse_ethertype point_ipv4
parse_link-SameFrame p =
    SameFrame-if (ethhdr_size == p.link_layer_len) _ _ p
      (SameFrame-if (u16 p.data_bytes 12 == eth_p_ip) _ _ p (refl, refl)
        (SameFrame-if (u16 p.data_bytes 12 == eth_p_arp) _ _ p (refl, refl) (refl, refl)))
      (refl, refl)

parse_transport-SameFrame : (p : PacketData) (o : ℕ) → SameFrame (parse_transport p o) p
unfolding parse_transport
parse_transport-SameFrame p o =
    SameFrame-if (ip_protocol p.data_bytes o == arg_proto) _ _ p (refl, refl)
      (SameFrame-if (ip_protocol p.data_bytes o == tcp_proto) _ _ p (refl, refl)
        (SameFrame-if (ip_protocol p.data_bytes o == udp_proto) _ _ p (refl, refl)
          (SameFrame-if (ip_protocol p.data_bytes o == icmp_proto) _ _ p (refl, refl)
            (refl, refl))))

parse_network-SameFrame : (p : PacketData) (x : Option ℕ) → SameFrame (parse_network p x).0 p
unfolding parse_network set_unknown_len
parse_network-SameFrame p none = (refl, refl)
parse_network-SameFrame p (some o) = elim (Bool-cases (ip_version p.data_bytes o == 4)) [
  | inl four ↦ rw four (
      parse_transport-SameFrame (record p { len = p.link_layer_len + ip_tot_len p.data_bytes o }) o)
  | inr other ↦ rw other (refl, refl)
]

pub parse_packet-SameFrame :
    (p : PacketData)
    → ((parse_packet p).0.link_layer_len ≡ p.link_layer_len)
      × ((parse_packet p).0.data_bytes ≡ p.data_bytes)
unfolding parse_packet clear_pointers
parse_packet-SameFrame p =
    let (link, bytes) =
      parse_network-SameFrame (parse_link (clear_pointers p))
        (parse_link (clear_pointers p)).ipv4 in
    let (link', bytes') = parse_link-SameFrame (clear_pointers p) in (link ∙ link', bytes ∙ bytes')

-- A parse reads only the length, the size of the link layer and the bytes.
pub parse_packet-raw_packet :
    (p : PacketData)
    → parse_packet p ≡ parse_packet (raw_packet p.len p.link_layer_len p.data_bytes)
unfolding parse_packet clear_pointers
parse_packet-raw_packet p = refl

-- Without a link layer there is an IP header, at the start.
pub parse_packet-ipv4 : (n : ℕ) (b : Bytes) → (parse_packet (raw_packet n 0 b)).0.ipv4 ≡ some 0
unfolding parse_packet clear_pointers parse_link point_ipv4 parse_network set_unknown_len
    parse_transport
parse_packet-ipv4 n b = ground arith

-- An IP header without options and the number of ARG: the ARG header and the data stand behind it.
pub parse_packet-arg :
    (n : ℕ) (b : Bytes)
    → b 0 ≡ 0x45
    → b 9 ≡ arg_proto
    → ((parse_packet (raw_packet n 0 b)).0.arg ≡ some 20)
      × ((parse_packet (raw_packet n 0 b)).0.unknown_data ≡ some 156)
unfolding parse_packet clear_pointers parse_link point_ipv4 parse_network set_unknown_len
    parse_transport
parse_packet-arg n b version proto = ground arith

-- The same behind an Ethernet header.
pub parse_packet-frame :
    (n : ℕ) (b : Bytes)
    → u16 b 12 ≡ eth_p_ip
    → b 14 ≡ 0x45
    → b 23 ≡ arg_proto
    → ((parse_packet (raw_packet n 14 b)).0.arg ≡ some 34)
      × ((parse_packet (raw_packet n 14 b)).0.unknown_data ≡ some 170)
      × ((parse_packet (raw_packet n 14 b)).0.len ≡ 14 + ip_tot_len b 14)
unfolding parse_packet clear_pointers parse_link parse_ethertype point_ipv4 parse_network
    set_unknown_len parse_transport
parse_packet-frame n b ether version proto = ground arith

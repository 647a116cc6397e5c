-- ===== src/Packet/Header.antt =====
-- The packet structure and the protocol headers, as offsets into the frame.
use addressroutinggateway.Prelude.{ℕ, ◌+◌, ◌/◌, ◌%◌, Option}
use addressroutinggateway.Memory.{Bytes, u16}

pub record PacketData : Type 0 where
  pub len : ℕ
  pub link_layer_len : ℕ
  pub eth : Option ℕ
  pub ipv4 : Option ℕ
  pub tcp : Option ℕ
  pub udp : Option ℕ
  pub icmp : Option ℕ
  pub arp : Option ℕ
  pub arg : Option ℕ
  pub unknown_data : Option ℕ
  -- `none` where the source subtracts a pointer from NULL.
  pub unknown_len : Option ℕ
  pub data_bytes : Bytes

abbrev pub ethhdr_size : ℕ
ethhdr_size = 14

abbrev pub ether_arp_size : ℕ
ether_arp_size = 28

abbrev pub udphdr_size : ℕ
udphdr_size = 8

abbrev pub icmphdr_size : ℕ
icmphdr_size = 8

-- `sizeof(struct arghdr)`: version, type, len, seq and a signature of 128 bytes.
abbrev pub arg_hdr_len : ℕ
arg_hdr_len = 136

abbrev pub eth_p_ip : ℕ
eth_p_ip = 0x0800

abbrev pub eth_p_arp : ℕ
eth_p_arp = 0x0806

abbrev pub icmp_proto : ℕ
icmp_proto = 1

abbrev pub tcp_proto : ℕ
tcp_proto = 6

abbrev pub udp_proto : ℕ
udp_proto = 17

abbrev pub arg_proto : ℕ
arg_proto = 253

-- Fields of `struct iphdr` at offset o.
abbrev pub ip_version : Bytes → ℕ → ℕ
ip_version b o = b o / 16

abbrev pub ip_ihl : Bytes → ℕ → ℕ
ip_ihl b o = b o % 16

abbrev pub ip_tot_len : Bytes → ℕ → ℕ
ip_tot_len b o = u16 b (o + 2)

abbrev pub ip_protocol : Bytes → ℕ → ℕ
ip_protocol b o = b (o + 9)

-- `packet->tcp->doff`
abbrev pub tcp_doff : Bytes → ℕ → ℕ
tcp_doff b o = b (o + 12) / 16

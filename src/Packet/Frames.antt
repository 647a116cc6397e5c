-- ===== src/Packet/Frames.antt =====
-- packet.c: what `parse_packet` makes of an Ethernet frame, by its type and the IP version.
use addressroutinggateway.Prelude.{
  ℕ, ◌+◌, ◌-◌, ◌/◌, ◌%◌, ◌^◌, ◌≡◌, ◌≢◌, refl, none, some, pos, arith,
}
use addressroutinggateway.Settings.{arg_packet_parse_error}
use addressroutinggateway.Memory.{Bytes, u16}
use addressroutinggateway.Packet.Header.{PacketData}
use addressroutinggateway.Packet.Buffers.{raw_packet}
use addressroutinggateway.Packet.Parse.{
  clear_pointers, point_ipv4, parse_ethertype, parse_link, parse_transport, set_unknown_len,
  parse_network, parse_packet,
}

-- A frame with an ARP packet behind its header.
abbrev pub arp_packet : ℕ → Bytes → PacketData
arp_packet n b = record (raw_packet n 14 b) {
  eth = some 0;
  arp = some 14;
  unknown_data = some 42;
  unknown_len = some ((n + 2 ^ 64 - 42) % 2 ^ 64);
}

-- A frame with an IP packet behind its header, as long as that packet says.
pub record IsIpPacket (b : Bytes) (p : PacketData) : Type 0 where
  pub frame : p.data_bytes ≡ b
  pub link : p.link_layer_len ≡ 14
  pub ethernet : p.eth ≡ some 0
  pub ip : p.ipv4 ≡ some 14
  pub no_arp : p.arp ≡ none
  pub length : p.len ≡ 14 + u16 b 16

pub parse_packet-arp_packet :
    (n : ℕ) (b : Bytes)
    → u16 b 12 ≡ 0x0806
    → parse_packet (raw_packet n 14 b) ≡ (arp_packet n b, pos 0)
unfolding parse_packet clear_pointers parse_link parse_ethertype point_ipv4 parse_network
    set_unknown_len
parse_packet-arp_packet n b e = rw e refl

pub parse_packet-IsIpPacket :
    (n : ℕ) (b : Bytes)
    → u16 b 12 ≡ 0x0800
    → b 14 / 16 ≡ 4
    → IsIpPacket b (parse_packet (raw_packet n 14 b)).0
      × ((parse_packet (raw_packet n 14 b)).1 ≡ pos 0)
unfolding parse_packet clear_pointers parse_link parse_ethertype point_ipv4 parse_network
    set_unknown_len parse_transport
parse_packet-IsIpPacket n b e v = (
  record {
    frame = ground arith;
    link = ground arith;
    ethernet = ground arith;
    ip = ground arith;
    no_arp = ground arith;
    length = ground arith;
  },
  ground arith,
)

pub parse_packet-version :
    (n : ℕ) (b : Bytes)
    → u16 b 12 ≡ 0x0800
    → b 14 / 16 ≢ 4
    → (parse_packet (raw_packet n 14 b)).1 ≡ arg_packet_parse_error
unfolding parse_packet clear_pointers parse_link parse_ethertype point_ipv4 parse_network
    set_unknown_len parse_transport
parse_packet-version n b e v = ground arith

pub parse_packet-other :
    (n : ℕ) (b : Bytes)
    → u16 b 12 ≢ 0x0806
    → u16 b 12 ≢ 0x0800
    → ((parse_packet (raw_packet n 14 b)).1 ≡ pos 0)
      × ((parse_packet (raw_packet n 14 b)).0.arp ≡ none)
      × ((parse_packet (raw_packet n 14 b)).0.ipv4 ≡ none)
unfolding parse_packet clear_pointers parse_link parse_ethertype point_ipv4 parse_network
    set_unknown_len parse_transport
parse_packet-other n b e v = (ground arith, ground arith, ground arith)

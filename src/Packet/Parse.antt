-- ===== src/Packet/Parse.antt =====
-- packet.c: `parse_packet`.
use addressroutinggateway.Prelude.{
  ℕ, ◌+◌, ◌-◌, ◌*◌, ◌%◌, ◌^◌, Option, none, some, ℤ, pos, if◌then◌else◌, ◌==◌,
}
use addressroutinggateway.Settings.{arg_packet_parse_error}
use addressroutinggateway.Memory.{u16}
use addressroutinggateway.Packet.Header.{
  PacketData, ethhdr_size, ether_arp_size, udphdr_size, icmphdr_size, arg_hdr_len, eth_p_ip,
  eth_p_arp, icmp_proto, tcp_proto, udp_proto, arg_proto, ip_version, ip_ihl, ip_tot_len,
  ip_protocol, tcp_doff,
}

-- The assignments at the top of `parse_packet`.
unfoldable pub clear_pointers : PacketData → PacketData
clear_pointers p = record p {
  eth = none;
  ipv4 = none;
  udp = none;
  tcp = none;
  icmp = none;
  arp = none;
  arg = none;
  unknown_data = none;
  unknown_len = some 0;
}

-- `packet->ipv4` and the data behind its header.
unfoldable pub point_ipv4 : PacketData → PacketData
point_ipv4 p =
    let o = p.link_layer_len in
    record p { ipv4 = some o; unknown_data = some (o + ip_ihl p.data_bytes o * 4) }

-- The payload of an Ethernet frame, by `ntohs(packet->eth->h_proto)`.
unfoldable pub parse_ethertype : PacketData → ℕ → PacketData
unfolding point_ipv4
parse_ethertype p proto =
    if proto == eth_p_ip
    then point_ipv4 p
    else if proto == eth_p_arp
    then record p {
      arp = some p.link_layer_len;
      unknown_data = some (p.link_layer_len + ether_arp_size);
    }
    else p

-- The link layer: an Ethernet frame if it has the size of one, else bare IP.
unfoldable pub parse_link : PacketData → PacketData
unfolding point_ipv4 parse_ethertype
parse_link p =
    if ethhdr_size == p.link_layer_len
    then parse_ethertype (record p { eth = some 0 }) (u16 p.data_bytes 12)
    else point_ipv4 p

-- The `switch` on the protocol of an IP packet whose header is at o.
unfoldable pub parse_transport : PacketData → ℕ → PacketData
parse_transport p o =
    let start = o + ip_ihl p.data_bytes o * 4 in
    let proto = ip_protocol p.data_bytes o in
    if proto == arg_proto
    then record p { arg = some start; unknown_data = some (start + arg_hdr_len) }
    else if proto == tcp_proto
    then record p {
      tcp = some start;
      unknown_data = some (start + tcp_doff p.data_bytes start * 4);
    }
    else if proto == udp_proto
    then record p { udp = some start; unknown_data = some (start + udphdr_size) }
    else if proto == icmp_proto
    then record p { icmp = some start; unknown_data = some (start + icmphdr_size) }
    else record p { unknown_data = some start }

-- `packet->unknown_len`, an unsigned long.
unfoldable pub set_unknown_len : PacketData → PacketData
set_unknown_len p = record p {
  unknown_len = elim p.unknown_data [ none ↦ none | some u ↦ some ((p.len + 2 ^ 64 - u) % 2 ^ 64) ];
}

unfoldable pub parse_network : PacketData → Option ℕ → PacketData × ℤ
unfolding parse_transport set_unknown_len
parse_network p none = (set_unknown_len p, pos 0)
parse_network p (some o) =
    if ip_version p.data_bytes o == 4
    then (
      set_unknown_len
          (parse_transport (record p { len = p.link_layer_len + ip_tot_len p.data_bytes o }) o),
      pos 0,
    )
    else (p, arg_packet_parse_error)

unfoldable pub parse_packet : PacketData → PacketData × ℤ
unfolding clear_pointers parse_link parse_network
parse_packet p = let q = parse_link (clear_pointers p) in parse_network q q.ipv4

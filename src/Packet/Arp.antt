-- ===== src/Packet/Arp.antt =====
-- packet.c: `send_packet_on` and `send_arp_reply`. The fields of `struct ethhdr` at the start of a frame
-- and of `struct ether_arp` at offset a.
pub mod Replies
use addressroutinggateway.Prelude.{
  ℕ, ◌+◌, List, ◌∷◌, [], Option, none, some, ℤ, pos, negsuc, Bool, true, false, ◌==◌, if◌then◌else◌,
}
use addressroutinggateway.Settings.{enomem, arg_internal_error}
use addressroutinggateway.Memory.{Bytes, slice, write, put8, put16, u16}
use addressroutinggateway.Packet.Header.{
  PacketData, ethhdr_size, ether_arp_size, eth_p_arp, eth_p_ip,
}
use addressroutinggateway.Packet.Parse.{parse_packet}
use addressroutinggateway.Packet.Buffers.{create_packet, transmit}
use addressroutinggateway.World.{Run, pure, deref, ◌>>=◌, Env}

abbrev pub arpop_request : ℕ
arpop_request = 1

abbrev pub arpop_reply : ℕ
arpop_reply = 2

abbrev pub arphrd_ether : ℕ
arphrd_ether = 1

abbrev pub ar_op : Bytes → ℕ → ℕ
ar_op b a = u16 b (a + 6)

abbrev pub arp_sha : Bytes → ℕ → List ℕ
arp_sha b a = slice b (a + 8) 6

abbrev pub arp_spa : Bytes → ℕ → List ℕ
arp_spa b a = slice b (a + 14) 4

abbrev pub arp_tha : Bytes → ℕ → List ℕ
arp_tha b a = slice b (a + 18) 6

abbrev pub arp_tpa : Bytes → ℕ → List ℕ
arp_tpa b a = slice b (a + 24) 4

-- `h_proto`, `h_dest` and `h_source` of the reply.
unfoldable pub fill_eth : Bytes → List ℕ → List ℕ → Bytes
unfolding write put16
fill_eth b dest source = write (write (put16 b 12 eth_p_arp) 0 dest) 6 source

-- The ARP packet at a, from the assignment of `ar_hrd` on: our MAC, the address that was asked for, and
-- the MAC and the address of the sender of the request.
unfoldable pub fill_arp : Bytes → ℕ → List ℕ → List ℕ → List ℕ → List ℕ → Bytes
unfolding write put8 put16
fill_arp b a hwaddr asked sha spa =
    let b1 = put16 (put16 b a arphrd_ether) (a + 2) eth_p_ip in
    let b2 = put16 (put8 (put8 b1 (a + 4) 6) (a + 5) 4) (a + 6) arpop_reply in
    write (write (write (write b2 (a + 8) hwaddr) (a + 14) asked) (a + 18) sha) (a + 24) spa

module _ {T : Type 0} (env : Env) where
  -- On the device of an Ethernet frame the whole of it goes out, once there is a socket.
  abbrev pub send_frame : PacketData → Option ℕ → Run T ℤ
  send_frame p none = pure arg_internal_error
  send_frame p (some e) = transmit env (slice p.data_bytes 0 p.len)

  unfoldable pub send_packet_on : PacketData → Run T ℤ
  unfolding transmit slice
  send_packet_on p = send_frame p p.eth

  -- The reply to the request at a, in a new packet.
  abbrev pub reply_in : List ℕ → PacketData → ℕ → Option PacketData → Run T ℤ
  reply_in hwaddr p a none = pure enomem
  reply_in hwaddr p a (some q) = do
    let sha = arp_sha p.data_bytes a
    let reply =
        (parse_packet (record q {
          link_layer_len = ethhdr_size;
          data_bytes = fill_eth q.data_bytes sha hwaddr;
        })).0
    r ← deref reply.arp
    send_packet_on (record reply {
      data_bytes =
          fill_arp reply.data_bytes r hwaddr (arp_tpa p.data_bytes a) sha (arp_spa p.data_bytes a);
    })

  -- `ntohs(packet->arp->ea_hdr.ar_op) != ARPOP_REQUEST`
  abbrev pub reply_to : List ℕ → PacketData → Option ℕ → Run T ℤ
  reply_to hwaddr p none = pure (negsuc 0)
  reply_to hwaddr p (some a) =
      if ar_op p.data_bytes a == arpop_request
      then (do q ← create_packet env (ethhdr_size + ether_arp_size); reply_in hwaddr p a q)
      else pure (negsuc 0)

  unfoldable pub send_arp_reply : List ℕ → PacketData → Run T ℤ
  unfolding send_packet_on fill_eth fill_arp create_packet parse_packet u16 slice
  send_arp_reply hwaddr p = reply_to hwaddr p p.arp

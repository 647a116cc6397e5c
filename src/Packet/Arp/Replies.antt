-- ===== src/Packet/Arp/Replies.antt =====
-- packet.c: the frame with which `send_arp_reply` answers a request.
use addressroutinggateway.Prelude.{
  ◌-◌, ℕ, suc, ◌+◌, ◌<◌, ◌≡◌, refl, sym, ap, ◌∙◌, subst, List, ◌∷◌, some, ℤ, pos, ◌==◌, length,
  get_or, arith,
}
use addressroutinggateway.Memory.{
  list_ext, Bytes, slice, write, put8, put16, u16, length-slice, get_or-slice,
}
use addressroutinggateway.Packet.Header.{PacketData, eth_p_arp, eth_p_ip}
use addressroutinggateway.Packet.Parse.{
  parse_packet, clear_pointers, parse_link, parse_ethertype, point_ipv4, parse_network,
  set_unknown_len, parse_transport,
}
use addressroutinggateway.Packet.Buffers.{raw_packet, clear, transmit}
use addressroutinggateway.World.Keeps.{deref-keeps}
use addressroutinggateway.Packet.Allocate.{create_packet-done}
use addressroutinggateway.Packet.Reparse.{parse_packet-SameFrame}
use addressroutinggateway.World.{and_then, World, Outcome, done, null_dereference, deadlock, Env}
use addressroutinggateway.Packet.Arp.{
  true, arpop_request, arpop_reply, arphrd_ether, ar_op, arp_sha, arp_spa, arp_tha, arp_tpa,
  fill_eth, fill_arp, send_packet_on, reply_in, reply_to, send_arp_reply,
}

-- The frame b is the reply of the machine hwaddr to the request at a of p.
pub record IsReplyTo (p : Bytes) (a : ℕ) (hwaddr : List ℕ) (b : Bytes) : Type 0 where
  pub dest : slice b 0 6 ≡ arp_sha p a
  pub source : slice b 6 6 ≡ hwaddr
  pub proto : u16 b 12 ≡ eth_p_arp
  pub hardware : u16 b 14 ≡ arphrd_ether
  pub protocol : u16 b 16 ≡ eth_p_ip
  pub sizes : (b 18 ≡ 6) × (b 19 ≡ 4)
  pub op : ar_op b 14 ≡ arpop_reply
  pub sender : (arp_sha b 14 ≡ hwaddr) × (arp_spa b 14 ≡ arp_tpa p a)
  pub target : (arp_tha b 14 ≡ arp_sha p a) × (arp_tpa b 14 ≡ arp_spa p a)

-- A field that holds these bytes.
slice_is :
    (b : Bytes) (i n : ℕ) (xs : List ℕ)
    → length xs ≡ n
    → ((k : ℕ) → k < n → b (i + k) ≡ get_or xs k 0)
    → slice b i n ≡ xs
slice_is b i n xs len same = list_ext (slice b i n) xs (length-slice b i n ∙ sym len) λ k h.
    let inside : k < n = omega (arith, length-slice b i n) in
    get_or-slice b i n k inside ∙ same k inside

module _ (hwaddr asked sha spa : List ℕ) (six : length hwaddr ≡ 6) (four : length asked ≡ 4)
    (six' : length sha ≡ 6) (four' : length spa ≡ 4) (b : Bytes) where
  abbrev reply : Bytes
  reply = fill_arp (fill_eth b sha hwaddr) 14 hwaddr asked sha spa

  -- A place in a list that is reached from the start of its field.
  at_place : (xs : List ℕ) (i k : ℕ) → get_or xs (i + k - i) 0 ≡ get_or xs k 0
  at_place xs i k = ap (λ (t : ℕ). get_or xs t 0) {x = i + k - i} {y = k} (omega arith)

  dest_is : slice reply 0 6 ≡ sha
  unfolding fill_arp fill_eth write put8 put16
  dest_is =
      slice_is reply 0 6 sha six' λ k h. ground (arith, six, four, six', four', at_place sha 0 k)

  source_is : slice reply 6 6 ≡ hwaddr
  unfolding fill_arp fill_eth write put8 put16
  source_is =
      slice_is reply 6 6 hwaddr six
        λ k h. ground (arith, six, four, six', four', at_place hwaddr 6 k)

  numbers : (u16 reply 12 ≡ eth_p_arp) × (u16 reply 14 ≡ arphrd_ether) × (u16 reply 16 ≡ eth_p_ip)
  unfolding fill_arp fill_eth write put8 put16 u16
  numbers = (
    ground (arith, six, four, six', four'),
    ground (arith, six, four, six', four'),
    ground (arith, six, four, six', four'),
  )

  sizes_are : (reply 18 ≡ 6) × (reply 19 ≡ 4) × (ar_op reply 14 ≡ arpop_reply)
  unfolding fill_arp fill_eth write put8 put16 u16
  sizes_are = (
    ground (arith, six, four, six', four'),
    ground (arith, six, four, six', four'),
    ground (arith, six, four, six', four'),
  )

  sender_is : (arp_sha reply 14 ≡ hwaddr) × (arp_spa reply 14 ≡ asked)
  unfolding fill_arp fill_eth write put8 put16
  sender_is = (
    slice_is reply 22 6 hwaddr six
        (λ k h. ground (arith, six, four, six', four', at_place hwaddr 22 k)),
    slice_is reply 28 4 asked four
        (λ k h. ground (arith, six, four, six', four', at_place asked 28 k)),
  )

  target_is : (arp_tha reply 14 ≡ sha) × (arp_tpa reply 14 ≡ spa)
  unfolding fill_arp fill_eth write put8 put16
  target_is = (
    slice_is reply 32 6 sha six' (λ k h. ground (arith, six, four, six', four', at_place sha 32 k)),
    slice_is reply 38 4 spa four'
        (λ k h. ground (arith, six, four, six', four', at_place spa 38 k)),
  )

module _ (T : Type 0) (env : Env) (memory : ℕ → Bytes)
    (has_memory : (n : ℕ) → env.malloc n ≡ some (memory n)) (sends : (n : ℕ) → env.sendto n ≡ 0)
    (hwaddr : List ℕ) (six : length hwaddr ≡ 6) (p : PacketData) (a : ℕ) where
  -- Of the whole frame that went out last, the bytes are those of the reply.
  abbrev pub Replies : World T → Outcome T ℤ → Type 0
  Replies w (done ret v) =
      (ret ≡ pos 0)
      × (b : Bytes) × (v.sent ≡ slice b 0 42 ∷ w.sent)
      × IsReplyTo p.data_bytes a hwaddr b
  Replies w null_dereference = ⊥
  Replies w deadlock = ⊥

  abbrev answer : Bytes → Bytes
  answer b =
      fill_arp (fill_eth b (arp_sha p.data_bytes a) hwaddr) 14 hwaddr (arp_tpa p.data_bytes a)
        (arp_sha p.data_bytes a) (arp_spa p.data_bytes a)

  answer-IsReplyTo : (b : Bytes) → IsReplyTo p.data_bytes a hwaddr (answer b)
  answer-IsReplyTo b =
      let d = p.data_bytes in
      let six' = length-slice d (a + 8) 6 in
      let four = length-slice d (a + 24) 4 in
      let four' = length-slice d (a + 14) 4 in
      let ns = numbers hwaddr (arp_tpa d a) (arp_sha d a) (arp_spa d a) six four six' four' b in
      let zs = sizes_are hwaddr (arp_tpa d a) (arp_sha d a) (arp_spa d a) six four six' four' b in
      record {
        dest = dest_is hwaddr (arp_tpa d a) (arp_sha d a) (arp_spa d a) six four six' four' b;
        source = source_is hwaddr (arp_tpa d a) (arp_sha d a) (arp_spa d a) six four six' four' b;
        proto = ns.0;
        hardware = ns.1;
        protocol = ns.2;
        sizes = (zs.0, zs.1);
        op = zs.2;
        sender = sender_is hwaddr (arp_tpa d a) (arp_sha d a) (arp_spa d a) six four six' four' b;
        target = target_is hwaddr (arp_tpa d a) (arp_sha d a) (arp_spa d a) six four six' four' b;
      }

  -- The new packet, once its Ethernet header is filled in and parsed.
  parsed :
      (n : ℕ) (b : Bytes)
      → u16 b 12 ≡ eth_p_arp
      → ((parse_packet (raw_packet n 14 b)).0.arp ≡ some 14)
        × ((parse_packet (raw_packet n 14 b)).0.eth ≡ some 0)
        × ((parse_packet (raw_packet n 14 b)).0.len ≡ n)
  unfolding parse_packet clear_pointers parse_link parse_ethertype point_ipv4 parse_network
      set_unknown_len parse_transport
  parsed n b ether = ground arith

  -- A new packet of 42 bytes has this length after its first parse.
  created_len : (b : Bytes) → (parse_packet (raw_packet 42 0 (clear 42 b))).0.len ≡ 42
  unfolding parse_packet clear_pointers parse_link parse_ethertype point_ipv4 parse_network
      set_unknown_len parse_transport clear
  created_len b = refl

  replied-Replies :
      (q : PacketData) (w : World T) (b : Bytes)
      → q.len ≡ 42
      → q.arp ≡ some 14
      → q.eth ≡ some 0
      → q.data_bytes ≡ fill_eth b (arp_sha p.data_bytes a) hwaddr
      → Replies w (
          send_packet_on env
            (record q {
              data_bytes =
                  fill_arp q.data_bytes 14 hwaddr
                    (arp_tpa p.data_bytes a)
                    (arp_sha p.data_bytes a)
                    (arp_spa p.data_bytes a);
            })
            w)
  unfolding send_packet_on transmit
  replied-Replies q w b len arp eth bytes =
      rw (eth, len, bytes, sends w.sends) (refl, answer b, refl, answer-IsReplyTo b)

  fill_eth-proto :
      (b : Bytes) (sha : List ℕ) → length sha ≡ 6 → u16 (fill_eth b sha hwaddr) 12 ≡ eth_p_arp
  unfolding fill_eth write put16 u16
  fill_eth-proto b sha six' = ground (arith, six, six')

  reply_in-Replies :
      (q : PacketData) (w : World T) → q.len ≡ 42 → Replies w (reply_in env hwaddr p a (some q) w)
  unfolding parse_packet
  reply_in-Replies q w len =
      let filled = record q {
        link_layer_len = 14;
        data_bytes = fill_eth q.data_bytes (arp_sha p.data_bytes a) hwaddr;
      } in
      let (arp, eth, same_len) = parsed q.len filled.data_bytes (
        fill_eth-proto q.data_bytes (arp_sha p.data_bytes a)
          (length-slice p.data_bytes (a + 8) 6)) in
      deref-keeps (Replies w) (parse_packet filled).0.arp 14 w _ arp (
        replied-Replies (parse_packet filled).0 w q.data_bytes (same_len ∙ len) arp eth
          (parse_packet-SameFrame filled).1)

  -- `send_arp_reply` answers a request: where there is memory and the frame can be sent, it succeeds, and
  -- the last that was sent is a frame of 42 bytes, from the machine to the one that asked, with an ARP
  -- reply that names the machine's hardware address for the address that was asked for.
  pub send_arp_reply-Replies :
      (w : World T)
      → p.arp ≡ some a
      → ar_op p.data_bytes a ≡ arpop_request
      → Replies w (send_arp_reply env hwaddr p w)
  unfolding send_arp_reply
  send_arp_reply-Replies w here request =
      let asks : (ar_op p.data_bytes a == arpop_request) ≡ true = ground (arith, request) in
      let block = clear 42 (memory (suc w.allocs)) in
      subst (λ x. Replies w (reply_to env hwaddr p x w)) (sym here)
        (rw asks (
          subst (λ o. Replies w (and_then o (reply_in env hwaddr p a)))
            (sym (create_packet-done T env memory has_memory 42 w (omega arith)))
            (reply_in-Replies (parse_packet (raw_packet 42 0 block)).0
              (record w { allocs = suc (suc w.allocs) }) (created_len (memory (suc w.allocs))))))

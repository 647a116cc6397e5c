-- ===== src/Packet/Buffers.antt =====
-- packet.c: making, copying and sending packets. `free_packet` gives memory back and is not seen.
use addressroutinggateway.Prelude.{
  ℕ, zero, suc, List, ◌∷◌, Option, none, some, ℤ, pos, neg, ltb, ◌==◌, if◌then◌else◌,
}
use addressroutinggateway.Memory.{Bytes, slice, copy}
use addressroutinggateway.Packet.Header.{PacketData, ip_tot_len}
use addressroutinggateway.Packet.Parse.{parse_packet}
use addressroutinggateway.World.{done, Run, pure, deref, ◌>>=◌, Env, malloc}

-- A structure whose pointers are set by the parse that follows.
abbrev pub raw_packet : ℕ → ℕ → Bytes → PacketData
raw_packet len link b = record {
  len = len;
  link_layer_len = link;
  eth = none;
  ipv4 = none;
  tcp = none;
  udp = none;
  icmp = none;
  arp = none;
  arg = none;
  unknown_data = none;
  unknown_len = some 0;
  data_bytes = b;
}

-- What `calloc(len, 1)` clears.
unfoldable pub clear : ℕ → Bytes → Bytes
clear len b j = if ltb j len then 0 else b j

module _ {T : Type 0} (env : Env) where
  -- The result of the second allocation, `data`.
  abbrev pub create_with : ℕ → Option Bytes → Run T (Option PacketData)
  create_with len none = pure none
  create_with len (some b) = pure (some (parse_packet (raw_packet len 0 (clear len b))).0)

  abbrev pub create_data : ℕ → Option Bytes → Run T (Option PacketData)
  create_data len none = pure none
  create_data zero (some s) = pure (some (parse_packet (raw_packet 0 0 s)).0)
  create_data (suc n) (some s) = do b ← malloc env; create_with (suc n) b

  unfoldable pub create_packet : ℕ → Run T (Option PacketData)
  unfolding malloc clear
  create_packet len = do s ← malloc env; create_data len s

  abbrev pub copy_with : PacketData → Option Bytes → Run T (Option PacketData)
  copy_with p none = pure none
  copy_with p (some b) =
      pure (some (parse_packet (raw_packet p.len p.link_layer_len (copy p.len p.data_bytes b))).0)

  abbrev pub copy_data : PacketData → Option Bytes → Run T (Option PacketData)
  copy_data p none = pure none
  copy_data p (some s) = do b ← malloc env; copy_with p b

  unfoldable pub copy_packet : PacketData → Run T (Option PacketData)
  unfolding malloc
  copy_packet p = do s ← malloc env; copy_data p s

  -- `sendto`: the bytes leave if there is no error.
  unfoldable pub transmit : List ℕ → Run T ℤ
  transmit bytes w =
      let code = env.sendto w.sends in
      if code == 0
      then done (pos 0) (record w { sends = suc w.sends; sent = bytes ∷ w.sent })
      else done (neg code) (record w { sends = suc w.sends })

  -- The header is read for the destination before it is tested, so it is never NULL at the test.
  unfoldable pub send_packet : PacketData → Run T ℤ
  unfolding transmit
  send_packet p = do
    o ← deref p.ipv4
    transmit (slice p.data_bytes p.link_layer_len (ip_tot_len p.data_bytes o))

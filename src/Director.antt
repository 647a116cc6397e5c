-- ===== src/Director.antt =====
-- director.c: what becomes of a frame that was received, from outside and from inside.
pub mod Loop
pub mod Turns
pub mod Thread
use addressroutinggateway.Prelude.{
  ℕ, Bool, true, false, Option, none, some, ℤ, is_neg, is_zero, if◌then◌else◌,
}
use addressroutinggateway.Packet.{PacketData, parse_packet}
use addressroutinggateway.Packet.Buffers.{raw_packet}
use addressroutinggateway.Memory.{Bytes}
use addressroutinggateway.World.{Run, pure, deref, gets, ◌>>=◌, ◌>>◌, Env, read_gate}
use addressroutinggateway.Hopper.Address.{is_valid_ip}
use addressroutinggateway.Hopper.Networks.{get_arg_network}
use addressroutinggateway.Hopper.Admin.{
  note_bad_ip, note_good_ip, is_valid_local_ip, process_admin_msg, do_arg_wrap, do_arg_unwrap,
}
use addressroutinggateway.Protocol.Message.{is_admin_msg}
use addressroutinggateway.Nat.{
  HashTable, Bucket, saddr, daddr, do_nat_inbound_rewrite, do_nat_outbound_rewrite,
}

-- What a handler logs of a packet by `arglog_result`, which says that it was dropped: the reason, or
-- the module whose call failed, with its error code.
pub data Drop : Type 0 where
  bad_protocol gateway_not_connected dest_ip_incorrect source_ip_incorrect : Drop
  admin_error hopper_error nat_error : ℤ → Drop

-- `if((ret = ...) < 0)`
abbrev pub drop_if : (ℤ → Drop) → ℤ → Option Drop
drop_if reason ret = if is_neg ret then some (reason ret) else none

module _ (h : HashTable Bucket) (env : Env) where
  open h use {Table}

  -- An admin message from a known gateway.
  abbrev pub admin_inbound : PacketData → ℕ → Run Table (Option Drop)
  admin_inbound p r = do ret ← process_admin_msg env p r; pure (drop_if admin_error ret)

  abbrev pub unwrap_inbound : PacketData → ℕ → Bool → Run Table (Option Drop)
  unwrap_inbound p r false = do note_bad_ip r; pure (some source_ip_incorrect)
  unwrap_inbound p r true = do
    note_good_ip r
    ret ← do_arg_unwrap env p r
    pure (drop_if hopper_error ret)

  abbrev pub check_source : PacketData → ℕ → ℕ → Bool → Run Table (Option Drop)
  check_source p o r false = do note_bad_ip r; pure (some dest_ip_incorrect)
  check_source p o r true = do valid ← is_valid_ip env r (saddr p o); unwrap_inbound p r valid

  abbrev pub check_dest : PacketData → ℕ → ℕ → Bool → Run Table (Option Drop)
  check_dest p o r false = pure (some gateway_not_connected)
  check_dest p o r true = do valid ← is_valid_local_ip env (daddr p o); check_source p o r valid

  abbrev pub wrapped_inbound : PacketData → ℕ → ℕ → Run Table (Option Drop)
  wrapped_inbound p o r = do gate ← read_gate r; check_dest p o r gate.connected

  abbrev pub arg_inbound : PacketData → ℕ → ℕ → Option ℕ → Run Table (Option Drop)
  arg_inbound p o r none = pure (some bad_protocol)
  arg_inbound p o r (some a) =
      if is_admin_msg p.data_bytes a then admin_inbound p r else wrapped_inbound p o r

  abbrev pub inbound_from : PacketData → ℕ → Option ℕ → Run Table (Option Drop)
  inbound_from p o (some r) = arg_inbound p o r p.arg
  inbound_from p o none = do ret ← do_nat_inbound_rewrite h env p; pure (drop_if nat_error ret)

  -- A packet on the external device.
  unfoldable pub direct_inbound : PacketData → Run Table (Option Drop)
  direct_inbound p = do
    o ← deref p.ipv4
    gate ← gets (get_arg_network (saddr p o))
    inbound_from p o gate

  abbrev pub outbound_to : PacketData → Option ℕ → Run Table (Option Drop)
  outbound_to p (some r) = do ret ← do_arg_wrap env p r; pure (drop_if hopper_error ret)
  outbound_to p none = do ret ← do_nat_outbound_rewrite h env p; pure (drop_if nat_error ret)

  -- A packet on the internal device.
  unfoldable pub direct_outbound : PacketData → Run Table (Option Drop)
  direct_outbound p = do
    o ← deref p.ipv4
    gate ← gets (get_arg_network (daddr p o))
    outbound_to p gate

-- The outcome of one frame in the loop of `receive_thread`: not parsed, an ARP packet (to
-- be answered by `send_arp_reply`), neither ARP nor IP, or given to the handler.
pub data Received : Type 0 where
  unparsed ignored : Received
  arp_request : PacketData → Received
  handled : PacketData → Received

abbrev pub received_ip : PacketData → Option ℕ → Received
received_ip p none = ignored
received_ip p (some o) = handled p

abbrev pub received_arp : PacketData → Option ℕ → Received
received_arp p (some o) = arp_request p
received_arp p none = received_ip p p.ipv4

-- `caplen` bytes from the wire, behind a link layer of the given size.
unfoldable pub receive_frame : ℕ → ℕ → Bytes → Received
unfolding parse_packet
receive_frame link_layer_size caplen b =
    let (p, ret) = parse_packet (raw_packet caplen link_layer_size b) in
    if is_zero ret then received_arp p p.arp else unparsed

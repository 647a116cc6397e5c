-- ===== src/Protocol/Wrapped.antt =====
-- protocol.c: `send_arg_wrapped` and `process_arg_wrapped`, the tunnel for ordinary packets.
use addressroutinggateway.Prelude.{
  ℕ, ◌+◌, ◌-◌, ◌%◌, Bool, true, false, Option, none, some, ℤ, is_zero, if◌then◌else◌,
}
use addressroutinggateway.Settings.{enomem, arg_not_connected}
use addressroutinggateway.Memory.{slice, write}
use addressroutinggateway.Packet.{PacketData, parse_packet}
use addressroutinggateway.Packet.Buffers.{create_packet, send_packet}
use addressroutinggateway.World.{Run, pure, deref, ◌>>=◌, ◌>>◌, Env, read_gate, lock, unlock}
use addressroutinggateway.Protocol.Message.{ArgMsg, arg_wrapped_msg}
use addressroutinggateway.Protocol.Create.{create_arg_packet}
use addressroutinggateway.Protocol.Receive.{process_arg_packet}

-- `msg.len = packet->len - packet->linkLayerLen`, a uint16_t, and the data behind the link layer.
unfoldable pub inner_message : PacketData → ArgMsg
inner_message p = record {
  len = (p.len + 65536 - p.link_layer_len % 65536) % 65536;
  msg_bytes = λ j. p.data_bytes (p.link_layer_len + j);
}

-- The packet with the message in it, parsed again.
unfoldable pub fill_packet : ArgMsg → PacketData → PacketData
fill_packet msg p =
    (parse_packet
      (record p { data_bytes = write p.data_bytes 0 (slice msg.msg_bytes 0 msg.len) })).0

module _ {T : Type 0} (env : Env) where
  -- When the packet cannot be created, the function returns and leaves the mutex locked.
  abbrev pub send_wrapped : ℕ → ℤ × Option PacketData → Run T ℤ
  send_wrapped r (ret, none) = pure ret
  send_wrapped r (ret, some p) = do sent ← send_packet env p; unlock r; pure sent

  abbrev pub wrap_connected : ℕ → ℕ → PacketData → Bool → Run T ℤ
  wrap_connected l r p false = do unlock r; pure arg_not_connected
  wrap_connected l r p true = do
    created ← create_arg_packet env l r arg_wrapped_msg (some (inner_message p))
    send_wrapped r created

  unfoldable pub send_arg_wrapped : ℕ → ℕ → PacketData → Run T ℤ
  send_arg_wrapped l r p = do lock r; remote ← read_gate r; wrap_connected l r p remote.connected

  abbrev pub forward : ℕ → ArgMsg → Option PacketData → Run T ℤ
  forward r msg none = do unlock r; pure enomem
  forward r msg (some p) = do ret ← send_packet env (fill_packet msg p); unlock r; pure ret

  abbrev pub unwrap_message : ℕ → ℤ × Option ArgMsg → Run T ℤ
  unwrap_message r (ret, msg) =
      if is_zero ret
      then (do m ← deref msg; p ← create_packet env m.len; forward r m p)
      else (do unlock r; pure ret)

  abbrev pub unwrap_connected : ℕ → ℕ → PacketData → Bool → Run T ℤ
  unwrap_connected l r p false = do unlock r; pure arg_not_connected
  unwrap_connected l r p true = do
    received ← process_arg_packet env l r p
    unwrap_message r received

  unfoldable pub process_arg_wrapped : ℕ → ℕ → PacketData → Run T ℤ
  process_arg_wrapped l r p = do
    lock r
    remote ← read_gate r
    unwrap_connected l r p remote.connected

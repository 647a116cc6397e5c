-- ===== src/Protocol/Connect.antt =====
-- protocol.c: the exchange of connection data.
use addressroutinggateway.Prelude.{
  ℕ, Bool, true, false, Option, none, some, ℤ, pos, is_zero, is_neg, ◌==◌, if◌then◌else◌,
}
use addressroutinggateway.Settings.{
  enomem, arg_msg_size_bad, aes_key_size, aes_block_size, hop_key_size,
}
use addressroutinggateway.Memory.{Bytes, u32, slice, write, put32}
use addressroutinggateway.Utility.Time.{Timespec}
use addressroutinggateway.Packet.{PacketData}
use addressroutinggateway.World.{
  Run, pure, deref, ◌>>=◌, ◌>>◌, Env, Gate, read_gate, update_gate, update_proto, lock, unlock,
  current_time,
}
use addressroutinggateway.Protocol.Message.{
  ArgMsg, arg_conn_data_req_msg, arg_conn_data_resp_msg, conn_data_size, create_arg_msg,
}
use addressroutinggateway.Protocol.Create.{send_arg_packet}
use addressroutinggateway.Protocol.Receive.{process_arg_packet}

-- Offsets in `struct arg_conn_data`.
abbrev pub iv_offset : ℕ
iv_offset = 32

abbrev pub hop_key_offset : ℕ
hop_key_offset = 48

abbrev pub hop_interval_offset : ℕ
hop_interval_offset = 64

-- The connection data of the local gateway.
unfoldable pub conn_data : Gate → Bytes → Bytes
conn_data g b =
    put32 (write (write (write b 0 g.sym_key) iv_offset g.iv) hop_key_offset g.hop_key)
      hop_interval_offset g.hop_interval

-- What the structure of the remote gateway takes from connection data, at a time.
unfoldable pub accept_conn_data : Bytes → Timespec → Gate → Gate
accept_conn_data b now g = record g {
  sym_key = slice b 0 aes_key_size;
  iv = slice b iv_offset aes_block_size;
  hop_key = slice b hop_key_offset hop_key_size;
  hop_interval = u32 b hop_interval_offset;
  cipher_key = slice b 0 aes_key_size;
  last_data_update = now;
  connected = if g.proto.time_base_available then true else g.connected;
  proto = record g.proto { conn_data_available = true };
}

module _ {T : Type 0} (env : Env) where
  abbrev pub note_attempt : ℕ → Bool → Run T (Unit {0})
  note_attempt r true = do
    now ← current_time env
    update_proto r (λ s. record s { last_conn_attempt_time = now })
  note_attempt r false = pure tt

  abbrev pub send_conn_with : ℕ → ℕ → Bool → Option ArgMsg → Run T ℤ
  send_conn_with l r is_response none = pure enomem
  send_conn_with l r is_response (some msg) = do
    lock l
    local ← read_gate l
    unlock l
    ret ←
        send_arg_packet env l r
          (if is_response then arg_conn_data_resp_msg else arg_conn_data_req_msg)
          (some (record msg { msg_bytes = conn_data local msg.msg_bytes }))
    lock r
    note_attempt r (is_zero ret)
    unlock r
    pure ret

  unfoldable pub send_arg_conn_data : ℕ → ℕ → Bool → Run T ℤ
  send_arg_conn_data l r is_response = do
    msg ← create_arg_msg env conn_data_size
    send_conn_with l r is_response msg

  abbrev pub conn_sized : ℕ → ArgMsg → Bool → Run T ℤ
  conn_sized r msg false = pure arg_msg_size_bad
  conn_sized r msg true = do
    lock r
    now ← current_time env
    update_gate r (accept_conn_data msg.msg_bytes now)
    unlock r
    update_proto r (λ s. record s { send_ping = true; send_trust = true })
    pure (pos 0)

  abbrev pub conn_message : ℕ → ℤ × Option ArgMsg → Run T ℤ
  conn_message r (ret, msg) =
      if is_zero ret then (do m ← deref msg; conn_sized r m (m.len == conn_data_size)) else pure ret

  unfoldable pub process_arg_conn_data_resp : ℕ → ℕ → PacketData → Run T ℤ
  process_arg_conn_data_resp l r p = do
    received ← process_arg_packet env l r p
    conn_message r received

  abbrev pub after_reply : ℕ → ℤ → Run T ℤ
  after_reply r ret =
      if is_neg ret
      then pure ret
      else (do update_proto r (λ s. record s { send_ping = true; send_trust = true }); pure ret)

  abbrev pub reply_conn_data : ℕ → ℕ → ℤ → Run T ℤ
  reply_conn_data l r ret =
      if is_neg ret then pure ret else (do sent ← send_arg_conn_data l r true; after_reply r sent)

  unfoldable pub process_arg_conn_data_req : ℕ → ℕ → PacketData → Run T ℤ
  process_arg_conn_data_req l r p = do
    ret ← process_arg_conn_data_resp l r p
    reply_conn_data l r ret

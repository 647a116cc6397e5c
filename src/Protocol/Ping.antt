-- ===== src/Protocol/Ping.antt =====
-- protocol.c: `send_arg_ping` and `process_arg_ping`, the synchronisation of the time bases.
use addressroutinggateway.Prelude.{
  ℕ, ◌-◌, ◌%◌, ◌^◌, Bool, true, false, Option, none, some, ℤ, pos, ltb_ℤ, ◌+ℤ◌, ◌-ℤ◌, scale, quot,
  to_int, to_unsigned, ◌==◌, is_zero, if◌then◌else◌,
}
use addressroutinggateway.Settings.{enomem, arg_msg_size_bad}
use addressroutinggateway.Memory.{Bytes, u32, put32}
use addressroutinggateway.Utility.Time.{Timespec, time_offset, time_plus}
use addressroutinggateway.Packet.{PacketData}
use addressroutinggateway.World.{
  Run, pure, deref, ◌>>=◌, ◌>>◌, Env, Gate, read_gate, update_gate, update_proto, lock, unlock,
  current_time, current_time_offset, get_random_bytes,
}
use addressroutinggateway.Nat.{le_number}
use addressroutinggateway.Protocol.Message.{ArgMsg, arg_ping_msg, ping_data_size, create_arg_msg}
use addressroutinggateway.Protocol.Create.{send_arg_packet}
use addressroutinggateway.Protocol.Receive.{process_arg_packet}

-- `struct arg_ping_data`
abbrev pub request_id : Bytes → ℕ
request_id b = u32 b 0

abbrev pub response_id : Bytes → ℕ
response_id b = u32 b 4

abbrev pub time_offset_field : Bytes → ℕ
time_offset_field b = u32 b 8

abbrev pub put_ping : ℕ → ℕ → ℕ → Bytes → Bytes
put_ping request response offset b = put32 (put32 (put32 b 0 request) 4 response) 8 offset

-- `-ntohl(data->timeOffset) - latency`, passed as an `int`: the negation is unsigned.
unfoldable pub base_shift : ℕ → ℤ → ℤ
base_shift offset latency = to_int (pos ((2 ^ 32 - offset) % 2 ^ 32) -ℤ latency)

-- The time base after a response that gives newBase, for the difference diff of the two.
unfoldable pub average_base : Timespec → Timespec → ℤ → Timespec
average_base base new_base diff =
    if ltb_ℤ (pos 0) base.tv_sec then time_plus base (quot diff 2) else new_base

-- `latency * .75 + latency * .25`, which is exact in a double for any latency that occurs.
unfoldable pub average_latency : ℤ → ℤ → ℤ
average_latency old latency = if ltb_ℤ (pos 0) old then quot (scale 3 old +ℤ latency) 4 else latency

-- `diff = remote->proto.latency - latency; if(diff < 0) diff = -diff;`
unfoldable pub latency_change : ℤ → ℤ → ℤ
latency_change average latency =
    let diff = to_int (average -ℤ latency) in if ltb_ℤ diff (pos 0) then pos 0 -ℤ diff else diff

-- The structure of the remote gateway after a response that was accepted.
unfoldable pub accept_response : Timespec → ℤ → Gate → Gate
unfolding average_base average_latency latency_change
accept_response new_base latency g =
    let diff = to_int (time_offset g.time_base new_base) in
    let average = average_latency g.proto.latency latency in
    let again = ltb_ℤ (quot average 4) (latency_change average latency) in
    record g {
      time_base = average_base g.time_base new_base diff;
      connected = if g.proto.conn_data_available then true else g.connected;
      proto = record g.proto {
        latency = average;
        send_ping = if again then true else g.proto.send_ping;
        time_base_available = true;
      };
    }

module _ {T : Type 0} (env : Env) where
  abbrev pub send_ping_with : ℕ → ℕ → Option ArgMsg → Run T ℤ
  send_ping_with l r none = pure enomem
  send_ping_with l r (some msg) = do
    lock r
    id ← get_random_bytes env 4
    update_proto r (λ s. record s { sent_ping_id = le_number id })
    local ← read_gate l
    offset ← current_time_offset env local.time_base
    now ← current_time env
    update_proto r (λ s. record s { ping_sent_time = now })
    ret ← send_arg_packet env l r arg_ping_msg (
        some (record msg {
          msg_bytes = put_ping (le_number id) 0 (to_unsigned 32 offset) msg.msg_bytes;
        }))
    unlock r
    pure ret

  unfoldable pub send_arg_ping : ℕ → ℕ → Run T ℤ
  send_arg_ping l r = do msg ← create_arg_msg env ping_data_size; send_ping_with l r msg

  abbrev pub answer : ℕ → Bytes → Gate → Bool → Bool → Run T (Unit {0})
  answer r b remote true same = pure tt
  answer r b remote false false = pure tt
  answer r b remote false true = do
    round_trip ← current_time_offset env remote.proto.ping_sent_time
    now ← current_time env
    let latency = quot round_trip 2
    update_gate r
        (accept_response (time_plus now (base_shift (time_offset_field b) latency)) latency)

  -- "Is this a response to a ping?"
  unfoldable pub take_response : ℕ → Bytes → Run T (Unit {0})
  unfolding accept_response current_time_offset current_time base_shift
  take_response r b = do
    remote ← read_gate r
    answer r b remote (response_id b == 0) (remote.proto.sent_ping_id == response_id b)

  -- `if(!data->responseID)`, tested after `responseID` has become the request's nonzero ID.
  abbrev pub next_request : ℕ → Bool → Run T ℕ
  next_request r true = do
    id ← get_random_bytes env 4
    update_proto r (λ s. record s { sent_ping_id = le_number id })
    pure (le_number id)
  next_request r false = pure 0

  abbrev pub respond : ℕ → ℕ → ArgMsg → Bool → Run T ℤ
  respond l r msg true = pure (pos 0)
  respond l r msg false = do
    local ← read_gate l
    offset ← current_time_offset env local.time_base
    let response = request_id msg.msg_bytes
    request ← next_request r (response == 0)
    send_arg_packet env l r arg_ping_msg (
        some (record msg {
          msg_bytes = put_ping request response (to_unsigned 32 offset) msg.msg_bytes;
        }))

  abbrev pub ping_sized : ℕ → ℕ → ArgMsg → Bool → Run T ℤ
  ping_sized l r msg false = pure arg_msg_size_bad
  ping_sized l r msg true = do
    lock r
    take_response r msg.msg_bytes
    ret ← respond l r msg (request_id msg.msg_bytes == 0)
    unlock r
    pure ret

  abbrev pub ping_message : ℕ → ℕ → ℤ × Option ArgMsg → Run T ℤ
  ping_message l r (ret, msg) =
      if is_zero ret
      then (do m ← deref msg; ping_sized l r m (m.len == ping_data_size))
      else pure ret

  unfoldable pub process_arg_ping : ℕ → ℕ → PacketData → Run T ℤ
  process_arg_ping l r p = do received ← process_arg_packet env l r p; ping_message l r received

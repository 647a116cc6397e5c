-- ===== src/Tests/Sending.antt =====
-- Runs of `send_arg_wrapped` on a packet of the tests, with memory and without.
use addressroutinggateway.Prelude.{arith, ℤ, Option, some}
use addressroutinggateway.World.{Outcome}
use addressroutinggateway.Packet.{PacketData}
use addressroutinggateway.Protocol.Message.{ArgMsg, arg_wrapped_msg}
use addressroutinggateway.Protocol.Fields.{HasHeaders}
use addressroutinggateway.Protocol.Headers.{create_arg_packet-HasHeaders}
use addressroutinggateway.Tests.Setting.{at, local, peer}
use addressroutinggateway.Packet.Buffers.{create_packet}
use addressroutinggateway.Protocol.Create.{create_arg_packet}
use addressroutinggateway.Prelude.{◌≡◌, refl, pos, none, true}
use addressroutinggateway.World.{lock, World, done, Env}
use addressroutinggateway.World.Keeps.{state_of}
use addressroutinggateway.Protocol.Wrapped.{send_arg_wrapped}
use addressroutinggateway.Security.Mutex.{Wraps, send_arg_wrapped-Wraps}
use addressroutinggateway.Protocol.Create.{
  full_len, fill_ip, set_lengths, encrypt_symmetric, fill_header, encrypt_public, sign,
}
use addressroutinggateway.Protocol.Wrapped.{inner_message}
use addressroutinggateway.Packet.{parse_packet}
use addressroutinggateway.Memory.{u16, put16, put8, put32, slice, write}
use addressroutinggateway.Hopper.Address.{generate_ip_corrected, address_at, or_unmasked}
use addressroutinggateway.World.{update_proto, current_time, malloc, set_gate, unlock, update_gate}
use addressroutinggateway.Protocol.Cipher.{cipher_bytes, make_nounce, xor_front}
use addressroutinggateway.Packet.Buffers.{send_packet}
use addressroutinggateway.Utility.Time.{time_offset}
use addressroutinggateway.Crypto.{hotp, le_bytes, totp, truncate_hmac}
use addressroutinggateway.Prelude.{quot, scale, to_unsigned, ◌+ℤ◌, ◌-ℤ◌}
use addressroutinggateway.Packet.Buffers.{clear}
use addressroutinggateway.Packet.Buffers.{transmit}
use addressroutinggateway.Packet.{clear_pointers}
use addressroutinggateway.Packet.{parse_ethertype}
use addressroutinggateway.Packet.{parse_link}
use addressroutinggateway.Packet.{parse_network}
use addressroutinggateway.Packet.{parse_transport}
use addressroutinggateway.Packet.{point_ipv4}
use addressroutinggateway.Packet.{set_unknown_len}
use addressroutinggateway.Protocol.Cipher.{cipher_loop}
use addressroutinggateway.Tests.Setting.{env, table, start, to_outside}

abbrev after_wrapping : World table.Table
after_wrapping = state_of start (send_arg_wrapped env 0 1 to_outside start)

wrapping : send_arg_wrapped env 0 1 to_outside start ≡ done (pos 0) after_wrapping
unfolding send_arg_wrapped lock create_arg_packet create_packet full_len inner_message parse_packet
    u16 generate_ip_corrected fill_ip put16 put8 update_proto set_lengths encrypt_symmetric
    cipher_bytes fill_header hotp le_bytes totp truncate_hmac address_at or_unmasked put32 slice
    write clear send_packet transmit clear_pointers parse_ethertype parse_link parse_network
    parse_transport point_ipv4 set_unknown_len quot scale to_unsigned ◌+ℤ◌ ◌-ℤ◌ cipher_loop
    make_nounce xor_front encrypt_public sign time_offset current_time malloc set_gate unlock
    update_gate
wrapping = refl

send_arg_wrapped-Wraps_example : Wraps table.Table env 0 1 to_outside start after_wrapping
send_arg_wrapped-Wraps_example =
    send_arg_wrapped-Wraps table.Table env 0 1 to_outside start after_wrapping (pos 0) wrapping

abbrev no_memory : Env
no_memory = record env { malloc = λ n. none }

-- Without memory for the packet the mutex of the gateway stays taken.
left_locked : (state_of start (send_arg_wrapped no_memory 0 1 to_outside start)).locked 1 ≡ true
unfolding send_arg_wrapped lock create_arg_packet create_packet
left_locked = refl

abbrev datagram : ArgMsg
datagram = inner_message to_outside

abbrev creation : Outcome table.Table (ℤ × Option PacketData)
creation = create_arg_packet env 0 1 arg_wrapped_msg (some datagram) start

abbrev created_packet : Outcome table.Table (ℤ × Option PacketData) → PacketData
created_packet (done (x, some q) v) = q
created_packet o = to_outside

creating : creation ≡ done (pos 0, some (created_packet creation)) (state_of start creation)
unfolding create_arg_packet create_packet full_len inner_message parse_packet u16
    generate_ip_corrected fill_ip put16 put8 update_proto set_lengths encrypt_symmetric cipher_bytes
    fill_header hotp le_bytes totp truncate_hmac address_at or_unmasked put32 slice write clear
    clear_pointers parse_ethertype parse_link parse_network parse_transport point_ipv4
    set_unknown_len quot scale to_unsigned ◌+ℤ◌ ◌-ℤ◌ cipher_loop make_nounce xor_front
    encrypt_public sign time_offset current_time malloc set_gate update_gate
creating = refl

create_arg_packet-HasHeaders_example :
    HasHeaders
      (address_at env local (pos 0) (at 100 0))
      (address_at env peer (pos 0) (at 100 1000000))
      arg_wrapped_msg
      1
      (created_packet creation)
create_arg_packet-HasHeaders_example =
    create_arg_packet-HasHeaders env table.Table 0 1 arg_wrapped_msg (omega arith) (some datagram)
      start refl refl (omega arith) (created_packet creation) (pos 0) (state_of start creation)
      creating

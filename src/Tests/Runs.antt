-- ===== src/Tests/Runs.antt =====
-- Runs of the program on the packets of the tests, and the theorems that are about such runs.
use addressroutinggateway.Utility.Mask.{mask_array_cmp}
use addressroutinggateway.Packet.Buffers.{copy_packet}
use addressroutinggateway.Memory.{slice, write, u16, copy, u32}
use addressroutinggateway.Packet.{parse_packet}
use addressroutinggateway.Prelude.{◌⊎◌, arith, ◌≡◌, refl, pos, none, some, ℤ, Option}
use addressroutinggateway.Settings.{arg_seq_bad}
use addressroutinggateway.World.Keeps.{state_of}
use addressroutinggateway.World.{unlock, lock, set_gate, update_proto, World, Outcome, done}
use addressroutinggateway.Packet.Buffers.{create_packet, send_packet}
use addressroutinggateway.Protocol.Cipher.{cipher_bytes}
use addressroutinggateway.Protocol.Message.{is_admin_msg, create_arg_msg, create_arg_msg, ArgMsg}
use addressroutinggateway.Protocol.Receive.{
  decrypt, decrypt, hmac_matches, clear_sig, verify, check_seq, process_arg_packet,
}
use addressroutinggateway.Protocol.Wrapped.{fill_packet, process_arg_wrapped}
use addressroutinggateway.Security.Tunnel.{PassesOn, process_arg_wrapped-PassesOn}
use addressroutinggateway.Security.Replay.{process_arg_packet-replay}
use addressroutinggateway.Security.Authentic.{IsAuthentic}
use addressroutinggateway.Crypto.{le_bytes, totp}
use addressroutinggateway.Hopper.Address.{is_valid_ip, address_at, or_unmasked}
use addressroutinggateway.Hopper.Admin.{is_valid_local_ip, note_good_ip, do_arg_unwrap}
use addressroutinggateway.Director.{direct_inbound}
use addressroutinggateway.Hopper.Networks.{get_arg_network}
use addressroutinggateway.Nat.{saddr}
use addressroutinggateway.Security.Inbound.{IsAdmitted, direct_inbound-IsAdmitted}
use addressroutinggateway.Security.Signed.{process_arg_packet-IsAuthentic}
use addressroutinggateway.Tests.Setting.{
  bytes_of, tunnelled_bytes, env, table, start, peer, tunnelled,
}

abbrev value_of : {T A : Type 0} → A → Outcome T A → A
value_of x (done a w) = a
value_of x y = x

abbrev after_unwrapping : World table.Table
after_unwrapping = state_of start (process_arg_wrapped env 0 1 tunnelled start)

abbrev after_receiving : World table.Table
after_receiving = state_of start (process_arg_packet env 0 1 tunnelled start)

abbrev received : ℤ × Option ArgMsg
received = value_of (arg_seq_bad, none) (process_arg_packet env 0 1 tunnelled start)

-- The packet in the tunnel is taken out and sent.
unwrapping : process_arg_wrapped env 0 1 tunnelled start ≡ done (pos 0) after_unwrapping
unfolding process_arg_wrapped process_arg_packet lock unlock update_proto copy_packet create_packet
    send_packet create_arg_msg check_seq verify decrypt clear_sig parse_packet u32 copy u16 write
    set_gate hmac_matches slice cipher_bytes fill_packet
unwrapping = refl

receiving : process_arg_packet env 0 1 tunnelled start ≡ done (pos 0, received.1) after_receiving
unfolding process_arg_packet parse_packet check_seq u32 update_proto copy_packet copy u16 verify
    clear_sig write set_gate hmac_matches slice decrypt create_arg_msg
receiving = refl

process_arg_wrapped-PassesOn_example :
    PassesOn table.Table env 0 1 tunnelled start after_unwrapping
    × (after_unwrapping.locked ≡ start.locked)
process_arg_wrapped-PassesOn_example =
    process_arg_wrapped-PassesOn table.Table env 0 1 tunnelled start after_unwrapping (pos 0)
      unwrapping

process_arg_packet-replay_example :
    process_arg_packet env 0 1 tunnelled after_receiving ≡ done (arg_seq_bad, none) after_receiving
unfolding parse_packet
process_arg_packet-replay_example =
    process_arg_packet-replay table.Table env 0 1 tunnelled 20 start after_receiving
      (pos 0, received.1) refl (λ keys. ground arith) receiving

process_arg_packet-IsAuthentic_example :
    IsAuthentic env peer tunnelled.data_bytes 20 (clear_sig tunnelled.data_bytes 20) 20
unfolding parse_packet u16
process_arg_packet-IsAuthentic_example =
    process_arg_packet-IsAuthentic table.Table env 0 1 176 0 (bytes_of tunnelled_bytes) 20 tunnelled
      start after_receiving 0 received.1 refl refl (omega arith) (omega arith) receiving

abbrev after_admission : World table.Table
after_admission = state_of start (direct_inbound table env tunnelled start)

admission : direct_inbound table env tunnelled start ≡ done none after_admission
unfolding direct_inbound get_arg_network mask_array_cmp is_admin_msg is_valid_local_ip is_valid_ip
    address_at or_unmasked le_bytes totp note_good_ip do_arg_unwrap process_arg_wrapped
    process_arg_packet lock unlock update_proto copy_packet create_packet send_packet create_arg_msg
    check_seq verify decrypt clear_sig parse_packet u32 copy u16 write set_gate hmac_matches slice
    cipher_bytes fill_packet
admission = refl

tunnelled_source : get_arg_network (saddr tunnelled 0) start ≡ some 1
unfolding get_arg_network mask_array_cmp slice parse_packet
tunnelled_source = refl

direct_inbound-IsAdmitted_example :
    (after_admission.sent ≡ start.sent) ⊎ IsAdmitted table env tunnelled 0 1 start
unfolding parse_packet u16 is_admin_msg
direct_inbound-IsAdmitted_example =
    direct_inbound-IsAdmitted table env tunnelled 0 1 20 start after_admission none refl refl
      tunnelled_source refl admission

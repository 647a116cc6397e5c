-- ===== src/Tests/Reach.antt =====
-- A sequence of calls of the program: a packet that is dropped, a round, and a cleaning.
use addressroutinggateway.Crypto.{totp, le_bytes}
use addressroutinggateway.Prelude.{◌≡◌, refl, none, ℕ, inl, inr, Bool-cases, ◌==◌, arith}
use addressroutinggateway.World.Keeps.{state_of}
use addressroutinggateway.World.{current_time, World, done}
use addressroutinggateway.Packet.{
  get_source_port, get_dest_port, parse_packet, set_source_port, set_dest_port,
}
use addressroutinggateway.Packet.Buffers.{copy_packet, send_packet}
use addressroutinggateway.Packet.Checksum.{tcp_csum, udp_csum}
use addressroutinggateway.Memory.{slice, copy, u16, write}
use addressroutinggateway.Utility.Mask.{mask_array_cmp}
use addressroutinggateway.Hopper.Networks.{get_arg_network}
use addressroutinggateway.Hopper.Address.{or_unmasked, address_at, generate_ip_corrected}
use addressroutinggateway.Director.{direct_inbound, direct_outbound}
use addressroutinggateway.Nat.{
  inbound_match, create_nat_bucket_key, clean_nat_table, do_nat_outbound_rewrite, outbound_entry,
  send_rewritten, rewrite_source, do_nat_inbound_rewrite, inbound_entry, rewrite_destination,
}
use addressroutinggateway.Machine.Invariant.{IsReady, IsWellFormed, Calls-IsWellFormed}
use addressroutinggateway.Machine.Director.{Calls, called, started, inbound, outbound, cleaning}
use addressroutinggateway.Tests.Setting.{env, table, start, from_outside, to_outside}

abbrev after_outbound : World table.Table
after_outbound = state_of start (direct_outbound table env to_outside start)

abbrev after_inbound : World table.Table
after_inbound = state_of start (direct_inbound table env from_outside after_outbound)

abbrev after_cleaning : World table.Table
after_cleaning = state_of start (clean_nat_table table env after_inbound)

outbound_run : direct_outbound table env to_outside start ≡ done none after_outbound
unfolding direct_outbound parse_packet get_arg_network mask_array_cmp slice do_nat_outbound_rewrite
    outbound_entry generate_ip_corrected send_rewritten copy_packet copy u16 send_packet
    rewrite_source tcp_csum udp_csum set_source_port write
outbound_run = refl

inbound_run : direct_inbound table env from_outside after_outbound ≡ done none after_inbound
unfolding direct_inbound direct_outbound parse_packet get_arg_network mask_array_cmp slice
    do_nat_outbound_rewrite outbound_entry generate_ip_corrected send_rewritten copy_packet copy u16
    send_packet rewrite_source tcp_csum udp_csum set_source_port write do_nat_inbound_rewrite
    inbound_entry rewrite_destination set_dest_port create_nat_bucket_key get_dest_port
    get_source_port inbound_match address_at or_unmasked le_bytes totp
inbound_run = refl

cleaning_run : clean_nat_table table env after_inbound ≡ done tt after_cleaning
unfolding clean_nat_table current_time
cleaning_run = refl

start-IsReady : (a : ℕ) → IsReady (start.gates a)
start-IsReady a = elim (Bool-cases (a == 0)) [
  | inl first ↦ rw first (λ up. absurd cc)
  | inr other ↦ elim (Bool-cases (a == 1)) [
    | inl second ↦ rw (other, second) (λ up. (refl, refl))
    | inr none_of ↦ rw (other, none_of) (λ up. absurd cc)
  ]
]

pub start-IsWellFormed : IsWellFormed table start
start-IsWellFormed = record {
  sound = record {
    ready = start-IsReady;
    known = (omega arith, (omega arith, tt));
    once = (((λ e. omega arith), tt), (tt, tt));
  };
  distinct = tt;
}

calls : Calls table env start after_cleaning
calls =
    called
      (called (called started (outbound to_outside none outbound_run))
        (inbound from_outside none inbound_run))
      (cleaning cleaning_run)

Calls-IsWellFormed_example : IsWellFormed table after_cleaning
Calls-IsWellFormed_example =
    Calls-IsWellFormed table env start after_cleaning calls start-IsWellFormed

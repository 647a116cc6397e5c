-- ===== src/Tests/Table.antt =====
-- The theorems on the NAT table, at the packets of the tests.
use addressroutinggateway.Memory.{u16, slice}
use addressroutinggateway.Crypto.{totp, le_bytes}
use addressroutinggateway.Hopper.Address.{or_unmasked, address_at, generate_ip_corrected}
use addressroutinggateway.Prelude.{◌≡◌, refl, [], ◌∷◌, inr}
use addressroutinggateway.World.{World, done}
use addressroutinggateway.World.Keeps.{state_of}
use addressroutinggateway.Nat.{
  NatEntry, saddr, new_entry, outbound_entry, inbound_entry, clean_nat_table, empty_nat_table,
}
use addressroutinggateway.Packet.{get_dest_port, parse_packet, get_source_port}
use addressroutinggateway.Nat.Reply.{inbound_entry-outbound_entry}
use addressroutinggateway.Nat.Kept.{AreCleaned, clean_nat_table-AreCleaned}
use addressroutinggateway.Nat.Expiry.{empty_nat_table_lem}
use addressroutinggateway.Tests.Setting.{at, env, table, start, from_outside, to_outside}

-- The entry that the packet to the outside gets.
abbrev entry : NatEntry
entry = new_entry to_outside 0 (10 ∷ 0 ∷ 1 ∷ 9 ∷ []) (at 100 1000000)

abbrev mapped : World table.Table
mapped = state_of start (outbound_entry table env to_outside 0 start)

mapping : outbound_entry table env to_outside 0 start ≡ done (inr entry) mapped
unfolding outbound_entry generate_ip_corrected address_at or_unmasked le_bytes totp
mapping = refl

inbound_entry-outbound_entry_example :
    (entry.int_ip ≡ saddr to_outside 0)
    × (entry.int_port ≡ get_source_port to_outside)
    × (w3 : World table.Table) × (inbound_entry table env from_outside 0 mapped
        ≡ done (inr entry) w3)
unfolding parse_packet slice get_dest_port get_source_port u16 new_entry
inbound_entry-outbound_entry_example =
    inbound_entry-outbound_entry table env to_outside 0 from_outside 0 start mapped mapped entry
      (λ b found. absurd cc) mapping refl
      (record {
        from_host = refl;
        from_port = refl;
        same_proto = refl;
        to_gate = refl;
        to_port = refl;
      })

-- A table with one entry that was last used at 5 s, and one used at 99 s.
abbrev old_table : World table.Table
old_table = record start {
  nat_table =
      (
        3,
        record {
          key = 3;
          ext_ip = [];
          ext_port = 0;
          first = record entry { last_used = at 5 0 } ∷ [];
        },
      )
      ∷ (
        4,
        record {
          key = 4;
          ext_ip = [];
          ext_port = 0;
          first = record entry { last_used = at 99 0 } ∷ [];
        },
      )
      ∷ [];
}

clean_nat_table-AreCleaned_example :
    (t : table.Table) × (clean_nat_table table env old_table
      ≡ done tt (record old_table { clock_reads = 1; nat_table = t }))
    × AreCleaned (at 100 0) old_table.nat_table t
clean_nat_table-AreCleaned_example =
    clean_nat_table-AreCleaned table env old_table (refl, (refl, tt))

empty_nat_table_lem_example :
    (t : table.Table) × (empty_nat_table table old_table
      ≡ done tt (record old_table { nat_table = t }))
    × (t ≡ [])
empty_nat_table_lem_example = empty_nat_table_lem table old_table

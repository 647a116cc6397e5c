-- ===== src/Nat/Entries.antt =====
-- nat.c: buckets and entries, and the searches for them. The `next` links are the order of the list
-- in a bucket. A key is an `int`, here its 32-bit pattern.
use addressroutinggateway.Prelude.{
  ℕ, ◌+◌, ◌*◌, List, [], ◌∷◌, Bool, Option, none, some, ◌==◌, ◌&&◌, if◌then◌else◌, bit_xor,
}
use addressroutinggateway.Memory.{slice}
use addressroutinggateway.Utility.Time.{Timespec}
use addressroutinggateway.Packet.{PacketData, ip_protocol, get_source_port, get_dest_port}
use addressroutinggateway.Hopper.Address.{same_bytes}

pub record NatEntry : Type 0 where
  pub int_ip : List ℕ
  pub int_port : ℕ
  pub gate_ip : List ℕ
  pub gate_port : ℕ
  pub proto : ℕ
  pub last_used : Timespec

pub record Bucket : Type 0 where
  pub key : ℕ
  pub ext_ip : List ℕ
  pub ext_port : ℕ
  pub first : List NatEntry

-- `iph->saddr` and `iph->daddr` of the header at o.
abbrev pub saddr : PacketData → ℕ → List ℕ
saddr p o = slice p.data_bytes (o + 12) 4

abbrev pub daddr : PacketData → ℕ → List ℕ
daddr p o = slice p.data_bytes (o + 16) 4

-- The number in little-endian bytes.
unfoldable pub le_number : List ℕ → ℕ
le_number [] = 0
le_number (b ∷ bs) = b + 256 * le_number bs

unfoldable pub create_nat_bucket_key : List ℕ → ℕ → ℕ
unfolding le_number
create_nat_bucket_key ip port = bit_xor (le_number ip) port

-- The tests of the two searches in a bucket.
unfoldable pub inbound_match : PacketData → ℕ → NatEntry → Bool
inbound_match p o e =
    ip_protocol p.data_bytes o == e.proto
    && get_dest_port p == e.gate_port
    && same_bytes (daddr p o) e.gate_ip

unfoldable pub outbound_match : PacketData → ℕ → NatEntry → Bool
outbound_match p o e =
    ip_protocol p.data_bytes o == e.proto
    && get_source_port p == e.int_port
    && same_bytes (saddr p o) e.int_ip

-- The first entry that passes.
unfoldable pub find_entry : (NatEntry → Bool) → List NatEntry → Option NatEntry
find_entry test [] = none
find_entry test (e ∷ es) = if test e then some e else find_entry test es

-- `update_nat_entry_time` on that entry.
unfoldable pub touch_entry : (NatEntry → Bool) → Timespec → List NatEntry → List NatEntry
touch_entry test now [] = []
touch_entry test now (e ∷ es) =
    if test e then record e { last_used = now } ∷ es else e ∷ touch_entry test now es

unfoldable pub create_nat_bucket : PacketData → ℕ → ℕ → Bucket
create_nat_bucket p o key = record {
  key = key;
  ext_ip = daddr p o;
  ext_port = get_dest_port p;
  first = [];
}

-- A new entry for a packet, when the gateway has the address `gate`.
unfoldable pub new_entry : PacketData → ℕ → List ℕ → Timespec → NatEntry
new_entry p o gate now = record {
  int_ip = saddr p o;
  int_port = get_source_port p;
  gate_ip = gate;
  gate_port = get_source_port p;
  proto = ip_protocol p.data_bytes o;
  last_used = now;
}

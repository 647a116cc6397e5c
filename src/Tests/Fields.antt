-- ===== src/Tests/Fields.antt =====
-- The theorems on the bytes that the NAT rewrites change, on a UDP packet each way.
use addressroutinggateway.Packet.{parse_packet}
use addressroutinggateway.Prelude.{[], ◌∷◌, refl, inr, arith}
use addressroutinggateway.Nat.{NatEntry}
use addressroutinggateway.Nat.{rewrite_source, rewrite_destination}
use addressroutinggateway.Nat.Fields.{Differs, rewrite_source-Differs, rewrite_destination-Differs}
use addressroutinggateway.Tests.Setting.{at, from_outside, to_outside}

abbrev entry : NatEntry
entry = record {
  int_ip = 10 ∷ 0 ∷ 1 ∷ 33 ∷ [];
  int_port = 4096;
  gate_ip = 10 ∷ 0 ∷ 1 ∷ 9 ∷ [];
  gate_port = 4096;
  proto = 17;
  last_used = at 100 0;
}

rewrite_source-Differs_example :
    Differs 0 20 6 to_outside.data_bytes 12
      (10 ∷ 0 ∷ 1 ∷ 9 ∷ [])
      20
      4096
      (rewrite_source entry to_outside 0).data_bytes
unfolding parse_packet
rewrite_source-Differs_example =
    rewrite_source-Differs 0 20 6 entry to_outside refl (inr (refl, refl, refl)) (omega arith) refl
      (omega arith)

rewrite_destination-Differs_example :
    Differs 0 20 6 from_outside.data_bytes 16
      (10 ∷ 0 ∷ 1 ∷ 33 ∷ [])
      22
      4096
      (rewrite_destination entry from_outside 0).data_bytes
unfolding parse_packet
rewrite_destination-Differs_example =
    rewrite_destination-Differs 0 20 6 entry from_outside refl (inr (refl, refl, refl))
      (omega arith) refl (omega arith)

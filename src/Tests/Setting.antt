-- ===== src/Tests/Setting.antt =====
-- A machine, two gateways and some packets for the tests.
use addressroutinggateway.Prelude.{
  ℕ, ◌+◌, ◌*◌, List, [], ◌∷◌, ◌++◌, true, false, some, pos, get_or, replicate, take, if◌then◌else◌,
  ◌==◌,
}
use addressroutinggateway.Memory.{Bytes}
use addressroutinggateway.Utility.Time.{Timespec}
use addressroutinggateway.Packet.{PacketData, parse_packet}
use addressroutinggateway.Packet.Buffers.{raw_packet}
use addressroutinggateway.World.{Env, Gate, World}
use addressroutinggateway.Hopper.Create.{new_gate}
use addressroutinggateway.Protocol.Stream.{xor_stream}
use addressroutinggateway.Nat.{HashTable, list_table, Bucket}

abbrev pub at : ℕ → ℕ → Timespec
at s ms = record { tv_sec = pos s; tv_nsec = pos ms }

abbrev pub key_stream : List ℕ → List ℕ → ℕ → ℕ
key_stream key iv i = i + 3

abbrev pub env : Env
env = record {
  clock = λ n. at 100 (n * 1000000);
  urandom = λ n k. replicate k 7;
  malloc = λ n. some (λ j. 0);
  sendto = λ n. 0;
  sha1 = λ xs. take 20 xs;
  sha1_hmac = λ k xs. replicate 20 9;
  md_hmac = λ k xs. 1 ∷ 2 ∷ 3 ∷ [];
  cipher_update = λ key iv i xs. xor_stream (key_stream key iv) i xs;
  cipher_block_size = 16;
  rsa_verify = λ k h s. true;
  rsa_sign = λ k h. some (replicate 128 4);
  rsa_encrypt = λ n k xs. some xs;
  rsa_decrypt = λ k n xs. some xs;
  mpi_write_binary = λ n k. some (replicate k 0);
  mpi_read_binary = λ xs. some 17;
  mpi_msb = λ n. 5;
}

-- The gateway at 0 is the local one, the one at 1 its connected peer.
abbrev pub local : Gate
local = record new_gate {
  base_ip = 10 ∷ 0 ∷ 1 ∷ 0 ∷ [];
  mask = 255 ∷ 255 ∷ 255 ∷ 0 ∷ [];
  hop_interval = 500;
}

abbrev pub peer : Gate
peer = record new_gate {
  connected = true;
  base_ip = 10 ∷ 0 ∷ 2 ∷ 0 ∷ [];
  mask = 255 ∷ 255 ∷ 255 ∷ 0 ∷ [];
  hop_interval = 500;
  proto = record new_gate.proto { conn_data_available = true; time_base_available = true };
}

abbrev pub table : HashTable Bucket
table = list_table Bucket

abbrev pub start : World (List (ℕ × Bucket))
start = record {
  clock_reads = 0;
  draws = 0;
  allocs = 0;
  sends = 0;
  sent = [];
  gates = λ a. if a == 0 then local else if a == 1 then peer else new_gate;
  locked = λ a. false;
  order = 0 ∷ 1 ∷ [];
  fresh = 2;
  nat_table = [];
}

abbrev pub bytes_of : List ℕ → Bytes
bytes_of xs j = get_or xs j 0

-- An IP header of 20 bytes: total length, protocol, source and destination.
abbrev pub ip_header : ℕ → ℕ → List ℕ → List ℕ → List ℕ
ip_header len proto source dest =
    0x45 ∷ 0 ∷ 0 ∷ len ∷ 0 ∷ 0 ∷ 0 ∷ 0 ∷ 64 ∷ proto ∷ 0 ∷ 0 ∷ (source ++ dest)

abbrev pub packet_of : List ℕ → ℕ → PacketData
packet_of xs len = (parse_packet (raw_packet len 0 (bytes_of xs))).0

-- A tunnelled packet from the peer: an ARG header with the HMAC, and an IP header of a packet without
-- data, enciphered.
abbrev pub inner : List ℕ
inner = ip_header 20 17 (10 ∷ 0 ∷ 2 ∷ 5 ∷ []) (10 ∷ 0 ∷ 1 ∷ 9 ∷ [])

abbrev pub tunnelled_bytes : List ℕ
tunnelled_bytes =
    ip_header 176 253 (10 ∷ 0 ∷ 2 ∷ 9 ∷ []) (10 ∷ 0 ∷ 1 ∷ 9 ∷ [])
    ++ 1
      ∷ 0
      ∷ 0
      ∷ 156
      ∷ 0
      ∷ 0
      ∷ 0
      ∷ 5
      ∷ 1
      ∷ 2
      ∷ 3
      ∷ (replicate 125 0 ++ xor_stream (key_stream [] []) 0 inner)

abbrev pub tunnelled : PacketData
tunnelled = packet_of tunnelled_bytes 176

-- A UDP packet from a host that is in no known network, and one to it.
abbrev pub from_outside : PacketData
from_outside =
    packet_of
      (ip_header 28 17 (192 ∷ 168 ∷ 7 ∷ 7 ∷ []) (10 ∷ 0 ∷ 1 ∷ 9 ∷ [])
        ++ 0 ∷ 53 ∷ 16 ∷ 0 ∷ 0 ∷ 8 ∷ 0 ∷ 0 ∷ [])
      28

abbrev pub to_outside : PacketData
to_outside =
    packet_of
      (ip_header 28 17 (10 ∷ 0 ∷ 1 ∷ 33 ∷ []) (192 ∷ 168 ∷ 7 ∷ 7 ∷ [])
        ++ 16 ∷ 0 ∷ 0 ∷ 53 ∷ 0 ∷ 8 ∷ 0 ∷ 0 ∷ [])
      28

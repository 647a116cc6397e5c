-- ===== src/Packet/Ports.antt =====
-- packet.c: the port numbers of a TCP or UDP packet.
use addressroutinggateway.Prelude.{ℕ, ◌+◌, Option, none, some}
use addressroutinggateway.Memory.{Bytes, u16, put16}
use addressroutinggateway.Packet.Header.{PacketData}

-- The header that holds the ports: TCP before UDP.
abbrev pub port_header : PacketData → Option ℕ
port_header p = elim p.tcp [ some t ↦ some t | none ↦ p.udp ]

abbrev pub port_at : Option ℕ → ℕ → Bytes → ℕ
port_at none k b = 0
port_at (some h) k b = u16 b (h + k)

abbrev pub put_port_at : Option ℕ → ℕ → ℕ → Bytes → Bytes
put_port_at none k v b = b
put_port_at (some h) k v b = put16 b (h + k) v

unfoldable pub get_source_port : PacketData → ℕ
get_source_port p = port_at (port_header p) 0 p.data_bytes

unfoldable pub get_dest_port : PacketData → ℕ
get_dest_port p = port_at (port_header p) 2 p.data_bytes

unfoldable pub set_source_port : PacketData → ℕ → PacketData
set_source_port p port = record p { data_bytes = put_port_at (port_header p) 0 port p.data_bytes }

unfoldable pub set_dest_port : PacketData → ℕ → PacketData
set_dest_port p port = record p { data_bytes = put_port_at (port_header p) 2 port p.data_bytes }

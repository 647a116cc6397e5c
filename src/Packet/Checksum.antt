-- ===== src/Packet/Checksum.antt =====
-- packet.c: `csum_with_psuedo`, `tcp_csum` and `udp_csum`, built with COMPUTE_CHECKSUMS.
pub mod Verify
use addressroutinggateway.Prelude.{
  ltb, if◌then◌else◌, ℕ, zero, suc, ◌+◌, ◌-◌, ◌*◌, ◌/◌, ◌%◌, ◌^◌, Option, none, some,
}
use addressroutinggateway.Memory.{Bytes, u16, put16}
use addressroutinggateway.Packet.Header.{PacketData, ip_ihl, ip_tot_len, ip_protocol}

-- The `while` loop over the 16-bit words of i bytes at offset o, and the odd byte after it.
-- `sum` is a uint32_t.
unfoldable pub add_words : ℕ → Bytes → ℕ → ℕ → ℕ
add_words zero b o sum = sum
add_words (suc zero) b o sum = (sum + b o * 256) % 2 ^ 32
add_words (suc (suc i)) b o sum = add_words i b (o + 2) ((sum + u16 b o) % 2 ^ 32)

-- The addresses, the protocol and the length of the pseudo header, for an IP header at o.
unfoldable pub add_pseudo : Bytes → ℕ → ℕ → ℕ → ℕ
add_pseudo b o len sum =
    (sum
      + u16 b (o + 14)
      + u16 b (o + 12)
      + u16 b (o + 18)
      + u16 b (o + 16)
      + ip_protocol b o
      + len)
    % 2 ^ 32

-- `sum = (sum >> 16) + (sum & 0xFFFF)`
unfoldable pub fold_carry : ℕ → ℕ
fold_carry sum = sum / 65536 + sum % 65536

-- `i = len`, as an `int`: the loop does not run on a negative one.
unfoldable pub loop_bytes : ℕ → ℕ
loop_bytes len = if ltb len (2 ^ 31) then len else 0

-- The checksum of len bytes at t, of a packet whose IP header is at o.
unfoldable pub checksum : Bytes → ℕ → ℕ → ℕ → ℕ
unfolding add_words add_pseudo fold_carry loop_bytes
checksum b o t len = fold_carry (fold_carry (add_pseudo b o len (add_words (loop_bytes len) b t 0)))

-- Clear the check field at c, sum, and store the complement.
unfoldable pub fill_check : Bytes → ℕ → ℕ → ℕ → ℕ → Bytes
fill_check b o t c len =
    let cleared = put16 b c 0 in put16 cleared c (65535 - checksum cleared o t len % 65536)

-- The length of a TCP segment, a uint32_t.
unfoldable pub tcp_length : Bytes → ℕ → ℕ
tcp_length b o = (ip_tot_len b o + 2 ^ 32 - ip_ihl b o * 4) % 2 ^ 32

unfoldable pub csum_bytes : Option ℕ → Option ℕ → Option ℕ → Bytes → Bytes
unfolding fill_check tcp_length
csum_bytes none tcp udp b = b
csum_bytes (some o) (some t) udp b = fill_check b o t (t + 16) (tcp_length b o)
csum_bytes (some o) none (some t) b = fill_check b o t (t + 6) (u16 b (t + 4))
csum_bytes (some o) none none b = b

unfoldable pub csum_with_psuedo : PacketData → PacketData
unfolding csum_bytes
csum_with_psuedo p = record p { data_bytes = csum_bytes p.ipv4 p.tcp p.udp p.data_bytes }

unfoldable pub tcp_csum : PacketData → PacketData
unfolding csum_with_psuedo
tcp_csum p = csum_with_psuedo p

unfoldable pub udp_csum : PacketData → PacketData
unfolding csum_with_psuedo
udp_csum p = elim p.udp [ none ↦ p | some t ↦ csum_with_psuedo p ]

-- ===== src/Packet/Found.antt =====
-- packet.c: where `parse_packet` finds an ARG header, and which bytes decide it.
use addressroutinggateway.Packet.Parse.{parse_packet}
use addressroutinggateway.Prelude.{
  ℕ, ◌+◌, ◌*◌, ◌≤◌, ◌<◌, ◌≡◌, refl, ap, Option, none, some, inl, inr, arith, ◌==◌, if◌then◌else◌,
  Bool-cases,
}
use addressroutinggateway.Memory.{Bytes, u16}
use addressroutinggateway.Packet.Header.{ip_version, ip_ihl, ip_protocol, arg_proto, eth_p_ip}
use addressroutinggateway.Packet.Parse.{
  clear_pointers, point_ipv4, parse_ethertype, parse_link, parse_transport, set_unknown_len,
  parse_network,
}
use addressroutinggateway.Packet.Buffers.{raw_packet}

-- Where a parse finds an ARG header.
abbrev pub arg_behind : Bytes → ℕ → Option ℕ
arg_behind b o =
    if ip_version b o == 4
    then (if ip_protocol b o == arg_proto then some (o + ip_ihl b o * 4) else none)
    else none

abbrev pub arg_at : ℕ → Bytes → Option ℕ
arg_at link b =
    if 14 == link
    then (if u16 b 12 == eth_p_ip then arg_behind b link else none)
    else arg_behind b link

pub parse_packet-arg_at :
    (n link : ℕ) (b : Bytes) → (parse_packet (raw_packet n link b)).0.arg ≡ arg_at link b
unfolding parse_packet clear_pointers parse_link parse_ethertype point_ipv4 parse_network
    set_unknown_len parse_transport
parse_packet-arg_at n link b = ground arith

pub arg_at-behind : (link : ℕ) (b : Bytes) (a : ℕ) → arg_at link b ≡ some a → link ≤ a
arg_at-behind link b a e = ground arith

arg_behind-cong :
    (b c : Bytes) (o : ℕ) → b o ≡ c o → b (o + 9) ≡ c (o + 9) → arg_behind b o ≡ arg_behind c o
arg_behind-cong b c o first proto = rw (first, proto) refl

pub arg_at-cong :
    (link : ℕ) (b c : Bytes) → ((j : ℕ) → j < link + 10 → b j ≡ c j) → arg_at link b ≡ arg_at link c
unfolding u16
arg_at-cong link b c same = elim (Bool-cases (14 == link)) [
  | inl ether ↦
      rw (ether, same 12 (ground arith), same 13 (ground arith))
        (ap (λ t. if c 12 * 256 + c 13 == eth_p_ip then t else none)
          (arg_behind-cong b c link (same link (omega arith)) (same (link + 9) (omega arith))))
  | inr bare ↦
      rw bare (arg_behind-cong b c link (same link (omega arith)) (same (link + 9) (omega arith)))
]

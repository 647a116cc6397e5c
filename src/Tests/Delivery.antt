-- ===== src/Tests/Delivery.antt =====
-- A datagram through the tunnel, on the machine of the tests.
use addressroutinggateway.Prelude.{ℕ, ◌≡◌, refl, [], ◌∷◌, List, arith}
use addressroutinggateway.Memory.{Bytes, u16}
use addressroutinggateway.Packet.{parse_packet, ip_tot_len, eth_p_ip}
use addressroutinggateway.Protocol.Wrapped.{inner_message, send_arg_wrapped}
use addressroutinggateway.Protocol.Delivery.{Delivers, send_arg_wrapped-Delivers}
use addressroutinggateway.Protocol.Departs.{bytes_from}
use addressroutinggateway.Tests.Basics.{streams}
use addressroutinggateway.Tests.Setting.{env, key_stream, start, table, to_outside}

abbrev block : ℕ → Bytes
block n j = 0

abbrev eth : List ℕ
eth = 1 ∷ 2 ∷ 3 ∷ 4 ∷ 5 ∷ 6 ∷ 1 ∷ 2 ∷ 3 ∷ 4 ∷ 5 ∷ 7 ∷ 8 ∷ 0 ∷ []

inner_len : (inner_message to_outside).len ≡ 28
unfolding inner_message parse_packet u16
inner_len = refl

inner_tot_len : ip_tot_len (inner_message to_outside).msg_bytes 0 ≡ (inner_message to_outside).len
unfolding inner_message parse_packet u16
inner_tot_len = refl

ether : u16 (bytes_from eth) 12 ≡ eth_p_ip
unfolding u16
ether = refl

send_arg_wrapped-Delivers_example :
    Delivers table.Table env env block block
      (λ n. refl)
      (λ n. refl)
      key_stream
      streams
      streams
      (λ key xs. refl)
      (λ key xs. omega arith)
      (λ n. refl)
      (λ n. refl)
      0
      1
      to_outside
      start
      refl
      refl
      refl
      refl
      (omega arith)
      (omega (arith, inner_len))
      (omega (arith, inner_len))
      inner_tot_len
      0
      1
      start
      refl
      refl
      refl
      refl
      refl
      (omega arith)
      refl
      300
      eth
      refl
      ether
      (send_arg_wrapped env 0 1 to_outside start)
send_arg_wrapped-Delivers_example =
    send_arg_wrapped-Delivers table.Table env env block block (λ n. refl) (λ n. refl) key_stream
      streams streams (λ key xs. refl) (λ key xs. omega arith) (λ n. refl) (λ n. refl) 0 1
      to_outside start refl refl refl refl (omega arith) (omega (arith, inner_len))
      (omega (arith, inner_len)) inner_tot_len 0 1 start refl refl refl refl refl (omega arith) refl
      300 eth refl ether

-- ===== src/Tests/Arp.antt =====
-- An ARP request on the machine of the tests, and its reply.
use addressroutinggateway.Prelude.{ℕ, ◌≡◌, refl, [], ◌∷◌, List, some}
use addressroutinggateway.Memory.{u16}
use addressroutinggateway.Packet.{PacketData, parse_packet}
use addressroutinggateway.Packet.Buffers.{raw_packet}
use addressroutinggateway.Packet.Arp.{send_arp_reply, ar_op, arpop_request}
use addressroutinggateway.Packet.Arp.Replies.{Replies, send_arp_reply-Replies}
use addressroutinggateway.Tests.Setting.{env, start, table, bytes_of}

abbrev our_mac : List ℕ
our_mac = 2 ∷ 0 ∷ 0 ∷ 0 ∷ 0 ∷ 9 ∷ []

-- Who has 10.0.2.7? Tell 10.0.1.5.
abbrev pub request : PacketData
request =
    (parse_packet (
      raw_packet 42 14 (
        bytes_of (
          255 ∷ 255 ∷ 255 ∷ 255 ∷ 255 ∷ 255 ∷ 2 ∷ 0 ∷ 0 ∷ 0 ∷ 0 ∷ 1 ∷ 8 ∷ 6 ∷ 0 ∷ 1 ∷ 8 ∷ 0 ∷ 6 ∷ 4
          ∷ 0 ∷ 1 ∷ 2 ∷ 0 ∷ 0 ∷ 0 ∷ 0 ∷ 1 ∷ 10 ∷ 0 ∷ 1 ∷ 5 ∷ 0 ∷ 0 ∷ 0 ∷ 0 ∷ 0 ∷ 0 ∷ 10 ∷ 0 ∷ 2 ∷ 7
          ∷ [])))).0

request_arp : request.arp ≡ some 14
unfolding parse_packet u16
request_arp = refl

request_op : ar_op request.data_bytes 14 ≡ arpop_request
unfolding parse_packet u16
request_op = refl

send_arp_reply-Replies_example :
    Replies table.Table env
      (λ n j. 0)
      (λ n. refl)
      (λ n. refl)
      our_mac
      refl
      request
      14
      start
      (send_arp_reply env our_mac request start)
send_arp_reply-Replies_example =
    send_arp_reply-Replies table.Table env (λ n j. 0) (λ n. refl) (λ n. refl) our_mac refl request
      14 start request_arp request_op

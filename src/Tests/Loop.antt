-- ===== src/Tests/Loop.antt =====
-- The loop of `receive_thread` on an ARP request, a frame that is cut off, and a packet from outside.
use addressroutinggateway.Packet.Arp.{send_arp_reply}
use addressroutinggateway.Memory.{u16}
use addressroutinggateway.Prelude.{◌≡◌, refl, [], ◌∷◌, List, none, some, pos, true}
use addressroutinggateway.World.{World, done}
use addressroutinggateway.World.Keeps.{state_of}
use addressroutinggateway.Director.Loop.{external, Device, Capture, receive_thread}
use addressroutinggateway.Director.Thread.{Receives, receive_thread-Receives}
use addressroutinggateway.Tests.Setting.{env, start, table, bytes_of}
use addressroutinggateway.Tests.Arp.{request}

abbrev device : Device
device = record { mac = some (2 ∷ 0 ∷ 0 ∷ 0 ∷ 0 ∷ 9 ∷ []); index = pos 3; ethernet = true }

abbrev captures : List Capture
captures = some (42, request.data_bytes) ∷ none ∷ some (3, bytes_of (1 ∷ 2 ∷ 3 ∷ [])) ∷ []

abbrev after_captures : World table.Table
after_captures = state_of start (receive_thread table env external device captures start)

receiving : receive_thread table env external device captures start ≡ done none after_captures
unfolding receive_thread u16 send_arp_reply
receiving = refl

receive_thread-Receives_example :
    Receives table env external device captures start after_captures none
receive_thread-Receives_example =
    receive_thread-Receives table env external device captures start after_captures none receiving

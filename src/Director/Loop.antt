-- ===== src/Director/Loop.antt =====
-- director.c: `receive_thread`, the loop of the two threads that receive.
use addressroutinggateway.Prelude.{
  ℕ, List, [], ◌∷◌, Bool, true, false, Option, none, some, ℤ, pos, negsuc,
}
use addressroutinggateway.Settings.{arg_config_bad}
use addressroutinggateway.Memory.{Bytes}
use addressroutinggateway.Packet.{PacketData, ethhdr_size}
use addressroutinggateway.Packet.Arp.{send_arp_reply}
use addressroutinggateway.World.{Run, pure, ◌>>=◌, ◌>>◌, Env}
use addressroutinggateway.Nat.{HashTable, Bucket}
use addressroutinggateway.Director.{
  Received, receive_frame, unparsed, ignored, arp_request, handled, Drop, direct_inbound,
  direct_outbound,
}

-- `data->handler`: of the internal device `direct_outbound`, of the external one `direct_inbound`.
pub data Side : Type 0 where
  internal external : Side

-- The calls of the system on a device: the hardware address of `get_mac_addr`, if there is one; the
-- result of `get_dev_index`; whether `pcap_datalink` is DLT_EN10MB.
pub record Device : Type 0 where
  pub mac : Option (List ℕ)
  pub index : ℤ
  pub ethernet : Bool

-- What `pcap_next` gives: nothing for a while, or `caplen` bytes.
abbrev pub Capture : Type 0
Capture = Option (ℕ × Bytes)

module _ (h : HashTable Bucket) (env : Env) where
  open h use {Table}

  abbrev pub handle : Side → PacketData → Run Table (Option Drop)
  handle internal p = direct_outbound h env p
  handle external p = direct_inbound h env p

  -- One round of the loop, on a frame.
  abbrev pub receive_one : Side → List ℕ → Received → Run Table (Unit {0})
  receive_one side hwaddr unparsed = pure tt
  receive_one side hwaddr ignored = pure tt
  receive_one side hwaddr (arp_request p) = do ret ← send_arp_reply env hwaddr p; pure tt
  receive_one side hwaddr (handled p) = do dropped ← handle side p; pure tt

  -- The frames that come while `receiveShouldRun` is true.
  unfoldable pub receive_all : Side → List ℕ → List Capture → Run Table (Unit {0})
  unfolding receive_frame
  receive_all side hwaddr [] = pure tt
  receive_all side hwaddr (none ∷ captures) = receive_all side hwaddr captures
  receive_all side hwaddr (some (caplen, b) ∷ captures) = do
    receive_one side hwaddr (receive_frame ethhdr_size caplen b)
    receive_all side hwaddr captures

  abbrev pub receive_on : Side → List ℕ → Bool → List Capture → Run Table (Option ℤ)
  receive_on side hwaddr false captures = pure (some arg_config_bad)
  receive_on side hwaddr true captures = do receive_all side hwaddr captures; pure none

  abbrev pub receive_index : Side → List ℕ → ℤ → Bool → List Capture → Run Table (Option ℤ)
  receive_index side hwaddr (negsuc k) ethernet captures = pure (some arg_config_bad)
  receive_index side hwaddr (pos k) ethernet captures = receive_on side hwaddr ethernet captures

  abbrev pub receive_mac : Side → Option (List ℕ) → ℤ → Bool → List Capture → Run Table (Option ℤ)
  receive_mac side none index ethernet captures = pure (some arg_config_bad)
  receive_mac side (some hwaddr) index ethernet captures =
      receive_index side hwaddr index ethernet captures

  -- NULL at the end of the loop, or the error that kept it from starting.
  unfoldable pub receive_thread : Side → Device → List Capture → Run Table (Option ℤ)
  unfolding receive_all
  receive_thread side dev captures = receive_mac side dev.mac dev.index dev.ethernet captures

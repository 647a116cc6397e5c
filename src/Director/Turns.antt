-- ===== src/Director/Turns.antt =====
-- director.c: which captured frames `receive_thread` answers, hands on, or passes over.
use addressroutinggateway.Prelude.{ℕ, ◌/◌, ◌≡◌, ◌≢◌, refl, List, [], ◌∷◌, Option, none, some, ℤ}
use addressroutinggateway.Memory.{Bytes, u16}
use addressroutinggateway.Packet.{PacketData}
use addressroutinggateway.Packet.Arp.{send_arp_reply}
use addressroutinggateway.World.{World, Outcome, done, null_dereference, deadlock, Env, and_then}
use addressroutinggateway.Nat.{HashTable, Bucket}
use addressroutinggateway.Director.{Drop, direct_inbound, direct_outbound}
use addressroutinggateway.Director.Loop.{Side, internal, external, Capture, handle, receive_all}
use addressroutinggateway.Packet.Frames.{arp_packet, IsIpPacket}

module _ (h : HashTable Bucket) (env : Env) where
  open h use {Table}

  -- The rounds of the loop on what is captured, one after the other, from a state to a state: an ARP
  -- frame is answered; an IPv4 packet is given, from the internal device to `direct_outbound`, from the
  -- external one to `direct_inbound`; at any other frame, and when there is none, nothing is done.
  pub data Rounds (side : Side) (hwaddr : List ℕ)
      : World Table → List Capture → World Table → Type 0 where
    ended : {w : World Table} → Rounds side hwaddr w [] w
    idle :
        {cs : List Capture} {w v : World Table}
        → Rounds side hwaddr w cs v
        → Rounds side hwaddr w (none ∷ cs) v
    other :
        (n : ℕ) (b : Bytes) {cs : List Capture} {w v : World Table}
        → u16 b 12 ≢ 0x0806
        → ¬ ((u16 b 12 ≡ 0x0800) × (b 14 / 16 ≡ 4))
        → Rounds side hwaddr w cs v
        → Rounds side hwaddr w (some (n, b) ∷ cs) v
    arp :
        (n : ℕ) (b : Bytes) (ret : ℤ) {cs : List Capture} {w u v : World Table}
        → u16 b 12 ≡ 0x0806
        → send_arp_reply env hwaddr (arp_packet n b) w ≡ done ret u
        → Rounds side hwaddr u cs v
        → Rounds side hwaddr w (some (n, b) ∷ cs) v
    outward :
        (n : ℕ) (b : Bytes) (p : PacketData) (d : Option Drop) {cs : List Capture}
        {w u v : World Table}
        → side ≡ internal
        → (u16 b 12 ≡ 0x0800) × (b 14 / 16 ≡ 4)
        → IsIpPacket b p
        → direct_outbound h env p w ≡ done d u
        → Rounds side hwaddr u cs v
        → Rounds side hwaddr w (some (n, b) ∷ cs) v
    inward :
        (n : ℕ) (b : Bytes) (p : PacketData) (d : Option Drop) {cs : List Capture}
        {w u v : World Table}
        → side ≡ external
        → (u16 b 12 ≡ 0x0800) × (b 14 / 16 ≡ 4)
        → IsIpPacket b p
        → direct_inbound h env p w ≡ done d u
        → Rounds side hwaddr u cs v
        → Rounds side hwaddr w (some (n, b) ∷ cs) v

  -- A run that returns is such a sequence.
  abbrev pub Returns :
      Side → List ℕ → World Table → List Capture → Outcome Table (Unit {0}) → Type 0
  Returns side hwaddr w cs (done r v) = Rounds side hwaddr w cs v
  Returns side hwaddr w cs null_dereference = Unit {0}
  Returns side hwaddr w cs deadlock = Unit {0}

  module _ (side : Side) (hwaddr : List ℕ) (n : ℕ) (b : Bytes) (cs : List Capture) where
    abbrev pub Later : Type 0
    Later = (u : World Table) → Returns side hwaddr u cs (receive_all h env side hwaddr cs u)

    pub Returns-other :
        (w : World Table) (o : Outcome Table (Unit {0}))
        → u16 b 12 ≢ 0x0806
        → ¬ ((u16 b 12 ≡ 0x0800) × (b 14 / 16 ≡ 4))
        → Returns side hwaddr w cs o
        → Returns side hwaddr w (some (n, b) ∷ cs) o
    Returns-other w (done r v) no_arp no_ip rest = other n b no_arp no_ip rest
    Returns-other w null_dereference no_arp no_ip rest = tt
    Returns-other w deadlock no_arp no_ip rest = tt

    Returns-arp :
        (w u : World Table) (ret : ℤ) (o : Outcome Table (Unit {0}))
        → u16 b 12 ≡ 0x0806
        → send_arp_reply env hwaddr (arp_packet n b) w ≡ done ret u
        → Returns side hwaddr u cs o
        → Returns side hwaddr w (some (n, b) ∷ cs) o
    Returns-arp w u ret (done r v) e ran rest = arp n b ret e ran rest
    Returns-arp w u ret null_dereference e ran rest = tt
    Returns-arp w u ret deadlock e ran rest = tt

    pub after_arp :
        (w : World Table) (o : Outcome Table ℤ)
        → Later
        → u16 b 12 ≡ 0x0806
        → send_arp_reply env hwaddr (arp_packet n b) w ≡ o
        → Returns side hwaddr w
            (some (n, b) ∷ cs)
            (and_then (and_then o (λ ret u. done tt u)) (λ r. receive_all h env side hwaddr cs))
    after_arp w (done ret u) later e ran =
        Returns-arp w u ret (receive_all h env side hwaddr cs u) e ran (later u)
    after_arp w null_dereference later e ran = tt
    after_arp w deadlock later e ran = tt

  Returns-handled :
      (side : Side) (hwaddr : List ℕ) (n : ℕ) (b : Bytes) (cs : List Capture) (p : PacketData)
      (w u : World Table) (d : Option Drop) (o : Outcome Table (Unit {0}))
      → (u16 b 12 ≡ 0x0800) × (b 14 / 16 ≡ 4)
      → IsIpPacket b p
      → handle h env side p w ≡ done d u
      → Returns side hwaddr u cs o
      → Returns side hwaddr w (some (n, b) ∷ cs) o
  Returns-handled internal hwaddr n b cs p w u d (done r v) e is ran rest =
      outward n b p d refl e is ran rest
  Returns-handled external hwaddr n b cs p w u d (done r v) e is ran rest =
      inward n b p d refl e is ran rest
  Returns-handled side hwaddr n b cs p w u d null_dereference e is ran rest = tt
  Returns-handled side hwaddr n b cs p w u d deadlock e is ran rest = tt

  pub after_handled :
      (side : Side) (hwaddr : List ℕ) (n : ℕ) (b : Bytes) (cs : List Capture) (p : PacketData)
      (w : World Table) (o : Outcome Table (Option Drop))
      → Later side hwaddr n b cs
      → (u16 b 12 ≡ 0x0800) × (b 14 / 16 ≡ 4)
      → IsIpPacket b p
      → handle h env side p w ≡ o
      → Returns side hwaddr w
          (some (n, b) ∷ cs)
          (and_then (and_then o (λ d u. done tt u)) (λ r. receive_all h env side hwaddr cs))
  after_handled side hwaddr n b cs p w (done d u) later e is ran =
      Returns-handled side hwaddr n b cs p w u d (receive_all h env side hwaddr cs u) e is ran
        (later u)
  after_handled side hwaddr n b cs p w null_dereference later e is ran = tt
  after_handled side hwaddr n b cs p w deadlock later e is ran = tt

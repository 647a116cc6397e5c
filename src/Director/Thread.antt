-- ===== src/Director/Thread.antt =====
-- director.c: `receive_thread`, by what it captures.
use addressroutinggateway.Prelude.{
  subst, ℕ, ◌/◌, ◌≡◌, ◌≢◌, refl, sym, ap, ◌∙◌, List, [], ◌∷◌, Bool, true, false, Bool-cases, inl,
  inr, ◌⊎◌, Option, none, some, ℤ, pos, negsuc, arith, ◌==◌, ==_iff, is_zero, if◌then◌else◌,
}
use addressroutinggateway.Memory.{Bytes, u16}
use addressroutinggateway.Settings.{arg_config_bad}
use addressroutinggateway.Packet.{PacketData, parse_packet}
use addressroutinggateway.Packet.Buffers.{raw_packet}
use addressroutinggateway.Packet.Arp.{send_arp_reply}
use addressroutinggateway.World.{World, Outcome, done, null_dereference, deadlock, Env, and_then}
use addressroutinggateway.Nat.{HashTable, Bucket}
use addressroutinggateway.Director.{
  Received, receive_frame, received_arp, received_ip, unparsed, ignored, arp_request, handled,
}
use addressroutinggateway.Director.Loop.{
  Side, Device, Capture, handle, receive_one, receive_all, receive_mac, receive_thread,
}
use addressroutinggateway.Packet.Frames.{
  arp_packet, parse_packet-arp_packet, parse_packet-IsIpPacket, parse_packet-version,
  parse_packet-other,
}
use addressroutinggateway.Director.Turns.{
  Rounds, ended, idle, Returns, Later, Returns-other, after_arp, after_handled,
}

module _ (n : ℕ) (b : Bytes) where
  abbrev parsed : PacketData
  parsed = (parse_packet (raw_packet n 14 b)).0

  frame_arp : u16 b 12 ≡ 0x0806 → receive_frame 14 n b ≡ arp_request (arp_packet n b)
  unfolding receive_frame
  frame_arp e = rw (parse_packet-arp_packet n b e) refl

  frame_ip : u16 b 12 ≡ 0x0800 → b 14 / 16 ≡ 4 → receive_frame 14 n b ≡ handled parsed
  unfolding receive_frame
  frame_ip e v =
      let (is, good) = parse_packet-IsIpPacket n b e v in
      ap (λ r. if is_zero r then received_arp parsed parsed.arp else unparsed) good
      ∙ ap (received_arp parsed) is.no_arp
      ∙ ap (received_ip parsed) is.ip

  frame_version : u16 b 12 ≡ 0x0800 → b 14 / 16 ≢ 4 → receive_frame 14 n b ≡ unparsed
  unfolding receive_frame
  frame_version e v =
      ap (λ r. if is_zero r then received_arp parsed parsed.arp else unparsed)
        (parse_packet-version n b e v)

  frame_other : u16 b 12 ≢ 0x0806 → u16 b 12 ≢ 0x0800 → receive_frame 14 n b ≡ ignored
  unfolding receive_frame
  frame_other e v =
      let (good, no_arp, no_ip) = parse_packet-other n b e v in
      ap (λ r. if is_zero r then received_arp parsed parsed.arp else unparsed) good
      ∙ ap (received_arp parsed) no_arp
      ∙ ap (received_ip parsed) no_ip

module _ (h : HashTable Bucket) (env : Env) where
  open h use {Table}

  module _ (side : Side) (hwaddr : List ℕ) (n : ℕ) (b : Bytes) (cs : List Capture) (w : World Table)
      (later : Later h env side hwaddr n b cs) where
    -- The round, by what becomes of the frame.
    abbrev Turn : Received → Type 0
    Turn r =
        Returns h env side hwaddr w (some (n, b) ∷ cs)
          (and_then (receive_one h env side hwaddr r w) (λ x. receive_all h env side hwaddr cs))

    one_frame : Turn (receive_frame 14 n b)
    one_frame = elim (Bool-cases (u16 b 12 == 0x0806)) [
      | inl is_arp ↦
          let e = (==_iff (u16 b 12) 0x0806).0 is_arp in
          subst Turn (sym (frame_arp n b e)) (
            after_arp h env side hwaddr n b cs w (send_arp_reply env hwaddr (arp_packet n b) w)
              later e refl)
      | inr no_arp ↦ elim (Bool-cases (u16 b 12 == 0x0800)) [
        | inl ip ↦ elim (Bool-cases (b 14 / 16 == 4)) [
          | inl four ↦
              let e = (==_iff (u16 b 12) 0x0800).0 ip in
              let v = (==_iff (b 14 / 16) 4).0 four in
              subst Turn (sym (frame_ip n b e v)) (
                after_handled h env side hwaddr n b cs (parsed n b) w
                  (handle h env side (parsed n b) w) later (e, v)
                  (parse_packet-IsIpPacket n b e v).0 refl)
          | inr odd ↦
              let e = (==_iff (u16 b 12) 0x0800).0 ip in
              let v = not_equal (b 14 / 16) 4 odd in
              subst Turn (sym (frame_version n b e v)) (
                Returns-other h env side hwaddr n b cs w (receive_all h env side hwaddr cs w)
                  (not_equal (u16 b 12) 0x0806 no_arp) (λ both. v both.1) (later w))
        ]
        | inr no_ip ↦
            let v = not_equal (u16 b 12) 0x0800 no_ip in
            subst Turn (sym (frame_other n b (not_equal (u16 b 12) 0x0806 no_arp) v)) (
              Returns-other h env side hwaddr n b cs w (receive_all h env side hwaddr cs w)
                (not_equal (u16 b 12) 0x0806 no_arp) (λ both. v both.0) (later w))
      ]
    ]
      where
        not_equal : (x y : ℕ) → (x == y) ≡ false → x ≢ y
        not_equal x y off e = ground arith

  Returns-idle :
      (side : Side) (hwaddr : List ℕ) (w : World Table) (cs : List Capture)
      (o : Outcome Table (Unit {0}))
      → Returns h env side hwaddr w cs o
      → Returns h env side hwaddr w (none ∷ cs) o
  Returns-idle side hwaddr w cs (done r v) rest = idle rest
  Returns-idle side hwaddr w cs null_dereference rest = tt
  Returns-idle side hwaddr w cs deadlock rest = tt

  receive_all-Returns :
      (side : Side) (hwaddr : List ℕ) (cs : List Capture) (w : World Table)
      → Returns h env side hwaddr w cs (receive_all h env side hwaddr cs w)
  unfolding receive_all
  receive_all-Returns side hwaddr [] w = ended
  receive_all-Returns side hwaddr (none ∷ cs) w =
      Returns-idle side hwaddr w cs (receive_all h env side hwaddr cs w)
        (receive_all-Returns side hwaddr cs w)
  receive_all-Returns side hwaddr (some (n, b) ∷ cs) w =
      one_frame side hwaddr n b cs w (receive_all-Returns side hwaddr cs)

  -- A device can be used: its hardware address, and an index that is no error, have been found, and it
  -- is an Ethernet.
  abbrev pub IsUsable : Device → List ℕ → Type 0
  IsUsable dev hwaddr =
      (dev.mac ≡ some hwaddr) × ((k : ℕ) × (dev.index ≡ pos k)) × (dev.ethernet ≡ true)

  -- The two ways in which `receive_thread` returns.
  abbrev pub Receives : Side → Device → List Capture → World Table → World Table → Option ℤ → Type 0
  Receives side dev captures w v ret =
      ((ret ≡ some arg_config_bad) × (v ≡ w) × ¬ ((hwaddr : List ℕ) × IsUsable dev hwaddr))
      ⊎ ((ret ≡ none)
          × ((hwaddr : List ℕ) × IsUsable dev hwaddr × Rounds h env side hwaddr w captures v))

  module _ (side : Side) (captures : List Capture) (w v : World Table) (ret : Option ℤ) where
    all_received :
        (hwaddr : List ℕ) (o : Outcome Table (Unit {0}))
        → Returns h env side hwaddr w captures o
        → and_then o (λ r u. done none u) ≡ done ret v
        → (ret ≡ none) × Rounds h env side hwaddr w captures v
    all_received hwaddr (done r u) rest e =
        (cc, subst (Rounds h env side hwaddr w captures) (same_state e) rest)
      where
        same_state : {u : World Table} → done none u ≡ done ret v → u ≡ v
        same_state e = cc
    all_received hwaddr null_dereference rest e = absurd cc
    all_received hwaddr deadlock rest e = absurd cc

    refused : done (some arg_config_bad) w ≡ done ret v → (ret ≡ some arg_config_bad) × (v ≡ w)
    refused e = (cc, cc)

    device-Receives :
        (mac : Option (List ℕ)) (index : ℤ) (ethernet : Bool)
        → receive_mac h env side mac index ethernet captures w ≡ done ret v
        → Receives side (record { mac = mac; index = index; ethernet = ethernet }) captures w v ret
    device-Receives none index ethernet e =
        let (r, s) = refused e in inl (r, s, λ (hwaddr, (mac, k, ether)). no_mac mac)
      where
        no_mac : {x : List ℕ} → none ≡ some x → ⊥
        no_mac e = cc
    device-Receives (some hwaddr) (negsuc k) ethernet e =
        let (r, s) = refused e in inl (r, s, λ (hwaddr, (mac, (j, index), ether)). no_index index)
      where
        no_index : {j : ℕ} → negsuc k ≡ pos j → ⊥
        no_index e = cc
    device-Receives (some hwaddr) (pos k) false e =
        let (r, s) = refused e in inl (r, s, λ (hwaddr, (mac, k, ether)). no_ether ether)
      where
        no_ether : false ≡ true → ⊥
        no_ether e = cc
    device-Receives (some hwaddr) (pos k) true e =
        let (r, s) =
          all_received hwaddr (receive_all h env side hwaddr captures w)
            (receive_all-Returns side hwaddr captures w) e in
        inr (r, (hwaddr, (refl, (k, refl), refl), s))

  -- Whenever `receive_thread` returns: it has refused the device, which cannot be used, and changed
  -- nothing; or the device can be used, and the thread has done, for each captured frame in turn, what
  -- Rounds says: it has answered the ARP frames, given each IPv4 packet to the handler of its side, and
  -- done nothing at any other frame.
  pub receive_thread-Receives :
      (side : Side) (dev : Device) (captures : List Capture) (w v : World Table) (ret : Option ℤ)
      → receive_thread h env side dev captures w ≡ done ret v
      → Receives side dev captures w v ret
  unfolding receive_thread
  receive_thread-Receives side dev captures w v ret e =
      device-Receives side captures w v ret dev.mac dev.index dev.ethernet e

-- ===== src/Nat/Reply.antt =====
-- nat.c: the answer to a packet that went out is rewritten to the host that sent it.
use addressroutinggateway.Prelude.{
  suc, pos, ℕ, ◌≡◌, refl, sym, ap, ◌∙◌, List, [], ◌∷◌, Bool, true, Option, none, some, inr, arith,
}
use addressroutinggateway.World.{◌>>=◌, World, done, Env}
use addressroutinggateway.Packet.{PacketData, ip_protocol, get_source_port, get_dest_port}
use addressroutinggateway.Memory.{Bytes}
use addressroutinggateway.Hopper.Address.{address_at, generate_ip_corrected}
use addressroutinggateway.World.{current_time, malloc}
use addressroutinggateway.Hopper.Window.{same_bytes_refl}
use addressroutinggateway.Nat.Dict.{lookup-replace_self, lookup-append_new}
use addressroutinggateway.Nat.Table.{HashTable}
use addressroutinggateway.Nat.Entries.{
  touch_entry, NatEntry, Bucket, saddr, daddr, create_nat_bucket_key, inbound_match, outbound_match,
  find_entry, new_entry, create_nat_bucket,
}
use addressroutinggateway.Nat.Rewrite.{
  inbound_in, add_entry, add_bucket, find_or_add, outbound_in, outbound_entry, inbound_entry,
}

new_bucket-empty :
    (p : PacketData) (o key : ℕ)
    → find_entry (outbound_match p o) (create_nat_bucket p o key).first ≡ none
unfolding find_entry create_nat_bucket
new_bucket-empty p o key = refl

-- The packet q, with its IP header at o', comes from the outside host that p went to, and is sent to
-- the address and port that the entry shows there.
pub record IsReply (p : PacketData) (o : ℕ) (q : PacketData) (o' : ℕ) (e : NatEntry) : Type 0 where
  pub from_host : saddr q o' ≡ daddr p o
  pub from_port : get_source_port q ≡ get_dest_port p
  pub same_proto : ip_protocol q.data_bytes o' ≡ e.proto
  pub to_gate : daddr q o' ≡ e.gate_ip
  pub to_port : get_dest_port q ≡ e.gate_port

inbound_match-IsReply :
    (p : PacketData) (o : ℕ) (q : PacketData) (o' : ℕ) (e : NatEntry)
    → IsReply p o q o' e
    → inbound_match q o' e ≡ true
unfolding inbound_match
inbound_match-IsReply p o q o' e r =
    rw (r.same_proto, r.to_port, r.to_gate) (ground (arith, same_bytes_refl e.gate_ip))

find_entry-head :
    (test : NatEntry → Bool) (e : NatEntry) (rest : List NatEntry)
    → test e ≡ true
    → find_entry test (e ∷ rest) ≡ some e
unfolding find_entry
find_entry-head test e rest hit = rw hit refl

module _ (h : HashTable Bucket) where
  open h use {Table, items, hash_find, hash_add, store, find_items, items_add, items_store}

  hash_find-store :
      (k : ℕ) (v u : Bucket) (t : Table)
      → hash_find k t ≡ some u
      → hash_find k (store k v t) ≡ some v
  hash_find-store k v u t found =
      rw (find_items k (store k v t), items_store k v t)
        (lookup-replace_self k v u (items t) (sym (find_items k t) ∙ found))

  hash_find-add :
      (k : ℕ) (v : Bucket) (t : Table)
      → hash_find k t ≡ none
      → hash_find k (hash_add k v t) ≡ some v
  hash_find-add k v t missing =
      let out = sym (find_items k t) ∙ missing in
      rw (find_items k (hash_add k v t), items_add k v t out) (lookup-append_new k v (items t) out)

  -- The entry is the head of the bucket with the key, and was made for the packet.
  abbrev IsHead : PacketData → ℕ → ℕ → Table → NatEntry → Type 0
  IsHead p o key t e =
      (b : Bucket) × (rest : List NatEntry) × (hash_find key t ≡ some b)
      × (b.first ≡ e ∷ rest)
      × (e.int_ip ≡ saddr p o)
      × (e.int_port ≡ get_source_port p)

  module _ (env : Env) (p : PacketData) (o key : ℕ) where
    add_entry-IsHead :
        (order : List ℕ) (b : Bucket) (block : Option Bytes) (w w1 : World Table) (e : NatEntry)
        → w.order ≡ order
        → hash_find key w.nat_table ≡ some b
        → add_entry h env p o key b block w ≡ done (inr e) w1
        → IsHead p o key w1.nat_table e
    unfolding new_entry generate_ip_corrected current_time
    add_entry-IsHead order b none w w1 e known found ran = absurd (ground arith)
    add_entry-IsHead [] b (some block) w w1 e known found ran = absurd (ground arith)
    add_entry-IsHead (a ∷ rest) b (some block) w w1 e known found ran = (
      record b { first = entry ∷ b.first },
      b.first,
      ground
          (arith, hash_find-store key (record b { first = entry ∷ b.first }) b w.nat_table found),
      ground arith,
      ground arith,
      ground arith,
    )
      where
        entry : NatEntry
        entry =
            new_entry p o (address_at env (w.gates a) (pos 0) (env.clock w.clock_reads))
              (env.clock (suc w.clock_reads))

    -- No entry of the bucket with the key is for the packet.
    abbrev pub IsNew : Table → Type 0
    IsNew t =
        (b : Bucket) → hash_find key t ≡ some b → find_entry (outbound_match p o) b.first ≡ none

    outbound_in-IsHead :
        (b : Bucket) (w w1 : World Table) (e : NatEntry)
        → hash_find key w.nat_table ≡ some b
        → find_entry (outbound_match p o) b.first ≡ none
        → outbound_in h env p o key (some b) w ≡ done (inr e) w1
        → IsHead p o key w1.nat_table e
    unfolding malloc
    outbound_in-IsHead b w w1 e found new ran =
        add_entry-IsHead w.order b (env.malloc w.allocs) (record w { allocs = suc w.allocs }) w1 e
          refl found (rw (new, outbound_in) at ran)

    add_bucket-IsHead :
        (block : Option Bytes) (w w1 : World Table) (e : NatEntry)
        → hash_find key w.nat_table ≡ none
        → (add_bucket h env p o key block >>= outbound_in h env p o key) w ≡ done (inr e) w1
        → IsHead p o key w1.nat_table e
    add_bucket-IsHead none w w1 e missing ran = absurd (ground arith)
    add_bucket-IsHead (some block) w w1 e missing ran =
        outbound_in-IsHead (create_nat_bucket p o key)
          (record w { nat_table = hash_add key (create_nat_bucket p o key) w.nat_table }) w1 e
          (hash_find-add key (create_nat_bucket p o key) w.nat_table missing)
          (new_bucket-empty p o key) ran

    find_or_add-IsHead :
        (found : Option Bucket) (w w1 : World Table) (e : NatEntry)
        → hash_find key w.nat_table ≡ found
        → IsNew w.nat_table
        → (find_or_add h env p o key found >>= outbound_in h env p o key) w ≡ done (inr e) w1
        → IsHead p o key w1.nat_table e
    unfolding malloc
    find_or_add-IsHead (some b) w w1 e known new ran =
        outbound_in-IsHead b w w1 e known (new b known) ran
    find_or_add-IsHead none w w1 e known new ran =
        add_bucket-IsHead (env.malloc w.allocs) (record w { allocs = suc w.allocs }) w1 e known ran

  outbound_entry-IsHead :
      (env : Env) (p : PacketData) (o : ℕ) (w w1 : World Table) (e : NatEntry)
      → IsNew env p o (create_nat_bucket_key (daddr p o) (get_dest_port p)) w.nat_table
      → outbound_entry h env p o w ≡ done (inr e) w1
      → IsHead p o (create_nat_bucket_key (daddr p o) (get_dest_port p)) w1.nat_table e
  unfolding outbound_entry
  outbound_entry-IsHead env p o w w1 e new ran =
      let key = create_nat_bucket_key (daddr p o) (get_dest_port p) in
      find_or_add-IsHead env p o key (hash_find key w.nat_table) w w1 e refl new ran

  -- The state after a bucket's entry is marked as used.
  abbrev touched : Env → ℕ → Bucket → (NatEntry → Bool) → World Table → World Table
  touched env key b test w = record w {
    clock_reads = suc w.clock_reads;
    nat_table =
        store key (record b { first = touch_entry test (env.clock w.clock_reads) b.first })
          w.nat_table;
  }

  inbound_in-found :
      (env : Env) (q : PacketData) (o' key : ℕ) (b : Bucket) (e : NatEntry) (w : World Table)
      → find_entry (inbound_match q o') b.first ≡ some e
      → inbound_in h env q o' key (some b) w
        ≡ done (inr e) (touched env key b (inbound_match q o') w)
  unfolding current_time
  inbound_in-found env q o' key b e w hit = rw (hit, inbound_in) refl

  -- Whenever a packet p is the first of its connection (no entry of its bucket is for it) and
  -- `outbound_entry` gives it an entry, that entry holds p's source address and port, and the search
  -- for a reply that comes in later, while the table is the same, returns that very entry.
  pub inbound_entry-outbound_entry :
      (env : Env) (p : PacketData) (o : ℕ) (q : PacketData) (o' : ℕ) (w w1 w2 : World Table)
      → (e : NatEntry)
      → IsNew env p o (create_nat_bucket_key (daddr p o) (get_dest_port p)) w.nat_table
      → outbound_entry h env p o w ≡ done (inr e) w1
      → w2.nat_table ≡ w1.nat_table
      → IsReply p o q o' e
      → (e.int_ip ≡ saddr p o)
        × (e.int_port ≡ get_source_port p)
        × (w3 : World Table) × (inbound_entry h env q o' w2 ≡ done (inr e) w3)
  unfolding inbound_entry
  inbound_entry-outbound_entry env p o q o' w w1 w2 e new ran same r =
      let key = create_nat_bucket_key (daddr p o) (get_dest_port p) in
      let (b, rest, found, head, ip, port) = outbound_entry-IsHead env p o w w1 e new ran in
      (
        ip,
        port,
        touched env key b (inbound_match q o') w2,
        rw (r.from_host, r.from_port, ap (hash_find key) same ∙ found)
            (inbound_in-found env q o' key b e w2 (
              ap (find_entry (inbound_match q o')) head
              ∙ find_entry-head (inbound_match q o') e rest (inbound_match-IsReply p o q o' e r))),
      )

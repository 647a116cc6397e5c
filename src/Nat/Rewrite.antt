-- ===== src/Nat/Rewrite.antt =====
-- nat.c: `do_nat_inbound_rewrite` and `do_nat_outbound_rewrite`.
use addressroutinggateway.Prelude.{
  Bool, ℕ, ◌+◌, ◌∷◌, Option, none, some, ◌⊎◌, inl, inr, ℤ, pos, is_neg, if◌then◌else◌,
}
use addressroutinggateway.Memory.{Bytes, write}
use addressroutinggateway.Settings.{arg_bucket_not_found, arg_entry_not_found, enomem}
use addressroutinggateway.Packet.{
  PacketData, get_source_port, get_dest_port, set_source_port, set_dest_port,
}
use addressroutinggateway.Packet.Checksum.{udp_csum, tcp_csum}
use addressroutinggateway.Packet.Buffers.{copy_packet, send_packet}
use addressroutinggateway.World.{
  Run, pure, deref, gets, modify, ◌>>=◌, ◌>>◌, Env, current_time, malloc,
}
use addressroutinggateway.Hopper.Address.{generate_ip_corrected}
use addressroutinggateway.Hopper.Networks.{gate_info}
use addressroutinggateway.Nat.Table.{HashTable}
use addressroutinggateway.Nat.Entries.{
  NatEntry, Bucket, saddr, daddr, create_nat_bucket_key, inbound_match, outbound_match, find_entry,
  touch_entry, create_nat_bucket, new_entry,
}

-- The copy with an address and a port changed, and its checksums.
unfoldable pub rewrite_destination : NatEntry → PacketData → ℕ → PacketData
rewrite_destination e c o = tcp_csum (
    udp_csum
      (set_dest_port (record c { data_bytes = write c.data_bytes (o + 16) e.int_ip }) e.int_port))

unfoldable pub rewrite_source : NatEntry → PacketData → ℕ → PacketData
rewrite_source e c o = tcp_csum (
    udp_csum (
      set_source_port (record c { data_bytes = write c.data_bytes (o + 12) e.gate_ip })
        e.gate_port))

module _ (h : HashTable Bucket) (env : Env) where
  open h use {Table, hash_find, hash_add, store}

  -- `ret` of `send_packet`, 0 on success.
  abbrev pub send_result : PacketData → Run Table ℤ
  send_result p = do ret ← send_packet env p; pure (if is_neg ret then ret else pos 0)

  -- The part of both functions behind the table: copy, rewrite, send.
  abbrev pub send_with : (PacketData → ℕ → PacketData) → Option PacketData → Run Table ℤ
  send_with rewrite none = pure enomem
  send_with rewrite (some c) = do o ← deref c.ipv4; send_result (rewrite c o)

  unfoldable pub send_rewritten : (PacketData → ℕ → PacketData) → PacketData → Run Table ℤ
  send_rewritten rewrite p = do c ← copy_packet env p; send_with rewrite c

  -- Mark the entry that passes in the bucket as used now.
  abbrev pub touch : ℕ → Bucket → (NatEntry → Bool) → Run Table (Unit {0})
  touch key b test = do
    now ← current_time env
    modify (λ w. record w {
      nat_table = store key (record b { first = touch_entry test now b.first }) w.nat_table;
    })

  -- The entry for a packet from outside, or the error.
  abbrev pub inbound_in : PacketData → ℕ → ℕ → Option Bucket → Run Table (ℤ ⊎ NatEntry)
  inbound_in p o key none = pure (inl arg_bucket_not_found)
  inbound_in p o key (some b) = elim (find_entry (inbound_match p o) b.first) [
    | none ↦ pure (inl arg_entry_not_found)
    | some e ↦ touch key b (inbound_match p o) >> pure (inr e)
  ]

  unfoldable pub inbound_entry : PacketData → ℕ → Run Table (ℤ ⊎ NatEntry)
  unfolding find_entry touch_entry current_time
  inbound_entry p o = do
    let key = create_nat_bucket_key (saddr p o) (get_source_port p)
    b ← gets (λ w. hash_find key w.nat_table)
    inbound_in p o key b

  abbrev pub inbound_rest : PacketData → ℤ ⊎ NatEntry → Run Table ℤ
  inbound_rest p (inl err) = pure err
  inbound_rest p (inr e) = send_rewritten (rewrite_destination e) p

  unfoldable pub do_nat_inbound_rewrite : PacketData → Run Table ℤ
  do_nat_inbound_rewrite p = do o ← deref p.ipv4; found ← inbound_entry p o; inbound_rest p found

  -- `create_nat_bucket`, which adds what it creates.
  abbrev pub add_bucket : PacketData → ℕ → ℕ → Option Bytes → Run Table (Option Bucket)
  add_bucket p o key none = pure none
  add_bucket p o key (some block) = do
    modify (λ w. record w { nat_table = hash_add key (create_nat_bucket p o key) w.nat_table })
    pure (some (create_nat_bucket p o key))

  abbrev pub find_or_add : PacketData → ℕ → ℕ → Option Bucket → Run Table (Option Bucket)
  find_or_add p o key (some b) = pure (some b)
  find_or_add p o key none = do block ← malloc env; add_bucket p o key block

  -- `create_nat_entry`: the new entry becomes the head of the bucket, and its time is set.
  abbrev pub add_entry : PacketData → ℕ → ℕ → Bucket → Option Bytes → Run Table (ℤ ⊎ NatEntry)
  add_entry p o key b none = pure (inl enomem)
  add_entry p o key b (some block) = do
    a ← gets gate_info
    local ← deref a
    g ← gets (λ w. w.gates local)
    gate ← generate_ip_corrected env g (pos 0)
    now ← current_time env
    modify (λ w. record w {
      nat_table = store key (record b { first = new_entry p o gate now ∷ b.first }) w.nat_table;
    })
    pure (inr (new_entry p o gate now))

  abbrev pub outbound_in : PacketData → ℕ → ℕ → Option Bucket → Run Table (ℤ ⊎ NatEntry)
  outbound_in p o key none = pure (inl enomem)
  outbound_in p o key (some b) = elim (find_entry (outbound_match p o) b.first) [
    | some e ↦ touch key b (outbound_match p o) >> pure (inr e)
    | none ↦ do block ← malloc env; add_entry p o key b block
  ]

  -- The entry for a packet to the outside, made if there is none, or the error.
  unfoldable pub outbound_entry : PacketData → ℕ → Run Table (ℤ ⊎ NatEntry)
  unfolding find_entry touch_entry current_time malloc create_nat_bucket new_entry
  outbound_entry p o = do
    let key = create_nat_bucket_key (daddr p o) (get_dest_port p)
    found ← gets (λ w. hash_find key w.nat_table)
    b ← find_or_add p o key found
    outbound_in p o key b

  abbrev pub outbound_rest : PacketData → ℤ ⊎ NatEntry → Run Table ℤ
  outbound_rest p (inl err) = pure err
  outbound_rest p (inr e) = send_rewritten (rewrite_source e) p

  unfoldable pub do_nat_outbound_rewrite : PacketData → Run Table ℤ
  do_nat_outbound_rewrite p = do o ← deref p.ipv4; found ← outbound_entry p o; outbound_rest p found

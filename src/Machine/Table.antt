-- ===== src/Machine/Table.antt =====
-- nat.c: the rewriting of packets makes only steps of the program.
use addressroutinggateway.Prelude.{
  ℕ, suc, ◌≡◌, refl, Bool, Option, none, some, Option-cases, ◌⊎◌, inl, inr, ℤ, pos,
}
use addressroutinggateway.Memory.{Bytes}
use addressroutinggateway.Utility.Time.{Timespec}
use addressroutinggateway.Packet.{PacketData, get_dest_port}
use addressroutinggateway.World.{World, Env, Gate, deref, gets, modify, malloc, current_time}
use addressroutinggateway.Hopper.Address.{generate_ip_corrected}
use addressroutinggateway.World.Keeps.{Keeps, After, After-next}
use addressroutinggateway.Nat.{
  HashTable, Bucket, NatEntry, daddr, create_nat_bucket_key, create_nat_bucket, find_entry,
  inbound_match, outbound_match,
}
use addressroutinggateway.Nat.{
  send_with, send_rewritten, touch, inbound_in, inbound_entry, inbound_rest, do_nat_inbound_rewrite,
  add_bucket, find_or_add, add_entry, outbound_in, outbound_entry, outbound_rest,
  do_nat_outbound_rewrite,
}
use addressroutinggateway.Machine.Steps.{Step}
use addressroutinggateway.Machine.Calls.{
  Runs, call_rules, Runs-pure, Runs-malloc, Runs-current_time, Runs-generate_ip, Runs-deref,
  Runs-gets,
}
use addressroutinggateway.Machine.Program.{
  Move, Moves, stay, move, Moves-IsPreorder, Makes, Makes-Runs, Makes-pure, Makes-bind, Makes-then,
}

module _ (h : HashTable Bucket) (env : Env) where
  open h use {Table, hash_find, hash_add, store}

  quiet_move : (w : World Table) → Move h w (record w { allocs = suc w.allocs })
  quiet_move w = Move.gateways (
      Step.quiet (record {
        same_gates = refl;
        same_locked = refl;
        same_order = refl;
        same_fresh = refl;
        same_table = refl;
      }))

  Makes-store :
      (k : ℕ) (b : Bucket) → Makes h (modify (λ w. record w { nat_table = store k b w.nat_table }))
  unfolding Keeps
  Makes-store k b w = move stay (Move.store_bucket k b)

  ruleset make_rules = (Makes-pure, Makes-bind, Makes-then, Makes-store)

  Runs-send_with :
      (f : PacketData → ℕ → PacketData) (c : Option PacketData) → Runs (send_with h env f c)
  Runs-send_with f none = Runs-pure _ _ _
  Runs-send_with f (some c) = search call_rules depth 10

  Runs-send_rewritten :
      (f : PacketData → ℕ → PacketData) (p : PacketData) → Runs (send_rewritten h env f p)
  unfolding send_rewritten
  Runs-send_rewritten f p = search (call_rules, Runs-send_with)

  Makes-touch : (key : ℕ) (b : Bucket) (test : NatEntry → Bool) → Makes h (touch h env key b test)
  Makes-touch key b test =
      search (make_rules, Makes-Runs h Timespec (current_time env) (Runs-current_time _ env))

  Makes-inbound_in :
      (p : PacketData) (o key : ℕ) (b : Option Bucket) → Makes h (inbound_in h env p o key b)
  Makes-inbound_in p o key none = Makes-pure h _ _
  Makes-inbound_in p o key (some b) = elim (Option-cases (find_entry (inbound_match p o) b.first)) [
    | inl out ↦ rw (out, inbound_in) (Makes-pure h _ _)
    | inr (e, found) ↦ rw (found, inbound_in) (search (make_rules, Makes-touch))
  ]

  Runs-inbound_rest : (p : PacketData) (e : ℤ ⊎ NatEntry) → Runs (inbound_rest h env p e)
  Runs-inbound_rest p (inl err) = Runs-pure _ _ _
  Runs-inbound_rest p (inr e) = Runs-send_rewritten _ p

  Makes-inbound_rest : (p : PacketData) (e : ℤ ⊎ NatEntry) → Makes h (inbound_rest h env p e)
  Makes-inbound_rest p e = Makes-Runs h _ _ (Runs-inbound_rest p e)

  Makes-deref : (A : Type 0) (x : Option A) → Makes h (deref x)
  Makes-deref A x = Makes-Runs h _ _ (Runs-deref Table A x)

  Makes-gets : (A : Type 0) (f : World Table → A) → Makes h (gets f)
  Makes-gets A f = Makes-Runs h _ _ (Runs-gets Table A f)

  Makes-inbound_entry : (p : PacketData) (o : ℕ) → Makes h (inbound_entry h env p o)
  unfolding inbound_entry
  Makes-inbound_entry p o = search (make_rules, Makes-gets, Makes-inbound_in)

  pub Makes-do_nat_inbound_rewrite : (p : PacketData) → Makes h (do_nat_inbound_rewrite h env p)
  unfolding do_nat_inbound_rewrite
  Makes-do_nat_inbound_rewrite p =
      search (make_rules, Makes-deref, Makes-inbound_entry, Makes-inbound_rest)

  -- The bucket that `create_nat_bucket` adds has a key that the table lacks.
  After-add_bucket :
      (p : PacketData) (o key : ℕ) (block : Option Bytes) (w : World Table)
      → hash_find key w.nat_table ≡ none
      → After (Moves h w) (add_bucket h env p o key block (record w { allocs = suc w.allocs }))
  After-add_bucket p o key none w missing = move stay (quiet_move w)
  After-add_bucket p o key (some block) w missing =
      move (move stay (quiet_move w)) (Move.add_bucket key (create_nat_bucket p o key) missing)

  After-find_or_add :
      (p : PacketData) (o key : ℕ) (found : Option Bucket) (w : World Table)
      → hash_find key w.nat_table ≡ found
      → After (Moves h w) (find_or_add h env p o key found w)
  unfolding malloc
  After-find_or_add p o key (some b) w known = stay
  After-find_or_add p o key none w missing =
      After-add_bucket p o key (env.malloc w.allocs) w missing

  Makes-malloc : Makes h (malloc env)
  Makes-malloc = Makes-Runs h _ _ (Runs-malloc Table env)

  Makes-current_time : Makes h (current_time env)
  Makes-current_time = Makes-Runs h _ _ (Runs-current_time Table env)

  Makes-generate_ip : (g : Gate) → Makes h (generate_ip_corrected env g (pos 0))
  Makes-generate_ip g = Makes-Runs h _ _ (Runs-generate_ip Table env g (pos 0))

  Makes-add_entry :
      (p : PacketData) (o key : ℕ) (b : Bucket) (block : Option Bytes)
      → Makes h (add_entry h env p o key b block)
  Makes-add_entry p o key b none = Makes-pure h _ _
  Makes-add_entry p o key b (some block) =
      search (make_rules, Makes-deref, Makes-gets, Makes-current_time, Makes-generate_ip) depth 20
        fits 3000

  Makes-outbound_in :
      (p : PacketData) (o key : ℕ) (b : Option Bucket) → Makes h (outbound_in h env p o key b)
  Makes-outbound_in p o key none = Makes-pure h _ _
  Makes-outbound_in p o key (some b) =
      elim (Option-cases (find_entry (outbound_match p o) b.first)) [
        | inl out ↦ rw (out, outbound_in) (search (make_rules, Makes-malloc, Makes-add_entry))
        | inr (e, found) ↦ rw (found, outbound_in) (search (make_rules, Makes-touch))
      ]

  Makes-outbound_entry : (p : PacketData) (o : ℕ) → Makes h (outbound_entry h env p o)
  unfolding outbound_entry Keeps
  Makes-outbound_entry p o w =
      let key = create_nat_bucket_key (daddr p o) (get_dest_port p) in
      After-next (Moves h) (Moves-IsPreorder h) w
        (find_or_add h env p o key (hash_find key w.nat_table) w) (outbound_in h env p o key)
        (After-find_or_add p o key (hash_find key w.nat_table) w refl) (Makes-outbound_in p o key)

  Runs-outbound_rest : (p : PacketData) (e : ℤ ⊎ NatEntry) → Runs (outbound_rest h env p e)
  Runs-outbound_rest p (inl err) = Runs-pure _ _ _
  Runs-outbound_rest p (inr e) = Runs-send_rewritten _ p

  Makes-outbound_rest : (p : PacketData) (e : ℤ ⊎ NatEntry) → Makes h (outbound_rest h env p e)
  Makes-outbound_rest p e = Makes-Runs h _ _ (Runs-outbound_rest p e)

  pub Makes-do_nat_outbound_rewrite : (p : PacketData) → Makes h (do_nat_outbound_rewrite h env p)
  unfolding do_nat_outbound_rewrite
  Makes-do_nat_outbound_rewrite p =
      search (make_rules, Makes-deref, Makes-outbound_entry, Makes-outbound_rest)

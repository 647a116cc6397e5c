-- ===== src/Security/Inbound.antt =====
-- director.c: what `direct_inbound` asks of a tunnelled packet before anything of it is sent on.
use addressroutinggateway.Security.Hops.{IsHop, is_valid_ip-IsHop}
use addressroutinggateway.Prelude.{
  ℕ, ◌≡◌, refl, sym, ap, ◌∙◌, subst, Bool, true, false, ◌⊎◌, inl, inr, Option, none, some, ℤ,
  if◌then◌else◌,
}
use addressroutinggateway.Packet.{PacketData}
use addressroutinggateway.World.{
  World, Outcome, done, null_dereference, deadlock, and_then, Env, Gate, pure, deref, gets, ◌>>=◌,
  set_gate, update_proto, gates-set_gate,
}
use addressroutinggateway.World.Keeps.{state_of}
use addressroutinggateway.Hopper.Address.{is_valid_ip}
use addressroutinggateway.Hopper.Networks.{gate_info, get_arg_network}
use addressroutinggateway.Hopper.Admin.{note_bad_ip, note_good_ip, is_valid_local_ip, do_arg_unwrap}
use addressroutinggateway.Protocol.Message.{is_admin_msg}
use addressroutinggateway.Protocol.Wrapped.{process_arg_wrapped}
use addressroutinggateway.Nat.{HashTable, Bucket, saddr, daddr}
use addressroutinggateway.Director.{
  Drop, hopper_error, drop_if, admin_inbound, unwrap_inbound, check_source, check_dest,
  wrapped_inbound, arg_inbound, inbound_from, direct_inbound,
}
use addressroutinggateway.Security.Authentic.{Authenticates}
use addressroutinggateway.Security.Tunnel.{process_arg_wrapped-PassesOn}

module _ (h : HashTable Bucket) (env : Env) (p : PacketData) (o r : ℕ) where
  open h use {Table}

  -- Of a packet from the gateway at r, with its IP header at o: the gateway is connected; the packet
  -- was sent to an address of the local gateway, and from one of that gateway; and it is authentic.
  abbrev pub IsAdmitted : World Table → Type 0
  IsAdmitted w =
      ((w.gates r).connected ≡ true)
      × ((l : ℕ) × (gate_info w ≡ some l) × IsHop env (w.gates l) (daddr p o))
      × IsHop env (w.gates r) (saddr p o)
      × ((a : ℕ) × (p.arg ≡ some a) × Authenticates env (w.gates r) p a)

  -- Nothing was sent, or the packet of the connected gateway is authentic.
  abbrev Passes : World Table → World Table → Type 0
  Passes w v =
      (v.sent ≡ w.sent)
      ⊎ (((w.gates r).connected ≡ true)
          × (a : ℕ) × (p.arg ≡ some a)
          × Authenticates env (w.gates r) p a)

  -- What makes a packet authentic is not among the counts of a gateway.
  record IsAlike (g k : Gate) : Type 0 where
    up : g.connected ≡ k.connected
    key : g.sym_key ≡ k.sym_key
    public : g.rsa ≡ k.rsa

  alike_Authenticates :
      (g k : Gate) (a : ℕ) → IsAlike g k → Authenticates env g p a → Authenticates env k p a
  alike_Authenticates g k a alike (block, a', here, inl (wrapped, up, mac)) =
      (block, a', here, inl (wrapped, sym alike.up ∙ up, rw alike.key at mac))
  alike_Authenticates g k a alike (block, a', here, inr (other, valid)) =
      (block, a', here, inr (other, rw alike.public at valid))

  returned_Passes :
      (l : ℕ) (w v : World Table) (d : Option Drop) (x : Outcome Table ℤ)
      → process_arg_wrapped env l r p w ≡ x
      → and_then x (λ ret. pure (drop_if hopper_error ret)) ≡ done d v
      → Passes w v
  returned_Passes l w v d null_dereference ran e = absurd cc
  returned_Passes l w v d deadlock ran e = absurd cc
  returned_Passes l w v d (done ret u) ran e =
      subst (Passes w) (states e) (process_arg_wrapped-PassesOn Table env l r p w u ret ran).0
    where
      states : done (drop_if hopper_error ret) u ≡ done d v → u ≡ v
      states e = cc

  unwrap_Passes :
      (x : Option ℕ) (w v : World Table) (d : Option Drop)
      → and_then
          ((deref x >>= λ l. process_arg_wrapped env l r p) w)
          (λ ret. pure (drop_if hopper_error ret))
        ≡ done d v
      → Passes w v
  unwrap_Passes none w v d e = absurd cc
  unwrap_Passes (some l) w v d e = returned_Passes l w v d (process_arg_wrapped env l r p w) refl e

  -- The count of good addresses does not matter.
  Passes-noted :
      (g' : Gate) (w v : World Table)
      → IsAlike g' (w.gates r)
      → Passes (set_gate r g' w) v
      → Passes w v
  unfolding set_gate
  Passes-noted g' w v alike (inl same) = inl same
  Passes-noted g' w v alike (inr (up, a, here, authentic)) =
      let mine = gates-set_gate r g' w in
      inr (
        sym (ap (λ (g : Gate). g.connected) mine ∙ alike.up) ∙ up,
        a,
        here,
        alike_Authenticates g' (w.gates r) a alike
            (subst (λ (g : Gate). Authenticates env g p a) mine authentic),
      )

  unwrap_inbound-Passes :
      (b : Bool) (w v : World Table) (d : Option Drop)
      → unwrap_inbound h env p r b w ≡ done d v
      → (v.sent ≡ w.sent) ⊎ ((b ≡ true) × Passes w v)
  unfolding note_bad_ip note_good_ip update_proto do_arg_unwrap set_gate
  unwrap_inbound-Passes false w v d e = inl (ap (λ x. (state_of w x).sent) (sym e))
  unwrap_inbound-Passes true w v d e = inr (
    refl,
    Passes-noted _ w v (record { up = refl; key = refl; public = refl }) (unwrap_Passes _ _ v d e),
  )

  abbrev IsPeers : World Table → Type 0
  IsPeers w =
      ((w.gates r).connected ≡ true)
      × (a : ℕ) × (p.arg ≡ some a)
      × Authenticates env (w.gates r) p a

  tested_source :
      (w v : World Table) (d : Option Drop) (x : Outcome Table Bool)
      → is_valid_ip env r (saddr p o) w ≡ x
      → and_then x (λ valid. unwrap_inbound h env p r valid) ≡ done d v
      → (v.sent ≡ w.sent) ⊎ (IsHop env (w.gates r) (saddr p o) × IsPeers w)
  tested_source w v d null_dereference ran e = absurd cc
  tested_source w v d deadlock ran e = absurd cc
  tested_source w v d (done valid u) ran e =
      let (same, hop) = is_valid_ip-IsHop env r (saddr p o) w u valid ran in
      elim (unwrap_inbound-Passes valid u v d e) [
        | inl silent ↦ inl (silent ∙ same.sent)
        | inr (passed, inl silent) ↦ inl (silent ∙ same.sent)
        | inr (passed, inr peers) ↦ inr (
          hop passed,
          subst
              (λ (gates : ℕ → Gate).
                ((gates r).connected ≡ true)
                × (a : ℕ) × (p.arg ≡ some a)
                × Authenticates env (gates r) p a)
              same.gates peers,
        )
      ]

  check_source-IsPeers :
      (b : Bool) (w v : World Table) (d : Option Drop)
      → check_source h env p o r b w ≡ done d v
      → (v.sent ≡ w.sent) ⊎ ((b ≡ true) × IsHop env (w.gates r) (saddr p o) × IsPeers w)
  unfolding note_bad_ip update_proto set_gate
  check_source-IsPeers false w v d e = inl (ap (λ x. (state_of w x).sent) (sym e))
  check_source-IsPeers true w v d e =
      elim (tested_source w v d (is_valid_ip env r (saddr p o) w) refl e) [
        | inl silent ↦ inl silent
        | inr (hop, peers) ↦ inr (refl, hop, peers)
      ]

  tested_dest :
      (l : ℕ) (w v : World Table) (d : Option Drop) (x : Outcome Table Bool)
      → gate_info w ≡ some l
      → is_valid_ip env l (daddr p o) w ≡ x
      → and_then x (λ valid. check_source h env p o r valid) ≡ done d v
      → (v.sent ≡ w.sent) ⊎ IsAdmitted w
  tested_dest l w v d null_dereference first ran e = absurd cc
  tested_dest l w v d deadlock first ran e = absurd cc
  tested_dest l w v d (done valid u) first ran e =
      let (same, hop) = is_valid_ip-IsHop env l (daddr p o) w u valid ran in
      elim (check_source-IsPeers valid u v d e) [
        | inl silent ↦ inl (silent ∙ same.sent)
        | inr (passed, from, peers) ↦
            let (from', (up, authentic)) =
              subst
                (λ (gates : ℕ → Gate).
                  IsHop env (gates r) (saddr p o)
                  × (((gates r).connected ≡ true)
                      × ((a : ℕ) × (p.arg ≡ some a) × Authenticates env (gates r) p a)))
                same.gates (from, (peers.0, (peers.1, peers.2, peers.3))) in
            inr (up, (l, first, hop passed), from', authentic)
      ]

  local_dest :
      (x : Option ℕ) (w v : World Table) (d : Option Drop)
      → gate_info w ≡ x
      → and_then
          ((deref x >>= λ l. is_valid_ip env l (daddr p o)) w)
          (λ valid. check_source h env p o r valid)
        ≡ done d v
      → (v.sent ≡ w.sent) ⊎ IsAdmitted w
  local_dest none w v d first e = absurd cc
  local_dest (some l) w v d first e =
      tested_dest l w v d (is_valid_ip env l (daddr p o) w) first refl e

  check_dest-IsAdmitted :
      (b : Bool) (w v : World Table) (d : Option Drop)
      → check_dest h env p o r b w ≡ done d v
      → (v.sent ≡ w.sent) ⊎ IsAdmitted w
  unfolding is_valid_local_ip
  check_dest-IsAdmitted false w v d e = inl (ap (λ x. (state_of w x).sent) (sym e))
  check_dest-IsAdmitted true w v d e = local_dest (gate_info w) w v d refl e

  -- The packet has its IP header at o and an ARG header at a, comes from the address of a known gateway,
  -- and is no admin message. Whenever `direct_inbound` returns, it has sent nothing, or all of this is
  -- true: the gateway is connected, the packet was sent to an address that the local gateway has, or had
  -- a hop before, at some reading of the clock, and from one that the other has so, and it carries the
  -- HMAC or the signature of that gateway.
  pub direct_inbound-IsAdmitted :
      (a : ℕ) (w v : World Table) (d : Option Drop)
      → p.ipv4 ≡ some o
      → p.arg ≡ some a
      → get_arg_network (saddr p o) w ≡ some r
      → is_admin_msg p.data_bytes a ≡ false
      → direct_inbound h env p w ≡ done d v
      → (v.sent ≡ w.sent) ⊎ IsAdmitted w
  unfolding direct_inbound
  direct_inbound-IsAdmitted a w v d ip arg known no_admin e =
      check_dest-IsAdmitted (w.gates r).connected w v d (sym dispatched ∙ e)
    where
      dispatched : direct_inbound h env p w ≡ check_dest h env p o r (w.gates r).connected w
      dispatched =
          ap
            (λ (x : Option ℕ).
              (deref x >>= λ o.
              gets (get_arg_network (saddr p o)) >>= λ gate. inbound_from h env p o gate)
                w)
            ip
          ∙ ap (λ gate. inbound_from h env p o gate w) known
          ∙ ap (λ x. arg_inbound h env p o r x w) arg
          ∙ ap
              (λ (admin : Bool).
                (if admin then admin_inbound h env p r else wrapped_inbound h env p o r) w)
              no_admin

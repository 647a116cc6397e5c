-- ===== src/Security/Authentic.antt =====
-- protocol.c: a message is taken only from a packet that carries the peer's HMAC or signature.
use addressroutinggateway.Prelude.{
  subst, ℕ, ◌≡◌, ◌≢◌, refl, sym, ap, ◌∙◌, List, [], ◌∷◌, true, Option, none, some, ◌⊎◌, ℤ, pos,
  negsuc, arith,
}
use addressroutinggateway.Memory.{Bytes, slice, write, copy}
use addressroutinggateway.Settings.{rsa_sig_size}
use addressroutinggateway.Packet.{PacketData, parse_packet}
use addressroutinggateway.Packet.Buffers.{raw_packet, copy_packet, copy_data, copy_with}
use addressroutinggateway.World.{
  gates-set_gate, set_gate, and_then, update_proto, read_gate, ◌>>=◌, deref, World, Outcome,
  null_dereference, deadlock, done, Env, Gate, malloc,
}
use addressroutinggateway.Packet.Reparse.{parse_packet-SameFrame}
use addressroutinggateway.Machine.Steps.{IsQuiet}
use addressroutinggateway.Machine.Quiet.{Quietly-copy_packet}
use addressroutinggateway.World.Keeps.{Keeps-done}
use addressroutinggateway.Hopper.Address.{same_bytes}
use addressroutinggateway.Protocol.Message.{
  ArgMsg, hdr_type, hdr_seq, hdr_len, hdr_sig, arg_wrapped_msg,
}
use addressroutinggateway.Protocol.Receive.{
  SeqCheck, check_seq, advance, recheck, bad, clear_sig, hmac_matches, signature_valid, verify,
  after_verify, check_copy, check_packet, process_arg_packet,
}

pub same_bytes→eq : (xs ys : List ℕ) → same_bytes xs ys ≡ true → xs ≡ ys
same_bytes→eq [] [] e = refl
same_bytes→eq [] (y ∷ ys) e = absurd cc
same_bytes→eq (x ∷ xs) [] e = absurd cc
same_bytes→eq (x ∷ xs) (y ∷ ys) e = ground (arith, same_bytes→eq xs ys)

-- The bytes of the header at a, with `sig` cleared, and of its data.
abbrev pub covered : Bytes → ℕ → List ℕ
covered c a = slice c a (hdr_len c a)

-- The packet with the bytes b and its header at a, of which c is a copy with the header at a' and
-- `sig` cleared. A tunnelled packet comes from a connected gateway and carries the HMAC under its
-- symmetric key (in a field of RSA_SIG_SIZE bytes that ends in zeros); any other carries a signature
-- that its public key verifies.
abbrev pub IsAuthentic : Env → Gate → Bytes → ℕ → Bytes → ℕ → Type 0
IsAuthentic env g b a c a' =
    ((hdr_type c a' ≡ arg_wrapped_msg)
      × (g.connected ≡ true)
      × (slice (write c (hdr_sig a') (env.md_hmac g.sym_key (covered c a'))) (hdr_sig a')
            rsa_sig_size
          ≡ slice b (hdr_sig a) rsa_sig_size))
    ⊎ ((hdr_type c a' ≢ arg_wrapped_msg)
        × (env.rsa_verify g.rsa (env.sha1 (covered c a')) (slice b (hdr_sig a) rsa_sig_size)
            ≡ true))

verify-IsAuthentic :
    (env : Env) (g : Gate) (b : Bytes) (a : ℕ) (c : Bytes) (a' n : ℕ)
    → verify env g b a c a' ≡ pos n
    → IsAuthentic env g b a c a'
unfolding verify hmac_matches signature_valid
verify-IsAuthentic env g b a c a' n e = ground (
  arith,
  same_bytes→eq
      (slice (write c (hdr_sig a') (env.md_hmac g.sym_key (covered c a'))) (hdr_sig a')
        rsa_sig_size)
      (slice b (hdr_sig a) rsa_sig_size),
)

-- The copy of the packet in a block of memory, parsed again.
abbrev pub copy_of : PacketData → Bytes → PacketData
copy_of p block =
    (parse_packet (raw_packet p.len p.link_layer_len (copy p.len p.data_bytes block))).0

-- The copy of the packet, which has its header at a, is authentic for the gateway. What the block held
-- before stays behind the packet.
abbrev pub Authenticates : Env → Gate → PacketData → ℕ → Type 0
Authenticates env g p a =
    (block : Bytes) × (a' : ℕ) × ((copy_of p block).arg ≡ some a')
    × IsAuthentic env g p.data_bytes a (clear_sig (copy p.len p.data_bytes block) a') a'

pub copied_bytes :
    (p : PacketData) (block : Bytes) → (copy_of p block).data_bytes ≡ copy p.len p.data_bytes block
copied_bytes p block =
    (parse_packet-SameFrame (raw_packet p.len p.link_layer_len (copy p.len p.data_bytes block))).1

abbrev IsCopy : PacketData → PacketData → Type 0
IsCopy c p = (block : Bytes) × (c ≡ copy_of p block)

module _ (T : Type 0) (env : Env) where
  copy_with-IsCopy :
      (p : PacketData) (block : Option Bytes) (w v : World T) (c : PacketData)
      → copy_with env p block w ≡ done (some c) v
      → IsCopy c p
  copy_with-IsCopy p none w v c e = absurd cc
  copy_with-IsCopy p (some b) w v c e = (b, sym (some_of e))
    where
      some_of : {x y : PacketData} {u v : World T} → done (some x) u ≡ done (some y) v → x ≡ y
      some_of h = cc

  copy_data-IsCopy :
      (p : PacketData) (s : Option Bytes) (w v : World T) (c : PacketData)
      → copy_data env p s w ≡ done (some c) v
      → IsCopy c p
  unfolding malloc
  copy_data-IsCopy p none w v c e = absurd cc
  copy_data-IsCopy p (some s) w v c e = copy_with-IsCopy p (env.malloc w.allocs) _ v c e

  copy_packet-IsCopy :
      (p : PacketData) (w v : World T) (c : PacketData)
      → copy_packet env p w ≡ done (some c) v
      → IsCopy c p
  unfolding copy_packet malloc
  copy_packet-IsCopy p w v c e = copy_data-IsCopy p (env.malloc w.allocs) _ v c e

  -- The signature check that stands before the message is taken.
  after_verify-pos :
      (l r : ℕ) (check : SeqCheck) (b : Bytes) (u : ℕ) (c : Bytes) (a' u' : ℕ) (ret : ℤ)
      → (w w1 : World T) (n : ℕ) (msg : Option ArgMsg)
      → after_verify env l r check b u c a' u' ret w ≡ done (pos n, msg) w1
      → (m : ℕ) × (ret ≡ pos m)
  after_verify-pos l r check b u c a' u' (pos m) w w1 n msg e = (m, refl)
  after_verify-pos l r check b u c a' u' (negsuc m) w w1 n msg e = absurd (ground arith)

  module _ (l r : ℕ) (p : PacketData) (a : ℕ) (check : SeqCheck) (c : PacketData) where
    rest_IsAuthentic :
        (x y z : Option ℕ) (w w1 : World T) (n : ℕ) (msg : Option ArgMsg)
        → (deref x >>= λ a'. deref y >>= λ u. deref z >>= λ u'. read_gate r >>= λ g.
              after_verify env l r check p.data_bytes u
                (clear_sig c.data_bytes a')
                a'
                u'
                (verify env g p.data_bytes a (clear_sig c.data_bytes a') a'))
            w
          ≡ done (pos n, msg) w1
        → (a' : ℕ) × (x ≡ some a')
          × IsAuthentic env (w.gates r) p.data_bytes a (clear_sig c.data_bytes a') a'
    rest_IsAuthentic none y z w w1 n msg e = absurd cc
    rest_IsAuthentic (some a') none z w w1 n msg e = absurd cc
    rest_IsAuthentic (some a') (some u) none w w1 n msg e = absurd cc
    rest_IsAuthentic (some a') (some u) (some u') w w1 n msg e =
        let cleared = clear_sig c.data_bytes a' in
        let (m, valid) =
          after_verify-pos l r check p.data_bytes u cleared a' u'
            (verify env (w.gates r) p.data_bytes a cleared a') w w1 n msg e in
        (a', refl, verify-IsAuthentic env (w.gates r) p.data_bytes a cleared a' m valid)

  module _ (l r : ℕ) (p : PacketData) (a : ℕ) (check : SeqCheck) where
    check_copy-Authenticates :
        (copied : Option PacketData) (w w1 : World T) (n : ℕ) (msg : Option ArgMsg)
        → ((c : PacketData) → copied ≡ some c → IsCopy c p)
        → check_copy env l r p a check copied w ≡ done (pos n, msg) w1
        → Authenticates env (w.gates r) p a
    check_copy-Authenticates none w w1 n msg same e = absurd (ground arith)
    check_copy-Authenticates (some c) w w1 n msg same e =
        let (a', here, authentic) =
          rest_IsAuthentic l r p a check c c.arg p.unknown_data c.unknown_data w w1 n msg e in
        let (block, made) = same c refl in
        let bytes = ap (λ (q : PacketData). q.data_bytes) made ∙ copied_bytes p block in
        (
          block,
          a',
          ap (λ (q : PacketData). q.arg) (sym made) ∙ here,
          subst (λ b. IsAuthentic env (w.gates r) p.data_bytes a (clear_sig b a') a') bytes
              authentic,
        )

    copied-Authenticates :
        (o : Outcome T (Option PacketData)) (w w1 : World T) (n : ℕ) (msg : Option ArgMsg)
        → copy_packet env p w ≡ o
        → and_then o (check_copy env l r p a check) ≡ done (pos n, msg) w1
        → Authenticates env (w.gates r) p a
    copied-Authenticates null_dereference w w1 n msg ran e = absurd cc
    copied-Authenticates deadlock w w1 n msg ran e = absurd cc
    copied-Authenticates (done copied v) w w1 n msg ran e =
        let quiet =
          Keeps-done IsQuiet (copy_packet env p) (Quietly-copy_packet T env p) w v copied ran in
        subst (λ G. Authenticates env (G r) p a) quiet.same_gates
          (check_copy-Authenticates copied v w1 n msg
            (λ c is. copy_packet-IsCopy p w v c (ran ∙ ap (λ x. done x v) is)) e)

  module _ (l r : ℕ) (p : PacketData) (a : ℕ) where
    check_packet-Authenticates :
        (check : SeqCheck) (w w1 : World T) (n : ℕ) (msg : Option ArgMsg)
        → check_packet env l r p a check w ≡ done (pos n, msg) w1
        → Authenticates env (w.gates r) p a
    unfolding update_proto
    check_packet-Authenticates bad w w1 n msg e = absurd (ground arith)
    check_packet-Authenticates recheck w w1 n msg e =
        copied-Authenticates l r p a recheck (copy_packet env p w) w w1 n msg refl e
    check_packet-Authenticates advance w w1 n msg e =
        let g' = record (w.gates r) {
          proto = record (w.gates r).proto { in_seq_num = hdr_seq p.data_bytes a };
        } in
        let w' = set_gate r g' w in
        subst (λ (g : Gate). Authenticates env g p a) (gates-set_gate r g' w)
          (copied-Authenticates l r p a advance (copy_packet env p w') w' w1 n msg refl e)

  taken-Authenticates :
      (l r : ℕ) (p : PacketData) (x : Option ℕ) (w w1 : World T) (n : ℕ) (msg : Option ArgMsg)
      → (deref x >>= λ b. read_gate r >>= λ g.
            check_packet env l r p b
              (check_seq (hdr_type p.data_bytes b) (hdr_seq p.data_bytes b) g.proto.in_seq_num))
          w
        ≡ done (pos n, msg) w1
      → (a : ℕ) × (x ≡ some a) × Authenticates env (w.gates r) p a
  taken-Authenticates l r p none w w1 n msg e = absurd cc
  taken-Authenticates l r p (some a) w w1 n msg e = (
    a,
    refl,
    check_packet-Authenticates l r p a
        (check_seq (hdr_type p.data_bytes a) (hdr_seq p.data_bytes a) (w.gates r).proto.in_seq_num)
        w w1 n msg e,
  )

  -- Whenever `process_arg_packet` returns without an error, the packet has an ARG header, and the copy
  -- that it makes is authentic.
  pub process_arg_packet-Authenticates :
      (l r : ℕ) (p : PacketData) (w w1 : World T) (n : ℕ) (msg : Option ArgMsg)
      → process_arg_packet env l r p w ≡ done (pos n, msg) w1
      → (a : ℕ) × (p.arg ≡ some a) × Authenticates env (w.gates r) p a
  unfolding process_arg_packet
  process_arg_packet-Authenticates l r p w w1 n msg e = taken-Authenticates l r p p.arg w w1 n msg e

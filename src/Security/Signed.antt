-- ===== src/Security/Signed.antt =====
-- protocol.c: which bytes of a packet the HMAC or the signature covers.
use addressroutinggateway.Protocol.Receive.{clear_sig, process_arg_packet}
use addressroutinggateway.Prelude.{
  subst, pos, replicate, Option, ℕ, ◌+◌, ◌≤◌, ◌<◌, ◌≡◌, refl, sym, ap, ◌∙◌, List, some, inl, inr,
  arith,
}
use addressroutinggateway.Memory.{Bytes, u16, slice, write, copy, slice_ext, write_below}
use addressroutinggateway.Settings.{rsa_sig_size}
use addressroutinggateway.Packet.{PacketData, parse_packet}
use addressroutinggateway.Packet.Buffers.{raw_packet}
use addressroutinggateway.Packet.Reparse.{parse_packet-SameFrame}
use addressroutinggateway.Packet.{arg_hdr_len}
use addressroutinggateway.Packet.Found.{arg_at, parse_packet-arg_at, arg_at-behind, arg_at-cong}
use addressroutinggateway.World.{World, done, Env, Gate}
use addressroutinggateway.Protocol.Message.{ArgMsg, hdr_len, hdr_sig}
use addressroutinggateway.Security.Authentic.{
  Authenticates, process_arg_packet-Authenticates, IsAuthentic, copy_of, covered,
}

-- Bytes that agree below n, also after the same write.
abbrev Agree : ℕ → Bytes → Bytes → Type 0
Agree n b c = (j : ℕ) → j < n → b j ≡ c j

Agree-write :
    (n i : ℕ) (xs : List ℕ) (b c : Bytes) → Agree n b c → Agree n (write b i xs) (write c i xs)
unfolding write
Agree-write n i xs b c same j inside = rw (same j inside) refl

Agree-slice : (n i k : ℕ) (b c : Bytes) → i + k ≤ n → Agree n b c → slice b i k ≡ slice c i k
Agree-slice n i k b c fits same = slice_ext b c i k (λ j p q. same j (omega arith))

Agree-copy : (n : ℕ) (b block : Bytes) → Agree n (copy n b block) b
unfolding copy
Agree-copy n b block j inside = ground arith

-- What a signature says, it says of all bytes that agree as far as the header and the message go.
IsAuthentic-Agree :
    (env : Env) (g : Gate) (p b c : Bytes) (a n : ℕ)
    → Agree n b c
    → a + arg_hdr_len ≤ n
    → a + hdr_len c a ≤ n
    → IsAuthentic env g p a b a
    → IsAuthentic env g p a c a
unfolding u16
IsAuthentic-Agree env g p b c a n same header message h =
    let type : b (a + 1) ≡ c (a + 1) = same (a + 1) (omega arith) in
    let len : hdr_len b a ≡ hdr_len c a =
      rw (same (a + 2) (omega arith), same (a + 2 + 1) (omega arith)) refl in
    let signed : covered b a ≡ covered c a =
      ap (slice b a) len ∙ Agree-slice n a (hdr_len c a) b c message same in
    let field =
      Agree-slice n (hdr_sig a) rsa_sig_size
        (write b (hdr_sig a) (env.md_hmac g.sym_key (covered c a)))
        (write c (hdr_sig a) (env.md_hmac g.sym_key (covered c a))) (omega arith)
        (Agree-write n (hdr_sig a) (env.md_hmac g.sym_key (covered c a)) b c same) in
    elim h [
      | inl (wrapped, up, mac) ↦ inl (
        sym type ∙ wrapped,
        up,
        sym field
            ∙ ap
                (λ t.
                  slice (write b (hdr_sig a) (env.md_hmac g.sym_key t)) (hdr_sig a) rsa_sig_size)
                (sym signed)
            ∙ mac,
      )
      | inr (other, valid) ↦ inr (
        (λ e. other (type ∙ e)),
        ap (λ t. env.rsa_verify g.rsa (env.sha1 t) (slice p (hdr_sig a) rsa_sig_size)) (sym signed)
            ∙ valid,
      )
    ]

some_of : {x y : ℕ} → some x ≡ some y → x ≡ y
some_of e = cc

module _ (n link : ℕ) (b : Bytes) where
  abbrev parsed : PacketData
  parsed = (parse_packet (raw_packet n link b)).0

  -- The copy has its header where the packet has it.
  same_header :
      (block : Bytes) (a a' : ℕ)
      → parsed.arg ≡ some a
      → a + arg_hdr_len ≤ parsed.len
      → (copy_of parsed block).arg ≡ some a'
      → a' ≡ a
  same_header block a a' here fits copied =
      let frame = parse_packet-SameFrame (raw_packet n link b) in
      let found : arg_at link b ≡ some a = sym (parse_packet-arg_at n link b) ∙ here in
      let behind = arg_at-behind link b a found in
      let again =
        parse_packet-arg_at parsed.len parsed.link_layer_len
          (copy parsed.len parsed.data_bytes block) in
      let there : arg_at link (copy parsed.len b block) ≡ some a' =
        ap (λ k. arg_at k (copy parsed.len b block)) (sym frame.0)
        ∙ ap (λ d. arg_at parsed.link_layer_len (copy parsed.len d block)) (sym frame.1)
        ∙ sym again
        ∙ copied in
      some_of (
        sym there
        ∙ arg_at-cong link (copy parsed.len b block) b
            (λ j inside. Agree-copy parsed.len b block j (omega arith))
        ∙ found)

  bound_copy :
      (env : Env) (g : Gate) (a : ℕ)
      → parsed.arg ≡ some a
      → a + arg_hdr_len ≤ parsed.len
      → a + hdr_len parsed.data_bytes a ≤ parsed.len
      → Authenticates env g parsed a
      → IsAuthentic env g parsed.data_bytes a (clear_sig parsed.data_bytes a) a
  unfolding clear_sig u16
  bound_copy env g a here header message (block, a', copied, authentic) =
      let same = same_header block a a' here header copied in
      let bytes : Bytes = parsed.data_bytes in
      let filled = copy parsed.len bytes block in
      let zeros : List ℕ = replicate rsa_sig_size 0 in
      let uncleared : hdr_len (clear_sig bytes a) a ≡ hdr_len bytes a =
        rw
          (
            write_below bytes (hdr_sig a) zeros (a + 2) (omega arith),
            write_below bytes (hdr_sig a) zeros (a + 2 + 1) (omega arith),
          )
          refl in
      IsAuthentic-Agree env g bytes (clear_sig filled a) (clear_sig bytes a) a parsed.len
        (Agree-write parsed.len (hdr_sig a) zeros filled bytes (Agree-copy parsed.len bytes block))
        header (omega (arith, uncleared))
        (subst (λ x. IsAuthentic env g bytes a (clear_sig filled x) x) same authentic)

-- The packet is what `parse_packet` makes of a frame; its ARG header is at a, and the header and the
-- message, as long as the header states, lie within the packet's length. Whenever `process_arg_packet`
-- returns without an error, the bytes of the packet's own header, with `sig` cleared, and of its own
-- message are authentic: of a tunnelled packet, `sig` is their HMAC under the symmetric key of the
-- peer, which is connected; of any other, it is a signature of their hash that the peer's public key
-- verifies.
pub process_arg_packet-IsAuthentic :
    (T : Type 0) (env : Env) (l r n link : ℕ) (b : Bytes) (a : ℕ) (p : PacketData) (w w1 : World T)
    (code : ℕ) (msg : Option ArgMsg)
    → p ≡ (parse_packet (raw_packet n link b)).0
    → p.arg ≡ some a
    → a + arg_hdr_len ≤ p.len
    → a + hdr_len p.data_bytes a ≤ p.len
    → process_arg_packet env l r p w ≡ done (pos code, msg) w1
    → IsAuthentic env (w.gates r) p.data_bytes a (clear_sig p.data_bytes a) a
process_arg_packet-IsAuthentic T env l r n link b a p w w1 code msg from here header message ran =
    subst (λ (q : PacketData). Bound q) (sym from)
      (λ at h m (a1, at1, copied).
        bound_copy n link b env (w.gates r) a at h m
          (subst (Authenticates env (w.gates r) (parsed n link b)) (some_of (sym at1 ∙ at)) copied))
      here header message (process_arg_packet-Authenticates T env l r p w w1 code msg ran)
  where
    Bound : PacketData → Type 0
    Bound q =
        q.arg ≡ some a
        → a + arg_hdr_len ≤ q.len
        → a + hdr_len q.data_bytes a ≤ q.len
        → (a1 : ℕ) × (q.arg ≡ some a1) × Authenticates env (w.gates r) q a1
        → IsAuthentic env (w.gates r) q.data_bytes a (clear_sig q.data_bytes a) a

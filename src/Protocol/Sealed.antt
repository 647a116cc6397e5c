-- ===== src/Protocol/Sealed.antt =====
-- protocol.c: the bytes of a tunnelled packet, wherever it stands in a frame.
use addressroutinggateway.Prelude.{
  length-replicate, ℕ, zero, suc, ◌+◌, ◌-◌, ◌<◌, ◌≡◌, refl, sym, ap, ◌∙◌, List, bit_xor, ltb, leb,
  ◌&&◌, get_or, replicate, if◌then◌else◌, arith,
}
use addressroutinggateway.Memory.{Bytes, slice, write, u16, u32}
use addressroutinggateway.Packet.{arg_proto}
use addressroutinggateway.World.{Env}
use addressroutinggateway.Protocol.Message.{ArgMsg, hdr_type, hdr_len, hdr_seq}
use addressroutinggateway.Protocol.Cipher.{make_nounce, xor_front}
use addressroutinggateway.Protocol.Receive.{clear_sig}

-- A signature field of 128 bytes with these bytes in front.
abbrev pub padded : List ℕ → List ℕ
padded m = slice (write (λ j. 0) 0 m) 0 128

-- From o on there stand an IP header without options, the ARG header of a tunnelled packet, the
-- message enciphered by a key stream, and over these the HMAC.
pub record IsSealed (env : Env) (stream : List ℕ → List ℕ → ℕ → ℕ) (mac_key key iv : List ℕ)
    (msg : ArgMsg) (seq : ℕ) (b : Bytes) (o : ℕ) : Type 0 where
  pub version_at : b o ≡ 0x45
  pub proto_at : b (o + 9) ≡ arg_proto
  pub total_at : u16 b (o + 2) ≡ 156 + msg.len
  pub type_at : hdr_type b (o + 20) ≡ 0
  pub len_at : hdr_len b (o + 20) ≡ msg.len + 136
  pub seq_at : hdr_seq b (o + 20) ≡ seq
  pub data_at :
      (j : ℕ)
      → j < msg.len
      → b (o + 156 + j) ≡ bit_xor (msg.msg_bytes j) (stream key (make_nounce iv b (o + 20)) j)
  pub sig_at :
      slice b (o + 28) 128
      ≡ padded (env.md_hmac mac_key (slice (clear_sig b (o + 20)) (o + 20) (msg.len + 136)))

-- Slices that hold the same, at two places.
pub slice_move :
    (b c : Bytes) (i j n : ℕ)
    → ((k : ℕ) → k < n → c (j + k) ≡ b (i + k))
    → slice c j n ≡ slice b i n
unfolding slice
slice_move b c i j zero h = refl
slice_move b c i j (suc n) h =
    let first : c j ≡ b i = ap c (omega arith) ∙ h 0 (omega arith) ∙ ap b (omega arith) in
    rw
      (
        first,
        slice_move b c (suc i) (suc j) n
            (λ k p. ap c (omega arith) ∙ h (suc k) (omega arith) ∙ ap b (omega arith)),
      )
      refl

get_or-replicate : (n k : ℕ) → get_or (replicate {A = ℕ} n 0) k 0 ≡ 0
get_or-replicate zero k = refl
get_or-replicate (suc n) zero = refl
get_or-replicate (suc n) (suc k) = get_or-replicate n k

-- The byte at k of an ARG header at a without its signature, and of what follows.
pub clear_sig_lem :
    (b : Bytes) (a j : ℕ) → clear_sig b a j ≡ (if leb (a + 8) j && ltb j (a + 136) then 0 else b j)
unfolding clear_sig write
clear_sig_lem b a j =
    ground (arith, length-replicate {A = ℕ} 128 0, get_or-replicate 128 (j - (a + 8)))

-- A copy of the bytes at another place is such a packet too.
module _ (env : Env) (stream : List ℕ → List ℕ → ℕ → ℕ) (mac_key key iv : List ℕ) (msg : ArgMsg)
    (seq : ℕ) (b c : Bytes) (o p : ℕ)
    (same : (j : ℕ) → j < 156 + msg.len → c (p + j) ≡ b (o + j)) where
  cleared_same :
      (k : ℕ)
      → k < msg.len + 136
      → clear_sig c (p + 20) (p + 20 + k) ≡ clear_sig b (o + 20) (o + 20 + k)
  cleared_same k inside =
      let here : c (p + 20 + k) ≡ b (o + 20 + k) =
        ap c (omega arith) ∙ same (20 + k) (omega arith) ∙ ap b (omega arith) in
      ground
        (arith, clear_sig_lem c (p + 20) (p + 20 + k), clear_sig_lem b (o + 20) (o + 20 + k), here)

  pub covered_same :
      slice (clear_sig c (p + 20)) (p + 20) (msg.len + 136)
      ≡ slice (clear_sig b (o + 20)) (o + 20) (msg.len + 136)
  covered_same =
      slice_move (clear_sig b (o + 20)) (clear_sig c (p + 20)) (o + 20) (p + 20) (msg.len + 136)
        cleared_same

  nounce_same : make_nounce iv c (p + 20) ≡ make_nounce iv b (o + 20)
  unfolding make_nounce
  nounce_same = ap (xor_front iv) (
      slice_move b c (o + 20 + 4) (p + 20 + 4) 4
        λ k h. ap c (omega arith) ∙ same (24 + k) (omega arith) ∙ ap b (omega arith))

  at : (k m n : ℕ) → k < 156 + msg.len → m ≡ p + k → n ≡ o + k → c m ≡ b n
  at k m n h e e' = ap c e ∙ same k h ∙ ap b (sym e')

  pub IsSealed-same :
      IsSealed env stream mac_key key iv msg seq b o
      → IsSealed env stream mac_key key iv msg seq c p
  unfolding u16 u32
  IsSealed-same s = record {
    version_at = at 0 p o (omega arith) (omega arith) (omega arith) ∙ s.version_at;
    proto_at = at 9 (p + 9) (o + 9) (omega arith) refl refl ∙ s.proto_at;
    total_at = omega (
      arith,
      at 2 (p + 2) (o + 2) (omega arith) refl refl,
      at 3 (p + 2 + 1) (o + 2 + 1) (omega arith) (omega arith) (omega arith),
      s.total_at,
    );
    type_at = at 21 (p + 20 + 1) (o + 20 + 1) (omega arith) (omega arith) (omega arith) ∙ s.type_at;
    len_at = omega (
      arith,
      at 22 (p + 20 + 2) (o + 20 + 2) (omega arith) (omega arith) (omega arith),
      at 23 (p + 20 + 2 + 1) (o + 20 + 2 + 1) (omega arith) (omega arith) (omega arith),
      s.len_at,
    );
    seq_at = omega (
      arith,
      at 24 (p + 20 + 4) (o + 20 + 4) (omega arith) (omega arith) (omega arith),
      at 25 (p + 20 + 4 + 1) (o + 20 + 4 + 1) (omega arith) (omega arith) (omega arith),
      at 26 (p + 20 + 4 + 2) (o + 20 + 4 + 2) (omega arith) (omega arith) (omega arith),
      at 27 (p + 20 + 4 + 3) (o + 20 + 4 + 3) (omega arith) (omega arith) (omega arith),
      s.seq_at,
    );
    data_at = λ j h.
        at (156 + j) (p + 156 + j) (o + 156 + j) (omega arith) (omega arith) (omega arith)
        ∙ s.data_at j h
        ∙ ap (λ n. bit_xor (msg.msg_bytes j) (stream key n j)) (sym nounce_same);
    sig_at =
        slice_move b c (o + 28) (p + 28) 128
          (λ k h. at (28 + k) (p + 28 + k) (o + 28 + k) (omega arith) (omega arith) (omega arith))
        ∙ s.sig_at
        ∙ ap (λ xs. padded (env.md_hmac mac_key xs)) (sym covered_same);
  }

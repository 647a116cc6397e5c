-- ===== src/Protocol/Seals.antt =====
-- protocol.c: the steps of `create_arg_packet` that seal a tunnelled packet.
use addressroutinggateway.Prelude.{
  ℕ, ◌+◌, ◌≤◌, ◌<◌, ◌≡◌, refl, sym, ap, ◌∙◌, List, Bool-cases, inl, inr, bit_xor, ltb, length,
  arith,
}
use addressroutinggateway.Memory.{
  u16-put16, write_at, Bytes, slice, write, u16, u32, put16, bytes16, write_below, write_above,
  slice_ext,
}
use addressroutinggateway.Packet.{arg_proto, ip_tot_len}
use addressroutinggateway.World.{Env, Gate}
use addressroutinggateway.Protocol.Message.{ArgMsg, hdr_type, hdr_len, hdr_seq}
use addressroutinggateway.Protocol.Cipher.{make_nounce, xor_front}
use addressroutinggateway.Protocol.Create.{encrypt_symmetric}
use addressroutinggateway.Protocol.Receive.{clear_sig}
use addressroutinggateway.Protocol.Stream.{IsStreamCipher}
use addressroutinggateway.Protocol.RoundTrip.{
  enciphered, made_other, enciphered_below, made_len, enciphered_at,
}
use addressroutinggateway.Protocol.Sealed.{IsSealed, padded, slice_move, clear_sig_lem}

-- Over a zero there is no difference between one memory and another.
pub write_zeros :
    (b : Bytes) (i : ℕ) (xs : List ℕ) (k : ℕ)
    → b (i + k) ≡ 0
    → write b i xs (i + k) ≡ write (λ j. 0) 0 xs (0 + k)
write_zeros b i xs k zero_at = elim (Bool-cases (ltb k (length xs))) [
  | inl inside ↦ write_at b i xs k (ground arith) ∙ sym (write_at (λ j. 0) 0 xs k (ground arith))
  | inr outside ↦
      write_above b i xs (i + k) (ground arith)
      ∙ zero_at
      ∙ sym (write_above (λ j. 0) 0 xs (0 + k) (ground arith))
]

-- The headers before the message is placed, with a signature field of zeros.
pub record IsFront (seq : ℕ) (f : Bytes) : Type 0 where
  pub version : f 0 ≡ 0x45
  pub proto : f 9 ≡ arg_proto
  pub total : ip_tot_len f 0 ≡ 20
  pub type : hdr_type f 20 ≡ 0
  pub seq_is : hdr_seq f 20 ≡ seq
  pub no_sig : (j : ℕ) → 28 ≤ j → j < 156 → f j ≡ 0

module _ (env : Env) (stream : List ℕ → List ℕ → ℕ → ℕ) (c : IsStreamCipher env stream)
    (remote : Gate) (f : Bytes) (seq : ℕ) (front : IsFront seq f) (msg : ArgMsg)
    (short : msg.len + 156 < 65536) where
  -- With the message, and then with the length of the whole.
  abbrev pub sealed_msg : Bytes
  sealed_msg = encrypt_symmetric env remote f 20 156 msg

  abbrev pub sized : Bytes
  sized = put16 sealed_msg 2 (156 + msg.len)

  pub msg_low : (j : ℕ) → j < 22 → sealed_msg j ≡ f j
  unfolding encrypt_symmetric put16
  msg_low j h =
      write_below
        (enciphered env stream c remote remote refl refl f 20 156 (omega arith) msg (omega arith)).0
        22 (bytes16 _) j h
      ∙ enciphered_below env stream c remote remote refl refl f 20 156 (omega arith) msg
          (omega arith) j (omega arith)

  msg_high : (j : ℕ) → 24 ≤ j → j < 156 → sealed_msg j ≡ f j
  msg_high j h k =
      made_other env stream c remote remote refl refl f 20 156 (omega arith) msg (omega arith) j
        (omega arith)
      ∙ enciphered_below env stream c remote remote refl refl f 20 156 (omega arith) msg
          (omega arith) j k

  pub sized_other : (j : ℕ) → 4 ≤ j → sized j ≡ sealed_msg j
  unfolding put16
  sized_other j h = write_above sealed_msg 2 (bytes16 _) j (omega arith)

  pub sized_low : (j : ℕ) → j < 2 → sized j ≡ sealed_msg j
  unfolding put16
  sized_low j h = write_below sealed_msg 2 (bytes16 _) j h

  pub msg_lengths : (ip_tot_len sealed_msg 0 ≡ 20) × (hdr_len sealed_msg 20 ≡ msg.len + 136)
  unfolding u16
  msg_lengths = (
    omega (arith, msg_low 2 (omega arith), msg_low 3 (omega arith), front.total),
    made_len env stream c remote remote refl refl f 20 156 (omega arith) msg (omega arith),
  )

  pub sized_len : hdr_len sized 20 ≡ msg.len + 136
  unfolding u16
  sized_len =
      omega (arith, sized_other 22 (omega arith), sized_other 23 (omega arith), msg_lengths.1)

  module _ (mac_key : List ℕ)
      (mac_short : length (env.md_hmac mac_key (slice sized 20 (msg.len + 136))) ≤ 128) where
    abbrev mac : List ℕ
    mac = env.md_hmac mac_key (slice sized 20 (msg.len + 136))

    abbrev signed : Bytes
    signed = write sized 28 mac

    signed_low : (j : ℕ) → j < 28 → signed j ≡ sized j
    signed_low j h = write_below sized 28 mac j h

    signed_high : (j : ℕ) → 156 ≤ j → signed j ≡ sized j
    signed_high j h = write_above sized 28 mac j (omega (arith, mac_short))

    sized_sig : (j : ℕ) → 28 ≤ j → j < 156 → sized j ≡ 0
    sized_sig j h k = sized_other j (omega arith) ∙ msg_high j (omega arith) k ∙ front.no_sig j h k

    covered : slice (clear_sig signed 20) 20 (msg.len + 136) ≡ slice sized 20 (msg.len + 136)
    covered =
        slice_ext (clear_sig signed 20) sized 20 (msg.len + 136) λ j h k.
          ground (arith, clear_sig_lem signed 20 j, signed_low j, signed_high j, sized_sig j)

    sig_is : slice signed 28 128 ≡ padded mac
    sig_is =
        slice_move (write (λ j. 0) 0 mac) signed 0 28 128
          (λ k h. write_zeros sized 28 mac k (sized_sig (28 + k) (omega arith) (omega arith)))

    pub signed-IsSealed : IsSealed env stream mac_key remote.cipher_key remote.iv msg seq signed 0
    unfolding make_nounce u16 u32
    signed-IsSealed = record {
      version_at =
          signed_low 0 (omega arith)
          ∙ sized_low 0 (omega arith)
          ∙ msg_low 0 (omega arith)
          ∙ front.version;
      proto_at = low 9 (omega arith) (omega arith) ∙ front.proto;
      total_at = omega (
        arith,
        signed_low 2 (omega arith),
        signed_low 3 (omega arith),
        u16-put16 sealed_msg 2 (156 + msg.len) (omega arith),
      );
      type_at = low 21 (omega arith) (omega arith) ∙ front.type;
      len_at = omega (arith, signed_low 22 (omega arith), signed_low 23 (omega arith), sized_len);
      seq_at = omega (
        arith,
        high 24 (omega arith) (omega arith),
        high 25 (omega arith) (omega arith),
        high 26 (omega arith) (omega arith),
        high 27 (omega arith) (omega arith),
        front.seq_is,
      );
      data_at = λ j h.
          signed_high (156 + j) (omega arith)
          ∙ sized_other (156 + j) (omega arith)
          ∙ enciphered_at env stream c remote remote refl refl f 20 156 (omega arith) msg
              (omega arith) j h
          ∙ ap (λ n. bit_xor (msg.msg_bytes j) (stream remote.cipher_key n j)) (sym same_nounce);
      sig_at = sig_is ∙ ap (λ xs. padded (env.md_hmac mac_key xs)) (sym covered);
    }
      where
        low : (j : ℕ) → 4 ≤ j → j < 22 → signed j ≡ f j
        low j h k = signed_low j (omega arith) ∙ sized_other j h ∙ msg_low j k

        high : (j : ℕ) → 24 ≤ j → j < 28 → signed j ≡ f j
        high j h k = signed_low j k ∙ sized_other j (omega arith) ∙ msg_high j h (omega arith)

        same_nounce : make_nounce remote.iv signed 20 ≡ make_nounce remote.iv f 20
        same_nounce =
            ap (xor_front remote.iv) (slice_ext signed f 24 4 (λ j h k. high j h (omega arith)))

-- ===== src/Protocol/Unwraps.antt =====
-- protocol.c: `process_arg_packet` on a frame with a sealed packet.
use addressroutinggateway.Prelude.{
  ℕ, ◌+◌, ◌-◌, ◌<◌, ◌≡◌, refl, sym, ap, ◌∙◌, subst, List, pos, true, ◌==◌, arith,
}
use addressroutinggateway.Prelude.Xor.{bit_xor-cancel}
use addressroutinggateway.Memory.{Bytes, slice, write, u16, slice_ext}
use addressroutinggateway.World.{Env, Gate}
use addressroutinggateway.Hopper.Address.{same_bytes}
use addressroutinggateway.Hopper.Window.{same_bytes_refl}
use addressroutinggateway.Protocol.Message.{ArgMsg, hdr_type, hdr_len}
use addressroutinggateway.Protocol.Cipher.{cipher_bytes, make_nounce, xor_front}
use addressroutinggateway.Protocol.Stream.{IsStreamCipher, cipher_bytes-stream}
use addressroutinggateway.Protocol.Receive.{clear_sig, hmac_matches, verify, decrypt_symmetric}
use addressroutinggateway.Protocol.Sealed.{
  IsSealed, IsSealed-same, covered_same, padded, slice_move, clear_sig_lem,
}
use addressroutinggateway.Protocol.Seals.{write_zeros}

-- A message with the same text.
abbrev pub SameText : ArgMsg → ArgMsg → Type 0
SameText msg out = (out.len ≡ msg.len) × ((j : ℕ) → j < msg.len → out.msg_bytes j ≡ msg.msg_bytes j)

module _ (env : Env) (stream : List ℕ → List ℕ → ℕ → ℕ) (c : IsStreamCipher env stream)
    (mac_key key iv : List ℕ) (msg : ArgMsg) (seq : ℕ) (short : msg.len + 156 < 65536) (b d : Bytes)
    (sealed : IsSealed env stream mac_key key iv msg seq b 14)
    (same : (j : ℕ) → j < 170 + msg.len → d j ≡ b j) where
  -- The copy of the frame is sealed as well, and this is it without its signature.
  copy-IsSealed : IsSealed env stream mac_key key iv msg seq d 14
  copy-IsSealed =
      IsSealed-same env stream mac_key key iv msg seq b d 14 14 (λ j h. same (14 + j) (omega arith))
        sealed

  abbrev pub cleared : Bytes
  cleared = clear_sig d 34

  cleared_low : (j : ℕ) → j < 42 → cleared j ≡ b j
  cleared_low j h = ground (arith, clear_sig_lem d 34 j, same j (omega arith))

  pub cleared_type : hdr_type cleared 34 ≡ 0
  cleared_type = cleared_low 35 (omega arith) ∙ sealed.type_at

  pub cleared_len : hdr_len cleared 34 ≡ msg.len + 136
  unfolding u16
  cleared_len =
      omega (arith, cleared_low 36 (omega arith), cleared_low 37 (omega arith), sealed.len_at)

  abbrev mac : List ℕ
  mac = env.md_hmac mac_key (slice cleared 34 (msg.len + 136))

  computed_sig : slice (write cleared 42 mac) 42 128 ≡ padded mac
  computed_sig =
      slice_move (write (λ j. 0) 0 mac) (write cleared 42 mac) 0 42 128
        λ k h. write_zeros cleared 42 mac k (ground (arith, clear_sig_lem d 34 (42 + k)))

  carried_sig : slice b 42 128 ≡ padded mac
  carried_sig =
      sealed.sig_at
      ∙ ap (λ xs. padded (env.md_hmac mac_key xs))
          (sym (
            covered_same env stream mac_key key iv msg seq b d 14 14
              (λ j h. same (14 + j) (omega arith))))

  sealed-hmac_matches :
      (remote : Gate) → remote.sym_key ≡ mac_key → hmac_matches env remote b 34 cleared 34 ≡ true
  unfolding hmac_matches
  sealed-hmac_matches remote same_key =
      ap
        (λ (n : ℕ).
          same_bytes
            (slice (write cleared 42 (env.md_hmac remote.sym_key (slice cleared 34 n))) 42 128)
            (slice b 42 128))
        cleared_len
      ∙ ap
          (λ k.
            same_bytes
              (slice (write cleared 42 (env.md_hmac k (slice cleared 34 (msg.len + 136)))) 42 128)
              (slice b 42 128))
          same_key
      ∙ ap (λ xs. same_bytes xs (slice b 42 128)) computed_sig
      ∙ ap (λ xs. same_bytes (padded mac) xs) carried_sig
      ∙ same_bytes_refl (padded mac)

  pub sealed-verify :
      (remote : Gate)
      → remote.sym_key ≡ mac_key
      → remote.connected ≡ true
      → verify env remote b 34 cleared 34 ≡ pos 0
  unfolding verify hmac_matches
  sealed-verify remote same_key up =
      let wrapped : (hdr_type cleared 34 == 0) ≡ true = ground (arith, cleared_type) in
      rw (wrapped, up, sealed-hmac_matches remote same_key) refl

  nounce_same : make_nounce iv cleared 34 ≡ make_nounce iv b 34
  unfolding make_nounce
  nounce_same = ap (xor_front iv) (slice_ext cleared b 38 4 (λ j h k. cleared_low j (omega arith)))

  -- What the loop leaves of n bytes, with a key and a nonce.
  abbrev plain : Bytes → List ℕ → List ℕ → ℕ → ArgMsg
  plain out k nounce n =
      let (text, total) = cipher_bytes env k nounce n b 170 out 0 in
      record { len = total; msg_bytes = text }

  plain-SameText : (out : Bytes) → SameText msg (plain out key (make_nounce iv b 34) msg.len)
  plain-SameText out =
      let nounce = make_nounce iv b 34 in
      (
        (cipher_bytes-stream env stream c key nounce msg.len b 170 out 0 0).1 ∙ omega arith,
        λ j h.
            (cipher_bytes-stream env stream c key nounce msg.len b 170 out 0 j).0
            ∙ ground
                (arith, sealed.data_at j h, bit_xor-cancel (msg.msg_bytes j) (stream key nounce j)),
      )

  pub sealed-decrypt_symmetric :
      (local : Gate) (out : ArgMsg)
      → local.cipher_key ≡ key
      → local.iv ≡ iv
      → SameText msg (decrypt_symmetric env local b 170 cleared 34 out)
  unfolding decrypt_symmetric
  sealed-decrypt_symmetric local out same_key same_iv =
      let n_is : hdr_len cleared 34 - 136 ≡ msg.len = omega (arith, cleared_len) in
      let nounce_is : make_nounce local.iv cleared 34 ≡ make_nounce iv b 34 =
        ap (λ i. make_nounce i cleared 34) same_iv ∙ nounce_same in
      subst
        (λ (n : ℕ).
          SameText msg (plain out.msg_bytes local.cipher_key (make_nounce local.iv cleared 34) n))
        (sym n_is)
        (subst (λ i. SameText msg (plain out.msg_bytes local.cipher_key i msg.len)) (sym nounce_is)
          (subst (λ k. SameText msg (plain out.msg_bytes k (make_nounce iv b 34) msg.len))
            (sym same_key) (plain-SameText out.msg_bytes)))

-- ===== src/Protocol/RoundTrip.antt =====
-- protocol.c: what `create_arg_packet` encrypts for a peer, `process_arg_packet` decrypts there.
use addressroutinggateway.Prelude.{
  List, ℕ, ◌+◌, ◌-◌, ◌≤◌, ◌<◌, ◌≡◌, refl, sym, ap, ◌∙◌, bit_xor, replicate, arith,
}
use addressroutinggateway.Prelude.Xor.{bit_xor-cancel}
use addressroutinggateway.Memory.{
  Bytes, u16, put16, bytes16, slice_ext, write_below, write_above, u16-put16,
}
use addressroutinggateway.Packet.{arg_hdr_len}
use addressroutinggateway.World.{Env, Gate}
use addressroutinggateway.Protocol.Message.{ArgMsg, hdr_len, hdr_sig}
use addressroutinggateway.Protocol.Cipher.{make_nounce, cipher_bytes, xor_front}
use addressroutinggateway.Protocol.Create.{encrypt_symmetric}
use addressroutinggateway.Protocol.Receive.{clear_sig, decrypt_symmetric}
use addressroutinggateway.Protocol.Stream.{IsStreamCipher, stream_bytes, cipher_bytes-stream}

module _ (env : Env) (stream : List ℕ → List ℕ → ℕ → ℕ) (c : IsStreamCipher env stream)
    (remote local : Gate) (same_iv : remote.iv ≡ local.iv)
    (same_key : remote.cipher_key ≡ local.cipher_key) (b : Bytes) (a u : ℕ)
    (behind : a + arg_hdr_len ≤ u) (msg : ArgMsg) (short : msg.len + arg_hdr_len < 65536) where
  -- The packet's bytes, and its copy without signature.
  abbrev pub made : Bytes
  made = encrypt_symmetric env remote b a u msg

  abbrev cleared : Bytes
  cleared = clear_sig made a

  abbrev pub enciphered : Bytes × ℕ
  enciphered =
      cipher_bytes env remote.cipher_key (make_nounce remote.iv b a) msg.len msg.msg_bytes 0 b u

  total_is : enciphered.1 ≡ msg.len
  total_is =
      (cipher_bytes-stream env stream c remote.cipher_key (make_nounce remote.iv b a) msg.len
        msg.msg_bytes 0 b u 0).1
      ∙ omega arith

  pub made_other : (j : ℕ) → a + 4 ≤ j → made j ≡ enciphered.0 j
  unfolding encrypt_symmetric put16
  made_other j h =
      write_above enciphered.0 (a + 2) (bytes16 (enciphered.1 + arg_hdr_len)) j (omega arith)

  -- Below the message only the length has changed.
  pub enciphered_below : (j : ℕ) → j < u → enciphered.0 j ≡ b j
  enciphered_below j h =
      (cipher_bytes-stream env stream c remote.cipher_key (make_nounce remote.iv b a) msg.len
        msg.msg_bytes 0 b u j).0
      ∙ ground arith

  cleared_below : (j : ℕ) → j < a + 8 → cleared j ≡ made j
  unfolding clear_sig
  cleared_below j h = write_below made (hdr_sig a) (replicate 128 0) j h

  same_nounce : make_nounce local.iv cleared a ≡ make_nounce remote.iv b a
  unfolding make_nounce
  same_nounce = rw (sym same_iv) (
      ap (xor_front remote.iv) (
        slice_ext cleared b (a + 4) 4 λ j p q.
          cleared_below j (omega arith)
          ∙ made_other j (omega arith)
          ∙ enciphered_below j (omega arith)))

  pub made_len : u16 made (a + 2) ≡ msg.len + arg_hdr_len
  unfolding encrypt_symmetric
  made_len =
      u16-put16 enciphered.0 (a + 2) (enciphered.1 + arg_hdr_len) (omega (arith, total_is))
      ∙ ap (λ (t : ℕ). t + arg_hdr_len) total_is

  cleared_len : hdr_len cleared a ≡ msg.len + arg_hdr_len
  unfolding u16
  cleared_len = omega (
    arith,
    cleared_below (a + 2) (omega arith),
    cleared_below (a + 2 + 1) (omega arith),
    made_len,
  )

  same_stream :
      stream local.cipher_key (make_nounce local.iv cleared a)
      ≡ stream remote.cipher_key (make_nounce remote.iv b a)
  same_stream = rw (same_nounce, sym same_key) refl

  pub enciphered_at :
      (j : ℕ)
      → j < msg.len
      → made (u + j)
        ≡ bit_xor (msg.msg_bytes j) (stream remote.cipher_key (make_nounce remote.iv b a) j)
  enciphered_at j inside =
      made_other (u + j) (omega arith)
      ∙ (cipher_bytes-stream env stream c remote.cipher_key (make_nounce remote.iv b a) msg.len
          msg.msg_bytes 0 b u (u + j)).0
      ∙ ground arith

  -- A message that the sender has enciphered for a peer, into a packet with its ARG header at a and its
  -- data behind the header, comes out whole where the peer deciphers the packet, if the cipher is a
  -- stream cipher, both have the same symmetric key and IV, and the length fits into 16 bits: neither
  -- the length that was stored nor the cleared signature disturbs the nonce.
  pub decrypt_symmetric-encrypt_symmetric :
      (out : ArgMsg) (j : ℕ)
      → j < msg.len
      → ((decrypt_symmetric env local made u cleared a out).len ≡ msg.len)
        × ((decrypt_symmetric env local made u cleared a out).msg_bytes j ≡ msg.msg_bytes j)
  unfolding decrypt_symmetric
  decrypt_symmetric-encrypt_symmetric out j inside =
      let len' : hdr_len cleared a - arg_hdr_len ≡ msg.len = omega (arith, cleared_len) in
      let (plain, total) =
        cipher_bytes-stream env stream c local.cipher_key (make_nounce local.iv cleared a)
          (hdr_len cleared a - arg_hdr_len) made u out.msg_bytes 0 j in
      (
        total ∙ omega (arith, len'),
        plain
            ∙ ap
                (λ (s : ℕ → ℕ).
                  stream_bytes s 0 (hdr_len cleared a - arg_hdr_len) made u out.msg_bytes 0 j)
                same_stream
            ∙ ground (
              arith,
              len',
              enciphered_at j inside,
              bit_xor-cancel (msg.msg_bytes j)
                  (stream remote.cipher_key (make_nounce remote.iv b a) j),
            ),
      )

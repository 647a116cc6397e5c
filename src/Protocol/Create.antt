-- ===== src/Protocol/Create.antt =====
-- protocol.c: `create_arg_packet` and `send_arg_packet`.
use addressroutinggateway.Prelude.{
  ℕ, suc, ◌+◌, ◌%◌, ◌^◌, List, Bool, ◌||◌, Option, none, some, ◌⊎◌, inl, inr, ℤ, pos, ltb, ◌==◌,
  if◌then◌else◌,
}
use addressroutinggateway.Settings.{
  enomem, arg_not_connected, arg_internal_error, arg_signing_failed,
}
use addressroutinggateway.Memory.{Bytes, slice, write, put8, put16, put32}
use addressroutinggateway.Packet.{PacketData, parse_packet, arg_hdr_len, arg_proto, ip_tot_len}
use addressroutinggateway.Packet.Buffers.{create_packet, send_packet}
use addressroutinggateway.World.{
  Run, pure, deref, gets, modify, ◌>>=◌, ◌>>◌, Env, Gate, read_gate, update_proto,
}
use addressroutinggateway.Hopper.Address.{generate_ip_corrected}
use addressroutinggateway.Protocol.Message.{
  ArgMsg, arg_wrapped_msg, arg_trust_data_msg, hdr_len, hdr_sig,
}
use addressroutinggateway.Protocol.Cipher.{make_nounce, cipher_bytes}

-- `type == ARG_WRAPPED_MSG || type == ARG_TRUST_DATA_MSG`
abbrev pub is_symmetric : ℕ → Bool
is_symmetric type = type == arg_wrapped_msg || type == arg_trust_data_msg

-- `fullLen`, a uint16_t.
unfoldable pub full_len : Option ArgMsg → Gate → ℕ
full_len none local = (20 + arg_hdr_len + local.rsa.len) % 65536
full_len (some msg) local = (20 + arg_hdr_len + msg.len + local.rsa.len) % 65536

-- The IP header at o, as far as it is known before the message is.
unfoldable pub fill_ip : Bytes → ℕ → List ℕ → List ℕ → Bytes
fill_ip b o source dest =
    let b1 = put8 (put8 (put8 (put8 b o 0x45) (o + 8) 32) (o + 1) 0) (o + 9) arg_proto in
    let b2 = write (write b1 (o + 12) source) (o + 16) dest in
    put16 (put16 (put16 (put16 b2 (o + 4) 0) (o + 6) 0) (o + 2) 20) (o + 10) 0

-- `version`, `type` and `seq` of the ARG header at a.
unfoldable pub fill_header : Bytes → ℕ → ℕ → ℕ → Bytes
fill_header b a type seq = put32 (put8 (put8 b a 1) (a + 1) type) (a + 4) seq

-- `packet->len` and `tot_len`, and the parse that follows.
unfoldable pub set_lengths : PacketData → ℕ → ℕ → PacketData
set_lengths p o a =
    let total = ip_tot_len p.data_bytes o + hdr_len p.data_bytes a in
    (parse_packet (record p { len = total; data_bytes = put16 p.data_bytes (o + 2) total })).0

module _ (env : Env) where
  -- The message under the remote's symmetric key, at u.
  unfoldable pub encrypt_symmetric : Gate → Bytes → ℕ → ℕ → ArgMsg → Bytes
  encrypt_symmetric remote b a u msg =
      let nounce = make_nounce remote.iv b a in
      let (b1, total) = cipher_bytes env remote.cipher_key nounce msg.len msg.msg_bytes 0 b u in
      put16 b1 (a + 2) (total + arg_hdr_len)

  -- The result of `rsa_pkcs1_encrypt` at u; an error leaves the bytes as they are.
  abbrev pub place : Option (List ℕ) → Bytes → ℕ → Bytes
  place none b u = b
  place (some c) b u = write b u c

  -- Under the remote's public key.
  unfoldable pub encrypt_public : ℕ → Gate → Bytes → ℕ → ℕ → ArgMsg → Bytes
  encrypt_public draw remote b a u msg =
      place (env.rsa_encrypt draw remote.rsa (slice msg.msg_bytes 0 msg.len))
        (put16 b (a + 2) (remote.rsa.len + arg_hdr_len)) u

  module _ {T : Type 0} where
    -- The bytes with the message in place and `arg->len` set, or the error.
    abbrev pub encrypt : ℕ → Gate → Bytes → ℕ → ℕ → Option ArgMsg → Run T (ℤ ⊎ Bytes)
    encrypt type remote b a u none = pure (inr (put16 b (a + 2) arg_hdr_len))
    encrypt type remote b a u (some msg) =
        if is_symmetric type
        then (if remote.connected
            then pure (inr (encrypt_symmetric remote b a u msg))
            else pure (inl arg_not_connected))
        else (if ltb remote.rsa.len msg.len then pure (inl arg_internal_error) else (do
          draw ← gets (λ w. w.draws)
          modify (λ w. record w { draws = suc w.draws })
          pure (inr (encrypt_public draw remote b a u msg))))

    abbrev pub place_signature : PacketData → ℕ → Option (List ℕ) → Run T (ℤ × Option PacketData)
    place_signature p a none = pure (arg_signing_failed, none)
    place_signature p a (some sig) =
        pure (pos 0, some (record p { data_bytes = write p.data_bytes (hdr_sig a) sig }))

    -- The HMAC or the signature over the ARG header, with `sig` still zero, and the data.
    unfoldable pub sign : ℕ → Gate → PacketData → ℕ → Run T (ℤ × Option PacketData)
    sign type local p a =
        let covered = slice p.data_bytes a (hdr_len p.data_bytes a) in
        if type == arg_wrapped_msg
        then place_signature p a (some (env.md_hmac local.sym_key covered))
        else place_signature p a (env.rsa_sign local.rsa (env.sha1 covered))

    abbrev pub finish_packet :
        ℕ → Gate → PacketData → ℕ → ℕ → ℤ ⊎ Bytes → Run T (ℤ × Option PacketData)
    finish_packet type local p o a (inl err) = pure (err, none)
    finish_packet type local p o a (inr b) = do
      let q = set_lengths (record p { data_bytes = b }) o a
      a' ← deref q.arg
      sign type local q a'

    -- From the ARG header at a on, with the data at u.
    abbrev pub fill_body :
        ℕ → ℕ → ℕ → Option ArgMsg → PacketData → ℕ → ℕ → ℕ → Run T (ℤ × Option PacketData)
    fill_body l r type msg p o a u = do
      local ← read_gate l
      remote ← read_gate r
      update_proto r (λ s. record s { out_seq_num = (s.out_seq_num + 1) % 2 ^ 32 })
      body ← encrypt type remote (fill_header p.data_bytes a type remote.proto.out_seq_num) a u msg
      finish_packet type local p o a body

    -- The new packet p0 has its IP header at o.
    abbrev pub build_at : ℕ → ℕ → ℕ → Option ArgMsg → PacketData → ℕ → Run T (ℤ × Option PacketData)
    build_at l r type msg p0 o = do
      local ← read_gate l
      remote ← read_gate r
      source ← generate_ip_corrected env local (pos 0)
      dest ← generate_ip_corrected env remote (pos 0)
      let p = (parse_packet (record p0 { data_bytes = fill_ip p0.data_bytes o source dest })).0
      a ← deref p.arg
      u ← deref p.unknown_data
      fill_body l r type msg p o a u

    abbrev pub build_packet :
        ℕ → ℕ → ℕ → Option ArgMsg → Option PacketData → Run T (ℤ × Option PacketData)
    build_packet l r type msg none = pure (enomem, none)
    build_packet l r type msg (some p0) = do o ← deref p0.ipv4; build_at l r type msg p0 o

    -- The packet for the message, from the gateway at l to the one at r, or an error code.
    unfoldable pub create_arg_packet : ℕ → ℕ → ℕ → Option ArgMsg → Run T (ℤ × Option PacketData)
    create_arg_packet l r type msg = do
      local ← read_gate l
      p0 ← create_packet env (full_len msg local)
      build_packet l r type msg p0

    abbrev pub send_created : ℤ × Option PacketData → Run T ℤ
    send_created (ret, none) = pure ret
    send_created (ret, some p) = send_packet env p

    unfoldable pub send_arg_packet : ℕ → ℕ → ℕ → Option ArgMsg → Run T ℤ
    send_arg_packet l r type msg = do created ← create_arg_packet l r type msg; send_created created

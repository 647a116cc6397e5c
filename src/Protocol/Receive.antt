-- ===== src/Protocol/Receive.antt =====
-- protocol.c: `process_arg_packet`, which checks the sequence number and the signature of a packet
-- and decrypts its message.
use addressroutinggateway.Prelude.{
  length, ℕ, ◌-◌, List, Bool, true, false, ◌&&◌, ◌||◌, Option, none, some, ℤ, pos, ltb, ◌==◌,
  if◌then◌else◌, replicate,
}
use addressroutinggateway.Settings.{
  enomem, arg_seq_bad, arg_not_connected, arg_sig_check_failed, arg_decrypt_failed,
  seq_num_wrap_allowance, rsa_sig_size, aes_key_size, aes_block_size,
}
use addressroutinggateway.Memory.{Bytes, slice, write}
use addressroutinggateway.Packet.{PacketData, arg_hdr_len}
use addressroutinggateway.Packet.Buffers.{copy_packet}
use addressroutinggateway.World.{Run, pure, deref, ◌>>=◌, ◌>>◌, Env, Gate, read_gate, update_proto}
use addressroutinggateway.Hopper.Address.{same_bytes}
use addressroutinggateway.Protocol.Message.{
  ArgMsg, arg_wrapped_msg, arg_conn_data_req_msg, arg_conn_data_resp_msg, hdr_type, hdr_len,
  hdr_seq, hdr_sig, create_arg_msg,
}
use addressroutinggateway.Protocol.Cipher.{make_nounce, cipher_bytes}
use addressroutinggateway.Protocol.Create.{is_symmetric}

pub data SeqCheck : Type 0 where
  advance recheck bad : SeqCheck

-- The sequence number of a packet against the last one. UINT16_MAX is what the source compares with.
unfoldable pub check_seq : ℕ → ℕ → ℕ → SeqCheck
check_seq type seq last =
    if ltb last seq || (ltb seq seq_num_wrap_allowance && ltb (65535 - seq_num_wrap_allowance) last)
    then advance
    else if type == arg_conn_data_req_msg || type == arg_conn_data_resp_msg
    then recheck
    else bad

-- `memset(newPacket->arg->sig, 0, sizeof(sig))`
unfoldable pub clear_sig : Bytes → ℕ → Bytes
clear_sig b a = write b (hdr_sig a) (replicate rsa_sig_size 0)

module _ (env : Env) where
  -- The HMAC is computed into the cleared field and compared with the one that came.
  unfoldable pub hmac_matches : Gate → Bytes → ℕ → Bytes → ℕ → Bool
  hmac_matches remote b a cleared a' =
      let mac = env.md_hmac remote.sym_key (slice cleared a' (hdr_len cleared a')) in
      same_bytes (slice (write cleared (hdr_sig a') mac) (hdr_sig a') rsa_sig_size)
        (slice b (hdr_sig a) rsa_sig_size)

  unfoldable pub signature_valid : Gate → Bytes → ℕ → Bytes → ℕ → Bool
  signature_valid remote b a cleared a' =
      env.rsa_verify remote.rsa (env.sha1 (slice cleared a' (hdr_len cleared a')))
        (slice b (hdr_sig a) rsa_sig_size)

  -- 0, or the error of the signature check.
  unfoldable pub verify : Gate → Bytes → ℕ → Bytes → ℕ → ℤ
  verify remote b a cleared a' =
      if hdr_type cleared a' == arg_wrapped_msg
      then (if remote.connected
          then (if hmac_matches remote b a cleared a' then pos 0 else arg_sig_check_failed)
          else arg_not_connected)
      else (if signature_valid remote b a cleared a' then pos 0 else arg_sig_check_failed)

  -- The plain message in the buffer `out`, for a packet of which `cleared` is the copy.
  unfoldable pub decrypt_symmetric : Gate → Bytes → ℕ → Bytes → ℕ → ArgMsg → ArgMsg
  decrypt_symmetric local b u cleared a' out =
      let nounce = make_nounce local.iv cleared a' in
      let (plain, total) =
        cipher_bytes env local.cipher_key nounce (hdr_len cleared a' - arg_hdr_len) b u
          out.msg_bytes 0 in
      record { len = total; msg_bytes = plain }

  abbrev pub decrypted : ArgMsg → Option (List ℕ) → ℤ × Option ArgMsg
  decrypted out none = (arg_decrypt_failed, none)
  decrypted out (some plain) =
      (pos 0, some (record { len = length plain; msg_bytes = write out.msg_bytes 0 plain }))

  unfoldable pub decrypt_private : Gate → Bytes → ℕ → ArgMsg → ℤ × Option ArgMsg
  decrypt_private local cleared u' out =
      decrypted out (env.rsa_decrypt local.rsa out.len (slice cleared u' local.rsa.len))

  unfoldable pub decrypt_into : Gate → Bytes → ℕ → Bytes → ℕ → ℕ → Option ArgMsg → ℤ × Option ArgMsg
  unfolding decrypt_symmetric decrypt_private
  decrypt_into local b u cleared a' u' none = (enomem, none)
  decrypt_into local b u cleared a' u' (some out) =
      if is_symmetric (hdr_type cleared a')
      then (pos 0, some (decrypt_symmetric local b u cleared a' out))
      else decrypt_private local cleared u' out

  module _ {T : Type 0} where
    -- "Decrypt": no message if there is no data behind the header.
    unfoldable pub decrypt : Gate → Bytes → ℕ → Bytes → ℕ → ℕ → Run T (ℤ × Option ArgMsg)
    unfolding decrypt_into
    decrypt local b u cleared a' u' =
        if ltb arg_hdr_len (hdr_len cleared a')
        then (do
          out ← create_arg_msg env (hdr_len cleared a')
          pure (decrypt_into local b u cleared a' u' out))
        else pure (pos 0, none)

    abbrev pub recheck_iv : ℕ → ArgMsg → Bool → Run T (ℤ × Option ArgMsg)
    recheck_iv r msg true = pure (arg_seq_bad, some msg)
    recheck_iv r msg false = do
      update_proto r (λ s. record s { in_seq_num = 0 })
      pure (pos 0, some msg)

    -- A message with an old sequence number is let through if it brings a new IV.
    abbrev pub recheck_seq : ℕ → SeqCheck → Option ArgMsg → Run T (ℤ × Option ArgMsg)
    recheck_seq r recheck none = pure (arg_seq_bad, none)
    recheck_seq r recheck (some msg) = do
      remote ← read_gate r
      recheck_iv r msg (same_bytes (slice msg.msg_bytes aes_key_size aes_block_size) remote.iv)
    recheck_seq r _ msg = pure (pos 0, msg)

    abbrev pub after_decrypt : ℕ → SeqCheck → ℤ × Option ArgMsg → Run T (ℤ × Option ArgMsg)
    after_decrypt r check (pos code, msg) = recheck_seq r check msg
    after_decrypt r check (err, msg) = pure (err, msg)

    abbrev pub after_verify :
        ℕ → ℕ → SeqCheck → Bytes → ℕ → Bytes → ℕ → ℕ → ℤ → Run T (ℤ × Option ArgMsg)
    after_verify l r check b u cleared a' u' (pos code) = do
      local ← read_gate l
      result ← decrypt local b u cleared a' u'
      after_decrypt r check result
    after_verify l r check b u cleared a' u' err = pure (err, none)

    abbrev pub check_copy :
        ℕ → ℕ → PacketData → ℕ → SeqCheck → Option PacketData → Run T (ℤ × Option ArgMsg)
    check_copy l r p a check none = pure (enomem, none)
    check_copy l r p a check (some c) = do
      a' ← deref c.arg
      u ← deref p.unknown_data
      u' ← deref c.unknown_data
      remote ← read_gate r
      let cleared = clear_sig c.data_bytes a'
      after_verify l r check p.data_bytes u cleared a' u' (verify remote p.data_bytes a cleared a')

    abbrev pub check_packet : ℕ → ℕ → PacketData → ℕ → SeqCheck → Run T (ℤ × Option ArgMsg)
    check_packet l r p a bad = pure (arg_seq_bad, none)
    check_packet l r p a advance = do
      update_proto r (λ s. record s { in_seq_num = hdr_seq p.data_bytes a })
      c ← copy_packet env p
      check_copy l r p a advance c
    check_packet l r p a recheck = do c ← copy_packet env p; check_copy l r p a recheck c

    -- The message of a packet from the gateway at r to the one at l, `none` for a NULL message.
    unfoldable pub process_arg_packet : ℕ → ℕ → PacketData → Run T (ℤ × Option ArgMsg)
    process_arg_packet l r p = do
      a ← deref p.arg
      remote ← read_gate r
      check_packet l r p a
          (check_seq (hdr_type p.data_bytes a) (hdr_seq p.data_bytes a) remote.proto.in_seq_num)

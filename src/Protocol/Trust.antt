-- ===== src/Protocol/Trust.antt =====
-- protocol.c: gateways tell one another about the gateways they know.
use addressroutinggateway.Prelude.{
  ℕ, ◌+◌, ◌/◌, List, [], ◌∷◌, Bool, true, false, Option, none, some, ◌||◌, ℤ, pos, is_zero, is_neg,
  ◌==◌, if◌then◌else◌, take,
}
use addressroutinggateway.Settings.{enomem, arg_config_bad, arg_msg_size_bad}
use addressroutinggateway.Memory.{Bytes, slice, write}
use addressroutinggateway.Utility.Mask.{mask_array}
use addressroutinggateway.Packet.{PacketData}
use addressroutinggateway.World.{
  Run, pure, deref, gets, modify, ◌>>=◌, ◌>>◌, Env, Gate, read_gate, update_gate, update_proto,
  lock, unlock,
}
use addressroutinggateway.Hopper.Networks.{find_network}
use addressroutinggateway.Hopper.Create.{
  from_gate, behind_gate, insert_behind, create_arg_network_info,
}
use addressroutinggateway.Protocol.Message.{
  ArgMsg, arg_trust_data_msg, trust_data_size, create_arg_msg,
}
use addressroutinggateway.Protocol.Create.{send_arg_packet}
use addressroutinggateway.Protocol.Receive.{process_arg_packet}

-- Offsets in `struct arg_trust_data`; `name` stands at 0.
abbrev pub base_ip_offset : ℕ
base_ip_offset = 10

abbrev pub mask_offset : ℕ
mask_offset = 14

abbrev pub n_offset : ℕ
n_offset = 18

abbrev pub e_offset : ℕ
e_offset = 148

-- The string up to the first NUL.
unfoldable pub c_string : List ℕ → List ℕ
c_string [] = []
c_string (c ∷ cs) = if c == 0 then [] else c ∷ c_string cs

-- `strncpy` of at most 9 characters into zeroed memory, and the two addresses.
unfoldable pub trust_front : Gate → Bytes → Bytes
trust_front g b =
    write (write (write b 0 (take 9 g.name)) base_ip_offset g.base_ip) mask_offset g.mask

-- The new gateway that trust data describes, with its public key.
unfoldable pub trusted_gate : Bytes → ℕ → ℕ → ℕ → Gate → Gate
trusted_gate b n e bits g = record g {
  name = c_string (slice b 0 9);
  base_ip = mask_array (slice b base_ip_offset 4) (slice b mask_offset 4);
  mask = slice b mask_offset 4;
  rsa = record g.rsa { n = n; e = e; len = (bits + 7) / 8 };
}

module _ {T : Type 0} (env : Env) where
  abbrev pub send_trust_data : ℕ → ℕ → ArgMsg → Bytes → Option (List ℕ) → Option (List ℕ) → Run T ℤ
  send_trust_data l r msg b none e = pure arg_config_bad
  send_trust_data l r msg b (some n) none = pure arg_config_bad
  send_trust_data l r msg b (some n) (some e) = do
    lock r
    ret ←
        send_arg_packet env l r arg_trust_data_msg
          (some (record msg { msg_bytes = write (write b n_offset n) e_offset e }))
    unlock r
    pure (pos 0)

  abbrev pub send_trust_with : ℕ → ℕ → ℕ → Option ArgMsg → Run T ℤ
  send_trust_with l r a none = pure enomem
  send_trust_with l r a (some msg) = do
    g ← read_gate a
    send_trust_data l r msg (trust_front g msg.msg_bytes) (env.mpi_write_binary g.rsa.n 130)
        (env.mpi_write_binary g.rsa.e 10)

  unfoldable pub send_arg_trust : ℕ → ℕ → ℕ → Run T ℤ
  send_arg_trust l r a = do msg ← create_arg_msg env trust_data_size; send_trust_with l r a msg

  abbrev pub trust_unless : ℕ → ℕ → ℕ → Bool → Run T ℤ
  trust_unless l r a true = pure (pos 0)
  trust_unless l r a false = send_arg_trust l r a

  -- The walk over the gateways behind the local one: `ret` becomes 1 when a message fails.
  unfoldable pub send_trust_list : ℕ → ℕ → List ℕ → ℤ → Run T ℤ
  send_trust_list l r [] ret = pure ret
  send_trust_list l r (a ∷ rest) ret = do
    sent ← trust_unless l r a (a == l || a == r)
    send_trust_list l r rest (if is_zero sent then ret else pos 1)

  unfoldable pub send_all_trust : ℕ → ℕ → Run T ℤ
  unfolding send_trust_list
  send_all_trust l r = do
    order ← gets (λ w. w.order)
    send_trust_list l r (behind_gate l order) (pos 0)

  -- The new structure filled and put behind the local one in the list. When a number cannot be
  -- read, it is removed again, and it was in no list.
  abbrev pub add_trusted : ℕ → Bytes → ℕ → Option ℕ → Option ℕ → Run T ℤ
  add_trusted l b a none e = pure arg_config_bad
  add_trusted l b a (some n) none = pure arg_config_bad
  add_trusted l b a (some n) (some e) = do
    update_gate a (trusted_gate b n e (env.mpi_msb n))
    lock l
    modify (λ w. record w { order = insert_behind l a w.order })
    unlock l
    update_proto a (λ s. record s { send_conn_data = true })
    pure (pos 0)

  abbrev pub learn : ℕ → Bytes → Option ℕ → Run T ℤ
  learn l b (some known) = pure (pos 0)
  learn l b none = do
    new ← create_arg_network_info env
    a ← deref new
    add_trusted l b a (env.mpi_read_binary (slice b n_offset 130))
        (env.mpi_read_binary (slice b e_offset 10))

  abbrev pub trust_sized : ℕ → ArgMsg → Bool → Run T ℤ
  trust_sized l msg false = pure arg_msg_size_bad
  trust_sized l msg true = do
    known ←
        gets
          (λ w. find_network w.gates (from_gate l w.order) (slice msg.msg_bytes base_ip_offset 4))
    learn l msg.msg_bytes known

  abbrev pub trust_message : ℕ → ℤ × Option ArgMsg → Run T ℤ
  trust_message l (ret, msg) =
      if is_neg ret
      then pure ret
      else (do m ← deref msg; trust_sized l m (m.len == trust_data_size))

  unfoldable pub process_arg_trust : ℕ → ℕ → PacketData → Run T ℤ
  process_arg_trust l r p = do received ← process_arg_packet env l r p; trust_message l received

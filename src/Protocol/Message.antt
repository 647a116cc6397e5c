-- ===== src/Protocol/Message.antt =====
-- protocol.h: message types, the layout of the header and of the messages, and `struct argmsg`.
use addressroutinggateway.Prelude.{ℕ, ◌+◌, Bool, not, Option, none, some, ◌==◌}
use addressroutinggateway.Memory.{Bytes, u16, u32}
use addressroutinggateway.Packet.Buffers.{clear}
use addressroutinggateway.World.{Run, pure, ◌>>=◌, Env, malloc}

abbrev pub arg_wrapped_msg : ℕ
arg_wrapped_msg = 0

abbrev pub arg_ping_msg : ℕ
arg_ping_msg = 1

abbrev pub arg_conn_data_resp_msg : ℕ
arg_conn_data_resp_msg = 2

abbrev pub arg_conn_data_req_msg : ℕ
arg_conn_data_req_msg = 3

abbrev pub arg_trust_data_msg : ℕ
arg_trust_data_msg = 4

-- Fields of `struct arghdr` at offset a.
abbrev pub hdr_type : Bytes → ℕ → ℕ
hdr_type b a = b (a + 1)

abbrev pub hdr_len : Bytes → ℕ → ℕ
hdr_len b a = u16 b (a + 2)

abbrev pub hdr_seq : Bytes → ℕ → ℕ
hdr_seq b a = u32 b (a + 4)

-- The offset of `sig`.
abbrev pub hdr_sig : ℕ → ℕ
hdr_sig a = a + 8

-- The sizes of `struct arg_ping_data`, `arg_conn_data` and `arg_trust_data`.
abbrev pub ping_data_size : ℕ
ping_data_size = 12

abbrev pub conn_data_size : ℕ
conn_data_size = 68

abbrev pub trust_data_size : ℕ
trust_data_size = 158

-- `data` is at least as large as `len`.
pub record ArgMsg : Type 0 where
  pub len : ℕ
  pub msg_bytes : Bytes

unfoldable pub get_msg_type : Bytes → ℕ → ℕ
get_msg_type b a = hdr_type b a

unfoldable pub is_wrapped_msg : Bytes → ℕ → Bool
unfolding get_msg_type
is_wrapped_msg b a = get_msg_type b a == arg_wrapped_msg

unfoldable pub is_admin_msg : Bytes → ℕ → Bool
unfolding get_msg_type
is_admin_msg b a = not (get_msg_type b a == arg_wrapped_msg)

module _ {T : Type 0} (env : Env) where
  abbrev pub msg_with : ℕ → Option Bytes → Run T (Option ArgMsg)
  msg_with len none = pure none
  msg_with len (some b) = pure (some (record { len = len; msg_bytes = clear len b }))

  abbrev pub msg_data : ℕ → Option Bytes → Run T (Option ArgMsg)
  msg_data len none = pure none
  msg_data len (some s) = do b ← malloc env; msg_with len b

  -- Two allocations: the structure, and its zeroed data.
  unfoldable pub create_arg_msg : ℕ → Run T (Option ArgMsg)
  unfolding malloc clear
  create_arg_msg len = do s ← malloc env; msg_data len s

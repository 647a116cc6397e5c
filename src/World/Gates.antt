-- ===== src/World/Gates.antt =====
-- hopper.h and protocol.h: `struct arg_network_info` and `struct proto_data`.
-- The `md` context is restarted with a key before each use, so it holds nothing; of the `cipher`
-- context the key is kept, as each use resets the rest. The `next` and `prev` links are the order of
-- the list in the state, and the mutex `lock` is kept beside the structures.
use addressroutinggateway.Prelude.{ℕ, List, Bool, ℤ}
use addressroutinggateway.Utility.Time.{Timespec}

-- The fields of `rsa_context` that the program reads or fills.
pub record Rsa : Type 0 where
  pub n : ℕ
  pub e : ℕ
  pub d : ℕ
  pub len : ℕ

pub record ProtoData : Type 0 where
  pub send_conn_data : Bool
  pub send_ping : Bool
  pub send_trust : Bool
  pub conn_data_available : Bool
  pub time_base_available : Bool
  pub last_conn_attempt_time : Timespec
  pub in_seq_num : ℕ
  pub out_seq_num : ℕ
  pub latency : ℤ
  pub good_ip_count : ℕ
  pub bad_ip_count : ℕ
  pub ping_sent_time : Timespec
  pub sent_ping_id : ℕ

-- `name` is the string up to its NUL.
pub record Gate : Type 0 where
  pub name : List ℕ
  pub connected : Bool
  pub last_data_update : Timespec
  pub proto : ProtoData
  pub sym_key : List ℕ
  pub iv : List ℕ
  pub cipher_key : List ℕ
  pub rsa : Rsa
  pub hop_key : List ℕ
  pub time_base : Timespec
  pub hop_interval : ℕ
  pub base_ip : List ℕ
  pub mask : List ℕ

-- ===== src/Hopper/Create.antt =====
-- hopper.c: `create_arg_network_info`, and where in the list a gateway stands.
use addressroutinggateway.Prelude.{
  ℕ, suc, ◌-◌, ◌^◌, List, [], ◌∷◌, false, Option, none, some, pos, ◌==◌, if◌then◌else◌, replicate,
}
use addressroutinggateway.Memory.{Bytes}
use addressroutinggateway.Utility.Time.{Timespec}
use addressroutinggateway.World.{done, Run, ◌>>=◌, Env, Gate, set_flag, malloc}

abbrev zero_time : Timespec
zero_time = record { tv_sec = pos 0; tv_nsec = pos 0 }

-- The structure after `memset` and the assignments.
abbrev pub new_gate : Gate
new_gate = record {
  name = [];
  connected = false;
  last_data_update = zero_time;
  proto = record {
    send_conn_data = false;
    send_ping = false;
    send_trust = false;
    conn_data_available = false;
    time_base_available = false;
    last_conn_attempt_time = zero_time;
    in_seq_num = 0;
    out_seq_num = 1;
    latency = pos 0;
    good_ip_count = 0;
    bad_ip_count = 0;
    ping_sent_time = zero_time;
    sent_ping_id = 0;
  };
  sym_key = replicate 32 0;
  iv = replicate 16 0;
  cipher_key = [];
  rsa = record { n = 0; e = 0; d = 0; len = 0 };
  hop_key = replicate 16 0;
  time_base = zero_time;
  hop_interval = 2 ^ 32 - 1;
  base_ip = replicate 4 0;
  mask = replicate 4 0;
}

-- The gateways from the one at a on, and those behind it.
unfoldable pub from_gate : ℕ → List ℕ → List ℕ
from_gate a [] = []
from_gate a (b ∷ rest) = if b == a then b ∷ rest else from_gate a rest

unfoldable pub behind_gate : ℕ → List ℕ → List ℕ
behind_gate a [] = []
behind_gate a (b ∷ rest) = if b == a then rest else behind_gate a rest

-- `new->next = a->next; a->next = new`
unfoldable pub insert_behind : ℕ → ℕ → List ℕ → List ℕ
insert_behind a new [] = []
insert_behind a new (b ∷ rest) = if b == a then b ∷ new ∷ rest else b ∷ insert_behind a new rest

module _ {T : Type 0} (env : Env) where
  abbrev pub place_gate : Option Bytes → Run T (Option ℕ)
  place_gate none w = done none w
  place_gate (some block) w = done (some w.fresh) (record w {
    gates = λ b. if b == w.fresh then new_gate else w.gates b;
    locked = set_flag w.fresh false w.locked;
    fresh = suc w.fresh;
  })

  -- The address of a new structure that is in no list, or NULL.
  unfoldable pub create_arg_network_info : Run T (Option ℕ)
  unfolding malloc
  create_arg_network_info = do block ← malloc env; place_gate block

-- ===== src/Machine/Exchange.antt =====
-- protocol.c: connection data and tunnelled packets make only steps of the gateway program.
use addressroutinggateway.Prelude.{ℕ, Bool, true, false, Option, none, some, ℤ}
use addressroutinggateway.Packet.{PacketData}
use addressroutinggateway.World.{Env}
use addressroutinggateway.Protocol.Message.{ArgMsg}
use addressroutinggateway.Protocol.Connect.{
  note_attempt, send_conn_with, send_arg_conn_data, conn_sized, conn_message,
  process_arg_conn_data_resp, after_reply, reply_conn_data, process_arg_conn_data_req,
}
use addressroutinggateway.Protocol.Wrapped.{
  send_wrapped, wrap_connected, send_arg_wrapped, forward, unwrap_message, unwrap_connected,
  process_arg_wrapped,
}
use addressroutinggateway.Machine.Calls.{Runs, call_rules, do_rules, Runs-pure}
use addressroutinggateway.Machine.Messages.{packet_rules}

module _ (T : Type 0) (env : Env) where
  Runs-note_attempt : (r : ℕ) (b : Bool) → Runs {T = T} (note_attempt env r b)
  Runs-note_attempt r true = search packet_rules
  Runs-note_attempt r false = Runs-pure _ _ _

  Runs-send_conn_with :
      (l r : ℕ) (b : Bool) (msg : Option ArgMsg) → Runs {T = T} (send_conn_with env l r b msg)
  Runs-send_conn_with l r b none = Runs-pure _ _ _
  Runs-send_conn_with l r b (some msg) = search (packet_rules, Runs-note_attempt) depth 30 fits 5000

  pub Runs-send_arg_conn_data : (l r : ℕ) (b : Bool) → Runs {T = T} (send_arg_conn_data env l r b)
  unfolding send_arg_conn_data
  Runs-send_arg_conn_data l r b = search (call_rules, Runs-send_conn_with)

  Runs-conn_sized : (r : ℕ) (msg : ArgMsg) (b : Bool) → Runs {T = T} (conn_sized env r msg b)
  Runs-conn_sized r msg true = search packet_rules depth 30 fits 5000
  Runs-conn_sized r msg false = Runs-pure _ _ _

  Runs-conn_message : (r : ℕ) (got : ℤ × Option ArgMsg) → Runs {T = T} (conn_message env r got)
  Runs-conn_message r (ret, msg) = search (do_rules, Runs-conn_sized)

  pub Runs-process_arg_conn_data_resp :
      (l r : ℕ) (p : PacketData) → Runs {T = T} (process_arg_conn_data_resp env l r p)
  unfolding process_arg_conn_data_resp
  Runs-process_arg_conn_data_resp l r p = search (packet_rules, Runs-conn_message)

  Runs-after_reply : (r : ℕ) (ret : ℤ) → Runs {T = T} (after_reply env r ret)
  Runs-after_reply r ret = search packet_rules depth 10

  Runs-reply_conn_data : (l r : ℕ) (ret : ℤ) → Runs {T = T} (reply_conn_data env l r ret)
  Runs-reply_conn_data l r ret =
      search (do_rules, Runs-send_arg_conn_data, Runs-after_reply) depth 10

  pub Runs-process_arg_conn_data_req :
      (l r : ℕ) (p : PacketData) → Runs {T = T} (process_arg_conn_data_req env l r p)
  unfolding process_arg_conn_data_req
  Runs-process_arg_conn_data_req l r p =
      search (do_rules, Runs-process_arg_conn_data_resp, Runs-reply_conn_data)

  Runs-send_wrapped :
      (r : ℕ) (made : ℤ × Option PacketData) → Runs {T = T} (send_wrapped env r made)
  Runs-send_wrapped r (ret, none) = Runs-pure _ _ _
  Runs-send_wrapped r (ret, some p) = search call_rules depth 10

  Runs-wrap_connected :
      (l r : ℕ) (p : PacketData) (b : Bool) → Runs {T = T} (wrap_connected env l r p b)
  Runs-wrap_connected l r p true = search (packet_rules, Runs-send_wrapped) depth 10
  Runs-wrap_connected l r p false = search do_rules

  pub Runs-send_arg_wrapped : (l r : ℕ) (p : PacketData) → Runs {T = T} (send_arg_wrapped env l r p)
  unfolding send_arg_wrapped
  Runs-send_arg_wrapped l r p = search (do_rules, Runs-wrap_connected) depth 10

  Runs-forward : (r : ℕ) (msg : ArgMsg) (p : Option PacketData) → Runs {T = T} (forward env r msg p)
  Runs-forward r msg none = search do_rules
  Runs-forward r msg (some p) = search call_rules depth 10

  Runs-unwrap_message : (r : ℕ) (got : ℤ × Option ArgMsg) → Runs {T = T} (unwrap_message env r got)
  Runs-unwrap_message r (ret, msg) = search (call_rules, Runs-forward) depth 10

  Runs-unwrap_connected :
      (l r : ℕ) (p : PacketData) (b : Bool) → Runs {T = T} (unwrap_connected env l r p b)
  Runs-unwrap_connected l r p true = search (packet_rules, Runs-unwrap_message) depth 10
  Runs-unwrap_connected l r p false = search do_rules

  pub Runs-process_arg_wrapped :
      (l r : ℕ) (p : PacketData) → Runs {T = T} (process_arg_wrapped env l r p)
  unfolding process_arg_wrapped
  Runs-process_arg_wrapped l r p = search (do_rules, Runs-unwrap_connected) depth 10

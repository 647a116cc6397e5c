-- ===== src/Machine/Messages.antt =====
-- protocol.c: pings make only steps of the gateway program.
use addressroutinggateway.Prelude.{ℕ, Bool, true, false, Option, none, some, ℤ, refl}
use addressroutinggateway.Memory.{Bytes}
use addressroutinggateway.Utility.Time.{Timespec}
use addressroutinggateway.Packet.{PacketData}
use addressroutinggateway.World.{Env, Gate, update_proto, update_gate}
use addressroutinggateway.Protocol.Message.{ArgMsg}
use addressroutinggateway.Protocol.Ping.{
  accept_response, send_ping_with, send_arg_ping, answer, take_response, next_request, respond,
  ping_sized, ping_message, process_arg_ping,
}
use addressroutinggateway.Protocol.Connect.{accept_conn_data}
use addressroutinggateway.Machine.Steps.{GateStep}
use addressroutinggateway.Machine.Calls.{Runs, call_rules, do_rules, Runs-pure, Runs-update_gate}
use addressroutinggateway.Machine.Create.{
  Runs-update_proto, Runs-create_arg_packet, Runs-send_arg_packet,
}
use addressroutinggateway.Machine.Receive.{Runs-process_arg_packet}

module _ (T : Type 0) where
  pub Runs-note_id : (r n : ℕ) → Runs {T = T} (update_proto r (λ s. record s { sent_ping_id = n }))
  Runs-note_id r n =
      Runs-update_proto T r (λ s. record s { sent_ping_id = n }) (λ s. refl) (λ s. refl)

  pub Runs-note_ping :
      (r : ℕ) (t : Timespec) → Runs {T = T} (update_proto r (λ s. record s { ping_sent_time = t }))
  Runs-note_ping r t =
      Runs-update_proto T r (λ s. record s { ping_sent_time = t }) (λ s. refl) (λ s. refl)

  pub Runs-note_time :
      (r : ℕ) (t : Timespec)
      → Runs {T = T} (update_proto r (λ s. record s { last_conn_attempt_time = t }))
  Runs-note_time r t =
      Runs-update_proto T r (λ s. record s { last_conn_attempt_time = t }) (λ s. refl) (λ s. refl)

  pub Runs-note_requests :
      (r : ℕ)
      → Runs {T = T} (update_proto r (λ s. record s { send_ping = true; send_trust = true }))
  Runs-note_requests r =
      Runs-update_proto T r (λ s. record s { send_ping = true; send_trust = true }) (λ s. refl)
        (λ s. refl)

  pub Runs-accept_response :
      (r : ℕ) (base : Timespec) (latency : ℤ)
      → Runs {T = T} (update_gate r (accept_response base latency))
  Runs-accept_response r base latency =
      Runs-update_gate T r (accept_response base latency) (λ g. GateStep.take_response base latency)

  pub Runs-accept_conn_data :
      (r : ℕ) (b : Bytes) (now : Timespec) → Runs {T = T} (update_gate r (accept_conn_data b now))
  Runs-accept_conn_data r b now =
      Runs-update_gate T r (accept_conn_data b now) (λ g. GateStep.take_conn_data b now)

  pub ruleset note_rules = (
    Runs-note_id, Runs-note_ping, Runs-note_time, Runs-note_requests, Runs-accept_response,
    Runs-accept_conn_data,
  )

module _ (T : Type 0) (env : Env) where
  pub ruleset packet_rules = (
    call_rules, note_rules, Runs-create_arg_packet, Runs-send_arg_packet, Runs-process_arg_packet,
  )

  Runs-send_ping_with : (l r : ℕ) (msg : Option ArgMsg) → Runs {T = T} (send_ping_with env l r msg)
  Runs-send_ping_with l r none = Runs-pure _ _ _
  Runs-send_ping_with l r (some msg) = search packet_rules depth 30 fits 5000

  pub Runs-send_arg_ping : (l r : ℕ) → Runs {T = T} (send_arg_ping env l r)
  unfolding send_arg_ping
  Runs-send_arg_ping l r = search (call_rules, Runs-send_ping_with)

  Runs-answer : (r : ℕ) (b : Bytes) (g : Gate) (x y : Bool) → Runs {T = T} (answer env r b g x y)
  Runs-answer r b g true y = Runs-pure _ _ _
  Runs-answer r b g false false = Runs-pure _ _ _
  Runs-answer r b g false true = search packet_rules depth 20 fits 3000

  Runs-take_response : (r : ℕ) (b : Bytes) → Runs {T = T} (take_response env r b)
  unfolding take_response
  Runs-take_response r b = search (do_rules, Runs-answer)

  Runs-next_request : (r : ℕ) (b : Bool) → Runs {T = T} (next_request env r b)
  Runs-next_request r true = search packet_rules
  Runs-next_request r false = Runs-pure _ _ _

  Runs-respond : (l r : ℕ) (msg : ArgMsg) (b : Bool) → Runs {T = T} (respond env l r msg b)
  Runs-respond l r msg true = Runs-pure _ _ _
  Runs-respond l r msg false = search (packet_rules, Runs-next_request) depth 20 fits 3000

  Runs-ping_sized : (l r : ℕ) (msg : ArgMsg) (b : Bool) → Runs {T = T} (ping_sized env l r msg b)
  Runs-ping_sized l r msg true =
      search (do_rules, Runs-take_response, Runs-respond) depth 20 fits 3000
  Runs-ping_sized l r msg false = Runs-pure _ _ _

  Runs-ping_message : (l r : ℕ) (got : ℤ × Option ArgMsg) → Runs {T = T} (ping_message env l r got)
  Runs-ping_message l r (ret, msg) = search (do_rules, Runs-ping_sized)

  pub Runs-process_arg_ping : (l r : ℕ) (p : PacketData) → Runs {T = T} (process_arg_ping env l r p)
  unfolding process_arg_ping
  Runs-process_arg_ping l r p = search (packet_rules, Runs-ping_message)

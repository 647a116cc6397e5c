-- ===== src/Machine/Dispatch.antt =====
-- hopper.c: the calls that the director makes consist only of
-- steps of the gateway program.
use addressroutinggateway.Prelude.{
  if◌then◌else◌, ℤ, none, ◌==◌, Option, ℕ, ◌+◌, ◌%◌, ◌^◌, List, Bool, true, false, some, refl,
}
use addressroutinggateway.Packet.{PacketData}
use addressroutinggateway.World.{Run, Env, Gate}
use addressroutinggateway.Hopper.Address.{valid_previous, is_valid_ip}
use addressroutinggateway.Hopper.Admin.{
  note_bad_ip, note_good_ip, is_valid_local_ip, process_admin_msg, do_arg_wrap, do_arg_unwrap,
  wrap_unless_local, admin_handler, handle_admin,
}
use addressroutinggateway.Protocol.Ping.{process_arg_ping}
use addressroutinggateway.Protocol.Connect.{process_arg_conn_data_req, process_arg_conn_data_resp}
use addressroutinggateway.Protocol.Trust.{process_arg_trust}
use addressroutinggateway.Protocol.Message.{
  arg_ping_msg, arg_conn_data_req_msg, arg_conn_data_resp_msg, arg_trust_data_msg,
}
use addressroutinggateway.Machine.Calls.{Runs, call_rules, do_rules, Runs-pure}
use addressroutinggateway.Machine.Create.{Runs-update_proto}
use addressroutinggateway.Machine.Messages.{Runs-process_arg_ping}
use addressroutinggateway.Machine.Exchange.{
  Runs-process_arg_conn_data_resp, Runs-process_arg_conn_data_req, Runs-send_arg_wrapped,
  Runs-process_arg_wrapped,
}
use addressroutinggateway.Machine.Trust.{Runs-process_arg_trust}

module _ (T : Type 0) where
  pub Runs-note_bad_ip : (a : ℕ) → Runs {T = T} (note_bad_ip a)
  unfolding note_bad_ip
  Runs-note_bad_ip a =
      Runs-update_proto T a (λ s. record s { bad_ip_count = (s.bad_ip_count + 1) % 2 ^ 32 })
        (λ s. refl) (λ s. refl)

  pub Runs-note_good_ip : (a : ℕ) → Runs {T = T} (note_good_ip a)
  unfolding note_good_ip
  Runs-note_good_ip a =
      Runs-update_proto T a (λ s. record s { good_ip_count = (s.good_ip_count + 1) % 2 ^ 32 })
        (λ s. refl) (λ s. refl)

module _ (T : Type 0) (env : Env) where
  Runs-valid_previous :
      (g : Gate) (ip : List ℕ) (b : Bool) → Runs {T = T} (valid_previous env g ip b)
  Runs-valid_previous g ip true = Runs-pure _ _ _
  Runs-valid_previous g ip false = search call_rules

  pub Runs-is_valid_ip : (a : ℕ) (ip : List ℕ) → Runs {T = T} (is_valid_ip env a ip)
  unfolding is_valid_ip
  Runs-is_valid_ip a ip = search (call_rules, Runs-valid_previous) depth 20 fits 3000

  pub Runs-is_valid_local_ip : (ip : List ℕ) → Runs {T = T} (is_valid_local_ip env ip)
  unfolding is_valid_local_ip
  Runs-is_valid_local_ip ip = search (do_rules, Runs-is_valid_ip)

  Runs-handle_ping :
      (r : ℕ) (p : PacketData) → Runs {T = T} (handle_admin env r p (some (process_arg_ping env)))
  Runs-handle_ping r p = search (do_rules, Runs-process_arg_ping)

  Runs-handle_req :
      (r : ℕ) (p : PacketData)
      → Runs {T = T} (handle_admin env r p (some (process_arg_conn_data_req env)))
  Runs-handle_req r p = search (do_rules, Runs-process_arg_conn_data_req)

  Runs-handle_resp :
      (r : ℕ) (p : PacketData)
      → Runs {T = T} (handle_admin env r p (some (process_arg_conn_data_resp env)))
  Runs-handle_resp r p = search (do_rules, Runs-process_arg_conn_data_resp)

  Runs-handle_trust :
      (r : ℕ) (p : PacketData) → Runs {T = T} (handle_admin env r p (some (process_arg_trust env)))
  Runs-handle_trust r p = search (do_rules, Runs-process_arg_trust)

  Runs-handle_if :
      (r : ℕ) (p : PacketData) (b : Bool) (x y : Option (ℕ → ℕ → PacketData → Run T ℤ))
      → Runs (handle_admin env r p x)
      → Runs (handle_admin env r p y)
      → Runs (handle_admin env r p (if b then x else y))
  Runs-handle_if r p true x y k l = k
  Runs-handle_if r p false x y k l = l

  Runs-handle_none : (r : ℕ) (p : PacketData) → Runs {T = T} (handle_admin env r p none)
  Runs-handle_none r p = Runs-pure _ _ _

  Runs-handle_admin :
      (r : ℕ) (p : PacketData) (type : ℕ)
      → Runs {T = T} (handle_admin env r p (admin_handler env type))
  Runs-handle_admin r p type =
      Runs-handle_if r p (type == arg_ping_msg) _ _ (Runs-handle_ping r p) (
        Runs-handle_if r p (type == arg_conn_data_req_msg) _ _ (Runs-handle_req r p) (
          Runs-handle_if r p (type == arg_conn_data_resp_msg) _ _ (Runs-handle_resp r p) (
            Runs-handle_if r p (type == arg_trust_data_msg) _ _ (Runs-handle_trust r p)
              (Runs-handle_none r p))))

  pub Runs-process_admin_msg : (p : PacketData) (r : ℕ) → Runs {T = T} (process_admin_msg env p r)
  unfolding process_admin_msg
  Runs-process_admin_msg p r = search (do_rules, Runs-handle_admin)

  Runs-wrap_unless_local :
      (p : PacketData) (l r : ℕ) (b : Bool) → Runs {T = T} (wrap_unless_local env p l r b)
  Runs-wrap_unless_local p l r true = Runs-pure _ _ _
  Runs-wrap_unless_local p l r false = Runs-send_arg_wrapped T env l r p

  pub Runs-do_arg_wrap : (p : PacketData) (r : ℕ) → Runs {T = T} (do_arg_wrap env p r)
  unfolding do_arg_wrap
  Runs-do_arg_wrap p r = search (do_rules, Runs-wrap_unless_local) depth 10

  pub Runs-do_arg_unwrap : (p : PacketData) (r : ℕ) → Runs {T = T} (do_arg_unwrap env p r)
  unfolding do_arg_unwrap
  Runs-do_arg_unwrap p r = search (do_rules, Runs-process_arg_wrapped) depth 10

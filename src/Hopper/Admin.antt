-- ===== src/Hopper/Admin.antt =====
-- hopper.c: the calls that the director makes, and the rounds of `hopper_admin_thread`. `gateInfo`
-- is the first of the list. The mutex `ipLock` is taken only by `current_ip` and at the end of the
-- program, and is left out.
use addressroutinggateway.Prelude.{
  ℕ, ◌+◌, ◌*◌, ◌/◌, ◌%◌, ◌^◌, List, [], ◌∷◌, Bool, true, false, ◌&&◌, ◌||◌, Option, none, some, ℤ,
  pos, ltb_ℤ, ◌==◌, to_int, if◌then◌else◌,
}
use addressroutinggateway.Settings.{
  arg_unhandled_type, max_update_time, connect_wait_time, min_valid_ip_prop, max_ping_time,
}
use addressroutinggateway.Utility.Time.{Timespec, time_offset}
use addressroutinggateway.Packet.{PacketData}
use addressroutinggateway.World.{
  Outcome, Run, pure, deref, gets, ◌>>=◌, ◌>>◌, Env, Gate, read_gate, update_proto, current_time,
}
use addressroutinggateway.Hopper.Address.{generate_ip_corrected, is_valid_ip}
use addressroutinggateway.Hopper.Networks.{gate_info}
use addressroutinggateway.Protocol.Message.{
  get_msg_type, arg_ping_msg, arg_conn_data_req_msg, arg_conn_data_resp_msg, arg_trust_data_msg,
}
use addressroutinggateway.Protocol.Ping.{process_arg_ping}
use addressroutinggateway.Protocol.Connect.{process_arg_conn_data_req, process_arg_conn_data_resp}
use addressroutinggateway.Protocol.Trust.{process_arg_trust}
use addressroutinggateway.Protocol.Wrapped.{send_arg_wrapped, process_arg_wrapped}
use addressroutinggateway.Protocol.Flow.{
  start_time_sync, start_connection, end_connection, do_next_protocol_action,
}

module _ {T : Type 0} where
  -- `gateInfo->...`
  abbrev pub local_gate : Run T ℕ
  local_gate = do first ← gets gate_info; deref first

  unfoldable pub note_bad_ip : ℕ → Run T (Unit {0})
  note_bad_ip a = update_proto a (λ s. record s { bad_ip_count = (s.bad_ip_count + 1) % 2 ^ 32 })

  unfoldable pub note_good_ip : ℕ → Run T (Unit {0})
  note_good_ip a = update_proto a (λ s. record s { good_ip_count = (s.good_ip_count + 1) % 2 ^ 32 })

-- `prop`, an `int`.
unfoldable pub valid_ip_prop : Gate → ℤ
valid_ip_prop g =
    if g.proto.bad_ip_count == 0
    then to_int (pos g.proto.good_ip_count)
    else to_int (pos (g.proto.good_ip_count / g.proto.bad_ip_count))

-- "We haven't heard from this gate in a while"
unfoldable pub is_silent : Gate → Timespec → Bool
is_silent g now =
    g.connected && ltb_ℤ (pos (max_update_time * 1000)) (time_offset g.last_data_update now)

-- "Do we need to check the latency of this gate? Are we missing a lot of IPs?"
unfoldable pub needs_sync : Gate → Timespec → Bool
unfolding valid_ip_prop
needs_sync g now =
    g.connected
    && (ltb_ℤ (valid_ip_prop g) (pos min_valid_ip_prop)
        || ltb_ℤ (pos (max_ping_time * 1000)) (time_offset g.proto.ping_sent_time now))

module _ {T : Type 0} (env : Env) where
  unfoldable pub current_ip : Run T (List ℕ)
  current_ip = do l ← local_gate; g ← read_gate l; generate_ip_corrected env g (pos 0)

  unfoldable pub is_valid_local_ip : List ℕ → Run T Bool
  is_valid_local_ip ip = do l ← local_gate; is_valid_ip env l ip

  abbrev pub admin_handler : ℕ → Option (ℕ → ℕ → PacketData → Run T ℤ)
  admin_handler type =
      if type == arg_ping_msg
      then some (process_arg_ping env)
      else if type == arg_conn_data_req_msg
      then some (process_arg_conn_data_req env)
      else if type == arg_conn_data_resp_msg
      then some (process_arg_conn_data_resp env)
      else if type == arg_trust_data_msg
      then some (process_arg_trust env)
      else none

  abbrev pub handle_admin : ℕ → PacketData → Option (ℕ → ℕ → PacketData → Run T ℤ) → Run T ℤ
  handle_admin r p none = pure arg_unhandled_type
  handle_admin r p (some handler) = do l ← local_gate; handler l r p

  -- The packet comes from the gateway at r.
  unfoldable pub process_admin_msg : PacketData → ℕ → Run T ℤ
  unfolding get_msg_type
  process_admin_msg p r = do
    a ← deref p.arg
    handle_admin r p (admin_handler (get_msg_type p.data_bytes a))

  abbrev pub wrap_unless_local : PacketData → ℕ → ℕ → Bool → Run T ℤ
  wrap_unless_local p l r true = pure (pos 0)
  wrap_unless_local p l r false = send_arg_wrapped env l r p

  unfoldable pub do_arg_wrap : PacketData → ℕ → Run T ℤ
  do_arg_wrap p r = do l ← local_gate; wrap_unless_local p l r (r == l)

  unfoldable pub do_arg_unwrap : PacketData → ℕ → Run T ℤ
  do_arg_unwrap p r = do l ← local_gate; process_arg_wrapped env l r p

  abbrev pub disconnect_silent : ℕ → ℕ → Bool → Run T (Unit {0})
  disconnect_silent l a true = end_connection l a
  disconnect_silent l a false = pure tt

  abbrev pub connect_in_turn : ℕ → ℕ → Bool → Run T (Unit {0})
  connect_in_turn l a true = start_connection l a
  connect_in_turn l a false = pure tt

  abbrev pub sync_needed : ℕ → ℕ → Bool → Run T (Unit {0})
  sync_needed l a true = do
    start_time_sync l a
    update_proto a (λ s. record s { good_ip_count = 0; bad_ip_count = 0 })
  sync_needed l a false = pure tt

  -- One gateway in one round, which began at `now`. An error of the action is logged.
  unfoldable pub admin_check : Timespec → ℕ → ℕ → ℕ → Run T (Unit {0})
  admin_check now check_count l a = do
    g ← read_gate a
    disconnect_silent l a (is_silent g now)
    connect_in_turn l a (check_count % connect_wait_time == 0)
    g' ← read_gate a
    sync_needed l a (needs_sync g' now)
    ret ← do_next_protocol_action env l a
    pure tt

  unfoldable pub admin_checks : Timespec → ℕ → ℕ → List ℕ → Run T (Unit {0})
  unfolding admin_check
  admin_checks now check_count l [] = pure tt
  admin_checks now check_count l (a ∷ rest) = do
    admin_check now check_count l a
    admin_checks now check_count l rest

  -- `gateInfo->next`: no round starts before there is a local gateway.
  abbrev pub admin_list : Timespec → ℕ → List ℕ → Run T (Unit {0})
  admin_list now check_count [] w = Outcome.null_dereference
  admin_list now check_count (l ∷ rest) w = admin_checks now check_count l rest w

  -- One round of the loop of `hopper_admin_thread`; the gates added meanwhile stand behind the
  -- local one and are not met by the walk.
  unfoldable pub admin_round : ℕ → Run T (Unit {0})
  unfolding admin_checks
  admin_round check_count = do
    now ← current_time env
    order ← gets (λ w. w.order)
    admin_list now check_count order

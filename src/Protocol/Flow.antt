-- ===== src/Protocol/Flow.antt =====
-- protocol.c: what is to be done with a gateway, and `do_next_protocol_action`.
use addressroutinggateway.Prelude.{
  ℕ, ◌*◌, Bool, true, false, ◌&&◌, ℤ, pos, ltb_ℤ, is_zero, if◌then◌else◌,
}
use addressroutinggateway.Settings.{min_ping_time, connect_wait_time}
use addressroutinggateway.Utility.Time.{Timespec}
use addressroutinggateway.World.{
  Run, pure, ◌>>=◌, ◌>>◌, Env, Gate, ProtoData, read_gate, update_gate, update_proto,
  current_time_offset,
}
use addressroutinggateway.Protocol.Ping.{send_arg_ping}
use addressroutinggateway.Protocol.Connect.{send_arg_conn_data}
use addressroutinggateway.Protocol.Trust.{send_all_trust}

-- `end_connection`, on the structure of the remote gateway.
unfoldable pub disconnected : Gate → Gate
disconnected g = record g {
  connected = false;
  proto = record g.proto { time_base_available = false; conn_data_available = false };
}

module _ {T : Type 0} where
  unfoldable pub start_time_sync : ℕ → ℕ → Run T (Unit {0})
  start_time_sync l r = update_proto r (λ s. record s { send_ping = true })

  unfoldable pub start_connection : ℕ → ℕ → Run T (Unit {0})
  start_connection l r = update_proto r (λ s. record s { send_conn_data = true })

  unfoldable pub end_connection : ℕ → ℕ → Run T (Unit {0})
  unfolding disconnected
  end_connection l r = update_gate r disconnected

module _ {T : Type 0} (env : Env) where
  -- `flag && current_time_offset(&since) > ms`: the clock is read only if the flag is set.
  unfoldable pub is_due : Bool → Timespec → ℕ → Run T Bool
  is_due false since ms = pure false
  is_due true since ms = do offset ← current_time_offset env since; pure (ltb_ℤ (pos ms) offset)

  -- After an action: its result, and the request is cleared if it is 0.
  abbrev pub clear_if_done : ℕ → (ProtoData → ProtoData) → ℤ → Run T ℤ
  clear_if_done r done_request ret =
      if is_zero ret then (do update_proto r done_request; pure ret) else pure ret

  abbrev pub ping_action : ℕ → ℕ → ℤ → Bool → Run T ℤ
  ping_action l r ret false = pure ret
  ping_action l r ret true = do
    sent ← send_arg_ping env l r
    clear_if_done r (λ s. record s { send_ping = false }) sent

  abbrev pub conn_action : ℕ → ℕ → ℤ → Bool → Run T ℤ
  conn_action l r ret false = pure ret
  conn_action l r ret true = do
    sent ← send_arg_conn_data env l r false
    clear_if_done r (λ s. record s { send_conn_data = false }) sent

  abbrev pub trust_action : ℕ → ℕ → ℤ → Bool → Run T ℤ
  trust_action l r ret false = pure ret
  trust_action l r ret true = do
    sent ← send_all_trust env l r
    clear_if_done r (λ s. record s { send_trust = false }) sent

  unfoldable pub do_next_protocol_action : ℕ → ℕ → Run T ℤ
  do_next_protocol_action l r = do
    g ← read_gate r
    ping_due ← is_due g.proto.send_ping g.proto.ping_sent_time (min_ping_time * 1000)
    ret ← ping_action l r (pos 0) ping_due
    g' ← read_gate r
    conn_due ←
        is_due g'.proto.send_conn_data g'.proto.last_conn_attempt_time (connect_wait_time * 1000)
    ret' ← conn_action l r ret conn_due
    g'' ← read_gate r
    trust_action l r ret' (g''.proto.send_trust && g''.connected)

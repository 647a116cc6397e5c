-- ===== src/Machine/Rounds.antt =====
-- protocol.c and hopper.c: the rounds of the admin thread make only steps of the gateway program.
use addressroutinggateway.Prelude.{ℕ, List, [], ◌∷◌, Bool, true, false, ℤ, refl, ◌≡◌}
use addressroutinggateway.Utility.Time.{Timespec}
use addressroutinggateway.World.{Env, ProtoData, update_proto}
use addressroutinggateway.World.Keeps.{Keeps}
use addressroutinggateway.Hopper.Admin.{
  disconnect_silent, connect_in_turn, sync_needed, admin_check, admin_checks, admin_list,
  admin_round,
}
use addressroutinggateway.Protocol.Flow.{
  start_time_sync, start_connection, end_connection, is_due, disconnected, clear_if_done,
  ping_action, conn_action, trust_action, do_next_protocol_action,
}
use addressroutinggateway.Machine.Steps.{GateStep}
use addressroutinggateway.Machine.Calls.{Runs, call_rules, do_rules, Runs-pure, Runs-update_gate}
use addressroutinggateway.Machine.Create.{Runs-update_proto}
use addressroutinggateway.Machine.Messages.{Runs-send_arg_ping}
use addressroutinggateway.Machine.Exchange.{Runs-send_arg_conn_data}
use addressroutinggateway.Machine.Trust.{Runs-send_all_trust}

module _ (T : Type 0) where
  Runs-start_time_sync : (l r : ℕ) → Runs {T = T} (start_time_sync l r)
  unfolding start_time_sync
  Runs-start_time_sync l r =
      Runs-update_proto T r (λ s. record s { send_ping = true }) (λ s. refl) (λ s. refl)

  Runs-start_connection : (l r : ℕ) → Runs {T = T} (start_connection l r)
  unfolding start_connection
  Runs-start_connection l r =
      Runs-update_proto T r (λ s. record s { send_conn_data = true }) (λ s. refl) (λ s. refl)

  Runs-end_connection : (l r : ℕ) → Runs {T = T} (end_connection l r)
  unfolding end_connection
  Runs-end_connection l r = Runs-update_gate T r disconnected (λ g. GateStep.disconnect)

module _ (T : Type 0) (env : Env) where
  Runs-clear_if_done :
      (r : ℕ) (f : ProtoData → ProtoData) (ret : ℤ)
      → ((s : ProtoData) → (f s).conn_data_available ≡ s.conn_data_available)
      → ((s : ProtoData) → (f s).time_base_available ≡ s.time_base_available)
      → Runs {T = T} (clear_if_done env r f ret)
  Runs-clear_if_done r f ret same_data same_base =
      search (do_rules, Runs-update_proto T r f same_data same_base)

  Runs-is_due : (b : Bool) (t : Timespec) (ms : ℕ) → Runs {T = T} (is_due env b t ms)
  unfolding is_due
  Runs-is_due true t ms = search call_rules
  Runs-is_due false t ms = Runs-pure _ _ _

  Runs-ping_action : (l r : ℕ) (ret : ℤ) (b : Bool) → Runs {T = T} (ping_action env l r ret b)
  Runs-ping_action l r ret true = search (
    do_rules,
    Runs-send_arg_ping,
    λ (x : ℤ). Runs-clear_if_done r (λ s. record s { send_ping = false }) x (λ s. refl) (λ s. refl),
  )
  Runs-ping_action l r ret false = Runs-pure _ _ _

  Runs-conn_action : (l r : ℕ) (ret : ℤ) (b : Bool) → Runs {T = T} (conn_action env l r ret b)
  Runs-conn_action l r ret true = search (
    do_rules,
    Runs-send_arg_conn_data,
    λ (x : ℤ).
        Runs-clear_if_done r (λ s. record s { send_conn_data = false }) x (λ s. refl) (λ s. refl),
  )
  Runs-conn_action l r ret false = Runs-pure _ _ _

  Runs-trust_action : (l r : ℕ) (ret : ℤ) (b : Bool) → Runs {T = T} (trust_action env l r ret b)
  Runs-trust_action l r ret true = search (
    do_rules,
    Runs-send_all_trust,
    λ (x : ℤ).
        Runs-clear_if_done r (λ s. record s { send_trust = false }) x (λ s. refl) (λ s. refl),
  )
  Runs-trust_action l r ret false = Runs-pure _ _ _

  Runs-do_next_protocol_action : (l r : ℕ) → Runs {T = T} (do_next_protocol_action env l r)
  unfolding do_next_protocol_action
  Runs-do_next_protocol_action l r =
      search (do_rules, Runs-is_due, Runs-ping_action, Runs-conn_action, Runs-trust_action) depth 30
        fits 5000

  Runs-disconnect_silent : (l a : ℕ) (b : Bool) → Runs {T = T} (disconnect_silent env l a b)
  Runs-disconnect_silent l a true = Runs-end_connection T l a
  Runs-disconnect_silent l a false = Runs-pure _ _ _

  Runs-connect_in_turn : (l a : ℕ) (b : Bool) → Runs {T = T} (connect_in_turn env l a b)
  Runs-connect_in_turn l a true = Runs-start_connection T l a
  Runs-connect_in_turn l a false = Runs-pure _ _ _

  Runs-clear_counts :
      (a : ℕ)
      → Runs {T = T} (update_proto a (λ s. record s { good_ip_count = 0; bad_ip_count = 0 }))
  Runs-clear_counts a =
      Runs-update_proto T a (λ s. record s { good_ip_count = 0; bad_ip_count = 0 }) (λ s. refl)
        (λ s. refl)

  Runs-sync_needed : (l a : ℕ) (b : Bool) → Runs {T = T} (sync_needed env l a b)
  Runs-sync_needed l a true = search (do_rules, Runs-start_time_sync, Runs-clear_counts)
  Runs-sync_needed l a false = Runs-pure _ _ _

  Runs-admin_check : (now : Timespec) (n l a : ℕ) → Runs {T = T} (admin_check env now n l a)
  unfolding admin_check
  Runs-admin_check now n l a =
      search
        (
          do_rules, Runs-disconnect_silent, Runs-connect_in_turn, Runs-sync_needed,
          Runs-do_next_protocol_action,
        )
        depth 20 fits 3000

  Runs-admin_checks :
      (now : Timespec) (n l : ℕ) (rest : List ℕ) → Runs {T = T} (admin_checks env now n l rest)
  unfolding admin_checks
  Runs-admin_checks now n l [] = Runs-pure _ _ _
  Runs-admin_checks now n l (a ∷ rest) =
      search (do_rules, Runs-admin_check, Runs-admin_checks now n l rest)

  Runs-admin_list :
      (now : Timespec) (n : ℕ) (order : List ℕ) → Runs {T = T} (admin_list env now n order)
  unfolding Keeps
  Runs-admin_list now n [] w = tt
  Runs-admin_list now n (l ∷ rest) w = Runs-admin_checks now n l rest w

  pub Runs-admin_round : (n : ℕ) → Runs {T = T} (admin_round env n)
  unfolding admin_round
  Runs-admin_round n = search (call_rules, Runs-admin_list) depth 10

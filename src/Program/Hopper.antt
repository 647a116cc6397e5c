-- ===== src/Program/Hopper.antt =====
-- hopper.c and nat.c: starting and ending.
use addressroutinggateway.Prelude.{Bool, true, false, ℤ, pos}
use addressroutinggateway.Settings.{arg_config_bad, arg_internal_error}
use addressroutinggateway.Program.State.{
  Returned, succeeds, fails, undefined_in, misuse, nat_table_lock, networks_lock, ip_lock, free,
  Living, ◌>>◌, pure, change, put_lock, mutex_lock, mutex_unlock, mutex_destroy,
}

unfoldable pub init_hopper_locks : Living (Unit {0})
init_hopper_locks = do put_lock ip_lock free; put_lock networks_lock free

-- `pthread_cancel`, `pthread_join` and the reset, if there is a thread.
abbrev pub stop_connect_thread : Living (Unit {0})
stop_connect_thread = change (λ p. record p { connect_thread = false })

-- `remove_all_associated_arg_networks`, `free(gateInfo)` and `gateInfo = NULL`, if it is not NULL.
abbrev pub free_gates : Living (Unit {0})
free_gates = change (λ p. record p { has_gates = false })

unfoldable pub uninit_hopper : Living (Unit {0})
uninit_hopper = do
  stop_connect_thread
  mutex_lock networks_lock
  mutex_lock ip_lock
  free_gates
  mutex_unlock ip_lock
  mutex_unlock networks_lock
  mutex_destroy ip_lock
  mutex_destroy networks_lock

-- By the results of `ctr_drbg_init` and of `get_hopper_conf`.
abbrev pub seeded_hopper : Bool → Living ℤ
seeded_hopper true = do mutex_unlock ip_lock; mutex_unlock networks_lock; pure (pos 0)
seeded_hopper false = do
  mutex_unlock ip_lock
  mutex_unlock networks_lock
  uninit_hopper
  pure arg_internal_error

abbrev pub configured_hopper : Returned → Bool → Living ℤ
configured_hopper succeeds seeded = seeded_hopper seeded
configured_hopper (undefined_in m) seeded = misuse m
configured_hopper fails seeded = do
  mutex_unlock ip_lock
  mutex_unlock networks_lock
  uninit_hopper
  pure arg_config_bad

-- `some_gates`: whether `get_hopper_conf` has made any gateway.
unfoldable pub init_hopper : Bool → Returned → Bool → Living ℤ
unfolding uninit_hopper
init_hopper some_gates configured seeded = do
  mutex_lock networks_lock
  mutex_lock ip_lock
  change (λ p. record p { has_gates = some_gates })
  configured_hopper configured seeded

unfoldable pub init_hopper_finish : Living (Unit {0})
init_hopper_finish = change (λ p. record p { connect_thread = true })

unfoldable pub init_nat_locks : Living (Unit {0})
init_nat_locks = put_lock nat_table_lock free

unfoldable pub init_nat : Living ℤ
init_nat = do change (λ p. record p { nat_cleanup_thread = true }); pure (pos 0)

-- `empty_nat_table` takes the mutex.
unfoldable pub uninit_nat : Living (Unit {0})
uninit_nat = do
  change (λ p. record p { nat_cleanup_thread = false })
  mutex_lock nat_table_lock
  mutex_unlock nat_table_lock
  mutex_destroy nat_table_lock

-- ===== src/Program/Ends.antt =====
-- init.c: how the program ends.
use addressroutinggateway.Prelude.{
  ◌≡◌, List, [], ◌∷◌, Bool, true, false, ◌&&◌, ℤ, pos, negsuc, zero, suc,
}
use addressroutinggateway.Program.State.{
  nat_table_lock, networks_lock, ip_lock, cancel_lock, destroyed, no_handle, opened, Misuse,
  lock_used, no_thread, Process, Returned, succeeds, fails, undefined_in, Life, going, stuck,
  undefined,
}
use addressroutinggateway.Program.Director.{Driver}
use addressroutinggateway.Program.Main.{Calls, arg_exit}

-- All threads run, both devices are open.
pub record IsStarted (p : Process) : Type 0 where
  pub cleanup : p.nat_cleanup_thread ≡ true
  pub connect : p.connect_thread ≡ true
  pub receivers : (p.int_thread ≡ true) × (p.ext_thread ≡ true)
  pub devices : (p.int_pd ≡ opened) × (p.ext_pd ≡ opened)

-- No thread runs, no handle of pcap is left, the gateways are freed, and all mutexes are destroyed.
pub record IsIdle (p : Process) : Type 0 where
  pub no_cleanup : p.nat_cleanup_thread ≡ false
  pub no_connect : p.connect_thread ≡ false
  pub no_receivers : (p.int_thread ≡ false) × (p.ext_thread ≡ false)
  pub no_devices : (p.int_pd ≡ no_handle) × (p.ext_pd ≡ no_handle)
  pub no_gates : p.has_gates ≡ false
  pub no_locks :
      (p.locks nat_table_lock ≡ destroyed)
      × (p.locks networks_lock ≡ destroyed)
      × (p.locks ip_lock ≡ destroyed)
      × (p.locks cancel_lock ≡ destroyed)

abbrev pub Ends : Life (Unit {0}) → Type 0
Ends (going r p) = IsIdle p
Ends stuck = ⊥
Ends (undefined m) = ⊥

-- A result of 0 means that the program has started, and that `arg_exit` can end it.
abbrev pub Starts : Life ℤ → Type 0
Starts (going (pos zero) p) = IsStarted p × Ends (arg_exit p)
Starts (going (pos (suc n)) p) = ⊥
Starts (going (negsuc k) p) = Unit {0}
Starts stuck = ⊥
Starts (undefined m) = Unit {0}

abbrev pub calls_of :
    (reads : Returned) (gates : Bool) (conf : Returned) (seeds : Bool)
    (ic ia ip is' ec ea ep es : Bool)
    → Calls
calls_of reads gates conf seeds ic ia ip is' ec ea ep es = record {
  reads_config = reads;
  some_gates = gates;
  configures_hopper = conf;
  seeds = seeds;
  int = record { creates = ic; activates = ia; compiles = ip; sets_filter = is' };
  ext = record { creates = ec; activates = ea; compiles = ep; sets_filter = es };
}

-- The first that is undefined: with all started, the signal or its lack decides.
abbrev pub after_start : List (Unit {0}) → Misuse
after_start [] = no_thread
after_start (s ∷ more) = lock_used cancel_lock

abbrev pub opens : Driver → Bool
opens d = d.creates && (d.activates && (d.compiles && d.sets_filter))

abbrev pub with_devices : Bool → List (Unit {0}) → Misuse
with_devices true received = after_start received
with_devices false received = no_thread

abbrev pub with_seed : Calls → List (Unit {0}) → Bool → Misuse
with_seed c received true = with_devices (opens c.int && opens c.ext) received
with_seed c received false = lock_used networks_lock

abbrev pub with_hopper : Calls → List (Unit {0}) → Returned → Misuse
with_hopper c received succeeds = with_seed c received c.seeds
with_hopper c received fails = lock_used networks_lock
with_hopper c received (undefined_in m) = m

abbrev pub with_config : Calls → List (Unit {0}) → Returned → Misuse
with_config c received succeeds = with_hopper c received c.configures_hopper
with_config c received fails = no_thread
with_config c received (undefined_in m) = m

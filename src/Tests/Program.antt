-- ===== src/Tests/Program.antt =====
-- Runs of `main`: one that starts and is ended by a signal, one whose hopper cannot be configured.
use addressroutinggateway.Prelude.{true}
use addressroutinggateway.Program.{Calls, Driver, succeeds, fails}

abbrev works : Driver
works = record { creates = true; activates = true; compiles = true; sets_filter = true }

abbrev good_calls : Calls
good_calls = record {
  reads_config = succeeds;
  some_gates = true;
  configures_hopper = succeeds;
  seeds = true;
  int = works;
  ext = works;
}

abbrev bad_calls : Calls
bad_calls = record good_calls { configures_hopper = fails }

-- ===== src/Program/Main.antt =====
-- init.c: `arg_init`, `arg_exit` and `main`. The calls that are modelled elsewhere, and those of the
-- system, stand for how they end.
use addressroutinggateway.Prelude.{List, [], ◌∷◌, Bool, true, false, ℤ, pos, is_zero}
use addressroutinggateway.Settings.{arg_config_bad}
use addressroutinggateway.Program.State.{
  Returned, succeeds, fails, undefined_in, misuse, Living, ◌>>=◌, ◌>>◌, pure,
}
use addressroutinggateway.Program.Hopper.{
  init_hopper_locks, init_hopper, uninit_hopper, init_hopper_finish, init_nat_locks, init_nat,
  uninit_nat,
}
use addressroutinggateway.Program.Director.{
  Driver, init_director_locks, init_director, uninit_director, join_director,
}

pub record Calls : Type 0 where
  pub reads_config : Returned
  pub some_gates : Bool
  pub configures_hopper : Returned
  pub seeds : Bool
  pub int : Driver
  pub ext : Driver

-- By whether `init_director`, `init_nat` and `init_hopper` return 0.
abbrev pub directed : Bool → Living ℤ
directed true = do init_hopper_finish; pure (pos 0)
directed false = do uninit_director; uninit_nat; uninit_hopper; pure arg_config_bad

abbrev pub translated : Driver → Driver → Bool → Living ℤ
translated int ext true = do ret ← init_director int ext; directed (is_zero ret)
translated int ext false = do uninit_nat; uninit_hopper; pure arg_config_bad

abbrev pub hopped : Driver → Driver → Bool → Living ℤ
hopped int ext true = do ret ← init_nat; translated int ext (is_zero ret)
hopped int ext false = do uninit_hopper; pure arg_config_bad

abbrev pub after_config : Calls → Returned → Living ℤ
after_config c (undefined_in m) = misuse m
after_config c fails = pure arg_config_bad
after_config c succeeds = do
  ret ← init_hopper c.some_gates c.configures_hopper c.seeds
  hopped c.int c.ext (is_zero ret)

unfoldable pub arg_init : Calls → Living ℤ
unfolding init_nat_locks init_hopper_locks init_director_locks init_hopper uninit_hopper init_nat
    uninit_nat init_director uninit_director init_hopper_finish
arg_init c = do
  init_nat_locks
  init_hopper_locks
  init_director_locks
  after_config c c.reads_config

unfoldable pub arg_exit : Living (Unit {0})
unfolding uninit_director uninit_nat uninit_hopper
arg_exit = do uninit_director; uninit_nat; uninit_hopper

-- `sig_handler`, each time that the signal comes.
unfoldable pub signals : List (Unit {0}) → Living (Unit {0})
unfolding uninit_director
signals [] = pure tt
signals (s ∷ more) = do uninit_director; signals more

-- `main`, with one or two arguments: the signals come before the threads have ended. The result
-- of `arg_init` is not looked at.
unfoldable pub main : Calls → List (Unit {0}) → Living ℤ
unfolding arg_init signals join_director arg_exit
main c received = do started ← arg_init c; signals received; join_director; arg_exit; pure (pos 0)

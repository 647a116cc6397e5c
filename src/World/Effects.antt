-- ===== src/World/Effects.antt =====
-- The state, and a call as a function of it. A call returns, or it stops the program: by following
-- a NULL pointer, or by waiting for a mutex that its own thread holds.
use addressroutinggateway.Prelude.{
  refl, inr, ◌∙◌, ==_iff, ap, sym, inl, Bool-cases, fun_ext, ◌≡◌, Bool, ℕ, suc, List, true, false,
  Option, none, some, ℤ, ◌==◌, if◌then◌else◌,
}
use addressroutinggateway.Memory.{Bytes}
use addressroutinggateway.Utility.Time.{Timespec, time_offset}
use addressroutinggateway.World.Gates.{Gate, ProtoData}
use addressroutinggateway.World.Machine.{Env}

-- `gates` is the memory of the `arg_network_info` structures by address, `locked` says whose mutex
-- is held, `order` the list that
-- starts at `gateInfo`, `fresh` an address that no structure has. T is the type of the NAT table.
-- The counters number the calls of the environment; `sent` is what went out, the latest first.
pub record World (T : Type 0) : Type 0 where
  pub clock_reads : ℕ
  pub draws : ℕ
  pub allocs : ℕ
  pub sends : ℕ
  pub sent : List (List ℕ)
  pub gates : ℕ → Gate
  pub locked : ℕ → Bool
  pub order : List ℕ
  pub fresh : ℕ
  pub nat_table : T

pub data Outcome (T : Type 0) (A : Type 0) : Type 0 where
  done : A → World T → Outcome T A
  null_dereference : Outcome T A
  deadlock : Outcome T A

abbrev pub Run : Type 0 → Type 0 → Type 0
Run T A = World T → Outcome T A

module _ {T : Type 0} {A : Type 0} where
  abbrev pub pure : A → Run T A
  pure a w = done a w

  -- `p->f` where p may be NULL.
  abbrev pub deref : Option A → Run T A
  deref none w = null_dereference
  deref (some a) w = done a w

  abbrev pub gets : (World T → A) → Run T A
  gets f w = done (f w) w

module _ {T : Type 0} {A B : Type 0} where
  abbrev pub and_then : Outcome T A → (A → Run T B) → Outcome T B
  and_then (done a w) f = f a w
  and_then null_dereference f = null_dereference
  and_then deadlock f = deadlock

  infixl 5 ◌>>=◌ ◌>>◌
  abbrev pub ◌>>=◌ : Run T A → (A → Run T B) → Run T B
  ◌>>=◌ m f w = and_then (m w) f

  abbrev pub ◌>>◌ : Run T A → Run T B → Run T B
  ◌>>◌ m k w = and_then (m w) (λ _. k)

abbrev pub set_flag : ℕ → Bool → (ℕ → Bool) → ℕ → Bool
set_flag a v f b = if b == a then v else f b

module _ {T : Type 0} where
  abbrev pub modify : (World T → World T) → Run T (Unit {0})
  modify f w = done tt (f w)

  unfoldable pub set_gate : ℕ → Gate → World T → World T
  set_gate a g w = record w { gates = λ b. if b == a then g else w.gates b }

  -- Write fields of the structure at a.
  unfoldable pub update_gate : ℕ → (Gate → Gate) → Run T (Unit {0})
  update_gate a f w = done tt (set_gate a (f (w.gates a)) w)

  unfoldable pub update_proto : ℕ → (ProtoData → ProtoData) → Run T (Unit {0})
  unfolding update_gate
  update_proto a f = update_gate a (λ g. record g { proto = f g.proto })

  abbrev pub read_gate : ℕ → Run T Gate
  read_gate a w = done (w.gates a) w

  -- `pthread_mutex_lock(&gate->lock)`, a mutex that is not recursive.
  unfoldable pub lock : ℕ → Run T (Unit {0})
  lock a w =
      if w.locked a then deadlock else done tt (record w { locked = set_flag a true w.locked })

  unfoldable pub unlock : ℕ → Run T (Unit {0})
  unlock a w = done tt (record w { locked = set_flag a false w.locked })

module _ {T : Type 0} (env : Env) where
  unfoldable pub current_time : Run T Timespec
  current_time w = done (env.clock w.clock_reads) (record w { clock_reads = suc w.clock_reads })

  unfoldable pub current_time_offset : Timespec → Run T ℤ
  unfolding current_time
  current_time_offset begin = do now ← current_time; pure (time_offset begin now)

  unfoldable pub get_random_bytes : ℕ → Run T (List ℕ)
  get_random_bytes n w = done (env.urandom w.draws n) (record w { draws = suc w.draws })

  unfoldable pub malloc : Run T (Option Bytes)
  malloc w = done (env.malloc w.allocs) (record w { allocs = suc w.allocs })

-- Taking a free mutex and giving it back changes nothing.
pub relock : (a : ℕ) (f : ℕ → Bool) → f a ≡ false → set_flag a false (set_flag a true f) ≡ f
relock a f free = fun_ext λ b. elim (Bool-cases (b == a)) [
  | inl here ↦ rw here (sym (ap f ((==_iff b a).0 here) ∙ free))
  | inr there ↦ rw there refl
]

pub gates-set_gate : {T : Type 0} (a : ℕ) (g : Gate) (w : World T) → (set_gate a g w).gates a ≡ g
unfolding set_gate
gates-set_gate a g w = rw ((==_iff a a).1 refl) refl

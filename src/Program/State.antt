-- ===== src/Program/State.antt =====
-- What starting and ending the program acts on: mutexes, threads, the handles of pcap. A thread is the
-- variable of its `pthread_t`, which is 0 when there is none. No thread is cancelled while it holds a
-- mutex.
use addressroutinggateway.Prelude.{Bool, true, false}

pub data Lock : Type 0 where
  nat_table_lock networks_lock ip_lock cancel_lock : Lock

pub data LockState : Type 0 where
  unset free held destroyed : LockState

-- `pcap_t *`: NULL, an open handle, or a pointer to one that has been closed.
pub data Handle : Type 0 where
  no_handle opened closed : Handle

-- What C, POSIX or pcap leave undefined: a use of a mutex that has not been initialised or has been
-- destroyed, the destruction of a held one, `pthread_cancel` without a thread, `pcap_close` twice, and
-- what `read_config` and `get_hopper_conf` may do: to follow NULL, or to leave a buffer.
pub data Misuse : Type 0 where
  lock_used lock_destroyed : Lock → Misuse
  no_thread closed_twice null_followed buffer_left : Misuse

-- How a call of another part ends.
pub data Returned : Type 0 where
  succeeds fails : Returned
  undefined_in : Misuse → Returned

-- The static variables.
pub record Process : Type 0 where
  pub locks : Lock → LockState
  pub nat_cleanup_thread : Bool
  pub connect_thread : Bool
  pub int_thread : Bool
  pub ext_thread : Bool
  pub int_pd : Handle
  pub ext_pd : Handle
  pub has_gates : Bool
  pub cancel_sent : Bool
  pub receive_should_run : Bool

-- A call that returns, waits for ever for a mutex that its own thread holds, or does what is undefined;
-- of what the program does after that, nothing is said.
pub data Life (A : Type 0) : Type 0 where
  going : A → Process → Life A
  stuck : Life A
  undefined : Misuse → Life A

abbrev pub Living : Type 0 → Type 0
Living A = Process → Life A

module _ {A B : Type 0} where
  abbrev pub go_on : Life A → (A → Living B) → Life B
  go_on (going a p) f = f a p
  go_on stuck f = stuck
  go_on (undefined m) f = undefined m

  infixl 5 ◌>>=◌ ◌>>◌
  abbrev pub ◌>>=◌ : Living A → (A → Living B) → Living B
  ◌>>=◌ m f p = go_on (m p) f

  abbrev pub ◌>>◌ : Living A → Living B → Living B
  ◌>>◌ m n p = go_on (m p) (λ _. n)

abbrev pub pure : {A : Type 0} → A → Living A
pure a p = going a p

abbrev pub change : (Process → Process) → Living (Unit {0})
change f p = going tt (f p)

abbrev pub misuse : {A : Type 0} → Misuse → Living A
misuse m p = undefined m

abbrev pub set_lock : Lock → LockState → (Lock → LockState) → Lock → LockState
set_lock nat_table_lock s f nat_table_lock = s
set_lock networks_lock s f networks_lock = s
set_lock ip_lock s f ip_lock = s
set_lock cancel_lock s f cancel_lock = s
set_lock l s f m = f m

abbrev pub put_lock : Lock → LockState → Living (Unit {0})
put_lock l s = change (λ p. record p { locks = set_lock l s p.locks })

abbrev pub lock_in : Lock → LockState → Living (Unit {0})
lock_in l free = put_lock l held
lock_in l held = λ p. stuck
lock_in l unset = misuse (lock_used l)
lock_in l destroyed = misuse (lock_used l)

-- `pthread_mutex_lock`
abbrev pub mutex_lock : Lock → Living (Unit {0})
mutex_lock l p = lock_in l (p.locks l) p

abbrev pub unlock_in : Lock → LockState → Living (Unit {0})
unlock_in l held = put_lock l free
unlock_in l free = misuse (lock_used l)
unlock_in l unset = misuse (lock_used l)
unlock_in l destroyed = misuse (lock_used l)

abbrev pub mutex_unlock : Lock → Living (Unit {0})
mutex_unlock l p = unlock_in l (p.locks l) p

abbrev pub destroy_in : Lock → LockState → Living (Unit {0})
destroy_in l free = put_lock l destroyed
destroy_in l held = misuse (lock_destroyed l)
destroy_in l unset = misuse (lock_used l)
destroy_in l destroyed = misuse (lock_used l)

abbrev pub mutex_destroy : Lock → Living (Unit {0})
mutex_destroy l p = destroy_in l (p.locks l) p

-- `pthread_mutex_trylock(...) == EBUSY`
abbrev pub busy_in : Lock → LockState → Living Bool
busy_in l free = do put_lock l held; pure false
busy_in l held = pure true
busy_in l unset = misuse (lock_used l)
busy_in l destroyed = misuse (lock_used l)

abbrev pub mutex_busy : Lock → Living Bool
mutex_busy l p = busy_in l (p.locks l) p

-- `pthread_cancel`
abbrev pub cancel : Bool → Living (Unit {0})
cancel true = pure tt
cancel false = misuse no_thread

-- Before `main`.
abbrev pub at_start : Process
at_start = record {
  locks = λ l. unset;
  nat_cleanup_thread = false;
  connect_thread = false;
  int_thread = false;
  ext_thread = false;
  int_pd = no_handle;
  ext_pd = no_handle;
  has_gates = false;
  cancel_sent = false;
  receive_should_run = false;
}

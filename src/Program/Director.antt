-- ===== src/Program/Director.antt =====
-- director.c: starting and ending.
use addressroutinggateway.Prelude.{Bool, true, false, ℤ, pos, negsuc}
use addressroutinggateway.Settings.{arg_config_bad, arg_internal_error}
use addressroutinggateway.Program.State.{
  cancel_lock, free, Handle, no_handle, opened, closed, closed_twice, Living, ◌>>=◌, ◌>>◌, pure,
  change, misuse, put_lock, mutex_unlock, mutex_destroy, mutex_busy, cancel,
}

unfoldable pub init_director_locks : Living (Unit {0})
init_director_locks = put_lock cancel_lock free

-- Which of the calls of pcap on a device succeed: `pcap_create`, `pcap_activate`, `pcap_compile`
-- and `pcap_setfilter`.
pub record Driver : Type 0 where
  pub creates : Bool
  pub activates : Bool
  pub compiles : Bool
  pub sets_filter : Bool

-- The result, and the pointer that is left in `*pd`.
abbrev pub with_filter : Bool → ℤ × Handle
with_filter true = (pos 0, opened)
with_filter false = (arg_config_bad, closed)

abbrev pub with_program : Bool → Bool → ℤ × Handle
with_program true sets = with_filter sets
with_program false sets = (arg_internal_error, closed)

abbrev pub with_device : Bool → Bool → Bool → ℤ × Handle
with_device true compiles sets = with_program compiles sets
with_device false compiles sets = (arg_config_bad, opened)

abbrev pub with_handle : Bool → Bool → Bool → Bool → ℤ × Handle
with_handle true activates compiles sets = with_device activates compiles sets
with_handle false activates compiles sets = (arg_config_bad, no_handle)

unfoldable pub init_pcap_driver : Driver → ℤ × Handle
init_pcap_driver d = with_handle d.creates d.activates d.compiles d.sets_filter

abbrev pub start_threads : ℤ → Living ℤ
start_threads (negsuc k) = pure (negsuc k)
start_threads (pos k) = do
  change (λ p. record p { receive_should_run = true; int_thread = true; ext_thread = true })
  pure (pos 0)

abbrev pub open_external : Driver → ℤ → Living ℤ
open_external ext (negsuc k) = pure (negsuc k)
open_external ext (pos k) = do
  let (ret, pd) = init_pcap_driver ext
  change (λ p. record p { ext_pd = pd })
  start_threads ret

unfoldable pub init_director : Driver → Driver → Living ℤ
unfolding init_pcap_driver
init_director int ext = do
  let (ret, pd) = init_pcap_driver int
  change (λ p. record p { int_pd = pd })
  open_external ext ret

-- Each thread is waited for, if there is one, and has ended then.
unfoldable pub join_director : Living (Unit {0})
join_director = change (λ p. record p { ext_thread = false; int_thread = false })

-- `if(pd != NULL) pcap_close(pd)`
abbrev pub close_handle : Handle → Living (Unit {0})
close_handle no_handle = pure tt
close_handle opened = pure tt
close_handle closed = misuse closed_twice

abbrev pub close_int : Living (Unit {0})
close_int = do (λ p. close_handle p.int_pd p); change (λ p. record p { int_pd = no_handle })

abbrev pub close_ext : Living (Unit {0})
close_ext = do (λ p. close_handle p.ext_pd p); change (λ p. record p { ext_pd = no_handle })

-- `if(!cancelSent)`
abbrev pub end_director : Bool → Living (Unit {0})
end_director true = pure tt
end_director false = do
  change (λ p. record p { cancel_sent = true })
  (λ p. cancel p.int_thread p)
  (λ p. cancel p.ext_thread p)
  change (λ p. record p { receive_should_run = false })
  join_director
  close_int
  close_ext
  mutex_unlock cancel_lock
  mutex_destroy cancel_lock

abbrev pub unless_busy : Bool → Living (Unit {0})
unless_busy true = pure tt
unless_busy false = λ p. end_director p.cancel_sent p

unfoldable pub uninit_director : Living (Unit {0})
unfolding join_director
uninit_director = do busy ← mutex_busy cancel_lock; unless_busy busy

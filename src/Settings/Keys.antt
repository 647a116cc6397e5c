-- ===== src/Settings/Keys.antt =====
-- settings.c: `read_public_key` and `read_private_key`.
pub mod Generated
use addressroutinggateway.Prelude.{
  ℕ, ◌+◌, ◌-◌, ◌/◌, List, [], ◌∷◌, ◌++◌, Option, none, some, Bool, true, false, ◌⊎◌, inl, inr, ℤ,
  pos, negsuc, ◌-ℤ◌, is_zero, take, if◌then◌else◌,
}
use addressroutinggateway.Prelude.Text.{codes}
use addressroutinggateway.Memory.{Bytes}
use addressroutinggateway.Memory.Strings.{strncpy, string_at}
use addressroutinggateway.Settings.{arg_config_bad, max_name_size}
use addressroutinggateway.World.{Gate}
use addressroutinggateway.Settings.Lines.{
  NextLine, line_read, end_of_file, before_buffer, out_of_fuel, get_next_line,
}
use addressroutinggateway.Settings.Config.{Reading, got, failed, ◌>>=◌, max_conf_line, conf_line}

-- PolarSSL's files of numbers: the n-th number that `mpi_read_file` takes off the file, with what is
-- left, or its error; the place of the highest bit; the test of a key. `inet_pton` gives the
-- four bytes of an address, or leaves them.
pub record KeyLibrary : Type 0 where
  pub mpi_read_file : List ℕ → ℤ ⊎ (ℕ × List ℕ)
  pub mpi_msb : ℕ → ℕ
  pub rsa_check_privkey : List ℕ → ℤ
  pub inet_pton : List ℕ → Option (List ℕ)

-- `snprintf(path, sizeof(path), "%s/%s.pub", dir, name)` and the like: what fits into the buffer.
unfoldable pub key_path : List ℕ → List ℕ → List ℕ → List ℕ
key_path dir name suffix = take (max_conf_line - 1) (dir ++ (b'/' ∷ (name ++ suffix)))

abbrev pub or_kept : Option (List ℕ) → List ℕ → List ℕ
or_kept none old = old
or_kept (some new) old = new

module _ (lib : KeyLibrary) where
  -- The numbers E and N, in the structure as far as they have been read.
  abbrev pub public_e : Gate → ℤ ⊎ (ℕ × List ℕ) → ℤ × Gate
  public_e gate (inl err) = (negsuc 0, gate)
  public_e gate (inr (e, s)) = (
    pos 0,
    record gate { rsa = record gate.rsa { e = e; len = (lib.mpi_msb gate.rsa.n + 7) / 8 } },
  )

  abbrev pub public_n : Gate → ℤ ⊎ (ℕ × List ℕ) → ℤ × Gate
  public_n gate (inl err) = (negsuc 0, gate)
  public_n gate (inr (n, s)) =
      public_e (record gate { rsa = record gate.rsa { n = n } }) (lib.mpi_read_file s)

  abbrev pub public_mask : Gate → NextLine → Reading (ℤ × Gate)
  public_mask gate (line_read mask s) = got (
      public_n (record gate { mask = or_kept (lib.inet_pton mask) gate.mask })
        (lib.mpi_read_file s))
  public_mask gate end_of_file = got (arg_config_bad, gate)
  public_mask gate before_buffer = Reading.stray_access
  public_mask gate out_of_fuel = Reading.unfinished

  abbrev pub public_ip : Gate → NextLine → Reading (ℤ × Gate)
  public_ip gate (line_read ip s) =
      public_mask (record gate { base_ip = or_kept (lib.inet_pton ip) gate.base_ip })
        (get_next_line max_conf_line s)
  public_ip gate end_of_file = got (arg_config_bad, gate)
  public_ip gate before_buffer = Reading.stray_access
  public_ip gate out_of_fuel = Reading.unfinished

  abbrev pub read_public_from : Gate → ℕ ⊎ List ℕ → Reading (ℤ × Gate)
  read_public_from gate (inl errno) = got (pos 0 -ℤ pos errno, gate)
  read_public_from gate (inr s) = public_ip gate (get_next_line max_conf_line s)

  -- 0 or the error, and the gate with what has been read of its file.
  unfoldable pub read_public_key : (List ℕ → ℕ ⊎ List ℕ) → List ℕ → Gate → Reading (ℤ × Gate)
  unfolding get_next_line key_path
  read_public_key open_file dir gate =
      read_public_from gate (open_file (key_path dir gate.name (codes ".pub")))

  -- -1 if one of the numbers cannot be read.
  abbrev pub taken : ℤ ⊎ (ℕ × List ℕ) → Reading (ℕ × List ℕ)
  taken (inl err) = failed (negsuc 0)
  taken (inr number) = got number

  unfoldable pub read_number : List ℕ → Reading (ℕ × List ℕ)
  read_number s = taken (lib.mpi_read_file s)

  abbrev pub checked_key : Gate → List ℕ → ℤ → Reading Gate
  checked_key gate (n ∷ e ∷ d ∷ rest) ret =
      if is_zero ret
      then got (record gate { rsa = record gate.rsa { n = n; e = e; d = d } })
      else failed arg_config_bad
  checked_key gate numbers ret = failed arg_config_bad

  -- The numbers N, E, D, P, Q, DP, DQ and QP.
  abbrev pub read_private_from : Gate → ℕ ⊎ List ℕ → Reading Gate
  read_private_from gate (inl errno) = failed (pos 0 -ℤ pos errno)
  read_private_from gate (inr s0) = do
    (n, s1) ← read_number s0
    (e, s2) ← read_number s1
    (d, s3) ← read_number s2
    (p, s4) ← read_number s3
    (q, s5) ← read_number s4
    (dp, s6) ← read_number s5
    (dq, s7) ← read_number s6
    (qp, s8) ← read_number s7
    let numbers = n ∷ e ∷ d ∷ p ∷ q ∷ dp ∷ dq ∷ qp ∷ []
    checked_key gate numbers (lib.rsa_check_privkey numbers)

  unfoldable pub read_private_key : (List ℕ → ℕ ⊎ List ℕ) → List ℕ → Gate → Reading Gate
  unfolding read_number key_path
  read_private_key open_file dir gate =
      read_private_from gate (open_file (key_path dir gate.name (codes ".priv")))

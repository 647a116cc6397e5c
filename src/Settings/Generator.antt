-- ===== src/Settings/Generator.antt =====
-- gen_gate_config.c: the tool that makes the key files of a gate.
use addressroutinggateway.Prelude.{
  ◌-◌, ℕ, List, [], ◌∷◌, ◌++◌, Bool, true, false, ◌⊎◌, inl, inr, ℤ, pos, is_zero, take,
  if◌then◌else◌,
}
use addressroutinggateway.Prelude.Text.{codes}
use addressroutinggateway.Memory.{Bytes}
use addressroutinggateway.Memory.Strings.{strncpy, string_at}
use addressroutinggateway.Settings.{max_name_size}
use addressroutinggateway.Settings.Config.{max_conf_line}

-- PolarSSL: the result of `ctr_drbg_init`, the numbers N, E, D, P, Q, DP, DQ and QP of `rsa_gen_key`
-- or its error, and what `mpi_write_file` writes behind a prefix, or its error. `create` is
-- whether a file can be opened for writing.
pub record Generator : Type 0 where
  pub ctr_drbg_init : ℤ
  pub rsa_gen_key : ℤ ⊎ List ℕ
  pub mpi_write_file : List ℕ → ℕ → ℤ ⊎ List ℕ
  pub create : List ℕ → Bool

-- The files with what stands in them, the latest first, and the exit code.
abbrev pub Written : Type 0
Written = List (List ℕ × List ℕ) × ℤ

abbrev pub public_names : List (List ℕ)
public_names = codes "N = " ∷ codes "E = " ∷ []

abbrev pub private_names : List (List ℕ)
private_names =
    codes "N = "
    ∷ codes "E = "
    ∷ codes "D = "
    ∷ codes "P = "
    ∷ codes "Q = "
    ∷ codes "DP = "
    ∷ codes "DQ = "
    ∷ codes "QP = "
    ∷ []

abbrev pub name_file : List ℕ → List ℕ → List ℕ
name_file name suffix = take (max_conf_line - 1) (name ++ suffix)

module _ (gen : Generator) where
  abbrev pub after_number : ℤ ⊎ List ℕ → List ℕ × ℤ → List ℕ × ℤ
  after_number (inl err) rest = ([], err)
  after_number (inr text) (more, ret) = (text ++ more, ret)

  -- The numbers one after the other, until one fails.
  unfoldable pub write_numbers : List (List ℕ) → List ℕ → List ℕ × ℤ
  write_numbers [] ns = ([], pos 0)
  write_numbers (p ∷ ps) [] = ([], pos 0)
  write_numbers (p ∷ ps) (n ∷ ns) = after_number (gen.mpi_write_file p n) (write_numbers ps ns)

  abbrev pub write_private : List ℕ → List ℕ → List (List ℕ × List ℕ) → Bool → Written
  write_private name key written false = (written, pos 1)
  write_private name key written true =
      let (text, ret) = write_numbers private_names key in
      ((name_file name (codes ".priv"), text) ∷ written, ret)

  abbrev pub after_public : List ℕ → List ℕ → List (List ℕ × List ℕ) → ℤ → Written
  after_public name key written ret =
      if is_zero ret
      then write_private name key written (gen.create (name_file name (codes ".priv")))
      else (written, ret)

  abbrev pub write_public : List ℕ → List ℕ → List ℕ → List ℕ → Bool → Written
  write_public name base_ip mask key false = ([], pos 1)
  write_public name base_ip mask key true =
      let (text, ret) = write_numbers public_names key in
      after_public name key
        ((name_file name (codes ".pub"), base_ip ++ (b'\n' ∷ (mask ++ (b'\n' ∷ text)))) ∷ []) ret

  abbrev pub with_key : List ℕ → List ℕ → List ℕ → ℤ ⊎ List ℕ → Written
  with_key name base_ip mask (inl err) = ([], err)
  with_key name base_ip mask (inr key) =
      write_public name base_ip mask key (gen.create (name_file name (codes ".pub")))

  -- `main`, for a name, an address and a mask; the three arrays hold what stood there. When
  -- `ctr_drbg_init` fails, `rsa_free` is called on a structure that has not been initialised.
  unfoldable pub generate : (List ℕ) → (List ℕ) → (List ℕ) → Bytes → Bytes → Bytes → Written
  unfolding strncpy string_at write_numbers
  generate name_arg ip_arg mask_arg name ip mask =
      if is_zero gen.ctr_drbg_init
      then with_key (string_at max_name_size (strncpy (max_name_size - 1) name_arg name) 0)
          (string_at 20 (strncpy 19 ip_arg ip) 0) (string_at 20 (strncpy 19 mask_arg mask) 0)
          gen.rsa_gen_key
      else ([], gen.ctr_drbg_init)

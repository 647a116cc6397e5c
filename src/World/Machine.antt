-- ===== src/World/Machine.antt =====
-- Code that is not part of the repository: the operating system and PolarSSL. Each is a function of
-- what the program hands it and, where it has state of its own, of the number of the call.
use addressroutinggateway.Prelude.{ℕ, List, Bool, Option}
use addressroutinggateway.Memory.{Bytes}
use addressroutinggateway.Utility.Time.{Timespec}
use addressroutinggateway.World.Gates.{Rsa}

pub record Env : Type 0 where
  -- `clock_gettime(CLOCK_MONOTONIC)`, the n-th reading.
  pub clock : ℕ → Timespec
  -- The n-th read from /dev/urandom, of so many bytes.
  pub urandom : ℕ → ℕ → List ℕ
  -- The n-th `malloc`: NULL, or a block and what stands in it.
  pub malloc : ℕ → Option Bytes
  -- The n-th `sendto` on the raw socket: 0, or the errno.
  pub sendto : ℕ → ℕ
  -- PolarSSL: sha1, sha1_hmac, md_hmac with HASH_ALGO.
  pub sha1 : List ℕ → List ℕ
  pub sha1_hmac : List ℕ → List ℕ → List ℕ
  pub md_hmac : List ℕ → List ℕ → List ℕ
  -- `cipher_update` under a key and an IV, when so many bytes have gone through since the reset.
  pub cipher_update : List ℕ → List ℕ → ℕ → List ℕ → List ℕ
  pub cipher_block_size : ℕ
  -- `rsa_pkcs1_verify`, `_sign`, `_encrypt` with the n-th random draw, and `_decrypt` into a
  -- buffer of so many bytes; `none` is an
  -- error code.
  pub rsa_verify : Rsa → List ℕ → List ℕ → Bool
  pub rsa_sign : Rsa → List ℕ → Option (List ℕ)
  pub rsa_encrypt : ℕ → Rsa → List ℕ → Option (List ℕ)
  pub rsa_decrypt : Rsa → ℕ → List ℕ → Option (List ℕ)
  -- PolarSSL's big numbers: the n bytes of a number, `none` if it needs more; the number of bytes;
  -- the place of the highest bit.
  pub mpi_write_binary : ℕ → ℕ → Option (List ℕ)
  pub mpi_read_binary : List ℕ → Option ℕ
  pub mpi_msb : ℕ → ℕ

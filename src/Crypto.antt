-- ===== src/Crypto.antt =====
-- crypto.c: the one-time passwords. `sha1_hmac` is PolarSSL's, a parameter. The machine is little
-- endian, as the bytes of `count` show.
use addressroutinggateway.Prelude.{
  ℕ, suc, zero, ◌+◌, ◌*◌, ◌/◌, ◌%◌, List, [], ◌∷◌, if◌then◌else◌, ◌==◌, get_or,
}

-- The n low bytes of a number, the lowest first.
unfoldable pub le_bytes : ℕ → ℕ → List ℕ
le_bytes zero v = []
le_bytes (suc n) v = (v % 256) ∷ le_bytes n (v / 256)

-- The truncation of RFC 4226: 31 bits at the offset that the last byte names.
unfoldable pub truncate_hmac : List ℕ → ℕ
truncate_hmac h =
    let offset = get_or h 19 0 % 16 in
    get_or h offset 0 % 128 * 16777216
    + get_or h (offset + 1) 0 * 65536
    + get_or h (offset + 2) 0 * 256
    + get_or h (offset + 3) 0

module _ (sha1_hmac : List ℕ → List ℕ → List ℕ) where
  unfoldable pub hotp : List ℕ → ℕ → ℕ
  unfolding truncate_hmac le_bytes
  hotp key count = truncate_hmac (sha1_hmac key (le_bytes 8 count))

  unfoldable pub totp : List ℕ → ℕ → ℕ → ℕ
  unfolding hotp
  totp key step time = hotp key (time / (if step == 0 then 1 else step))

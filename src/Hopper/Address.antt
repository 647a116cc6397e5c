-- ===== src/Hopper/Address.antt =====
-- hopper.c: the address of a gateway at a time, and the test of an address against it.
use addressroutinggateway.Prelude.{
  ℕ, ◌-◌, ◌%◌, ◌^◌, List, [], ◌∷◌, Bool, true, false, bit_and, bit_or, ℤ, pos, ◌+ℤ◌, to_unsigned,
  of_unsigned, ◌==◌, ◌&&◌,
}
use addressroutinggateway.Utility.Time.{Timespec, time_offset}
use addressroutinggateway.Crypto.{totp, le_bytes}
use addressroutinggateway.World.{
  Gate, Run, pure, ◌>>=◌, ◌>>◌, Env, current_time, read_gate, lock, unlock,
}

-- `memcmp(a, b, sizeof(b)) == 0`
abbrev pub same_bytes : List ℕ → List ℕ → Bool
same_bytes [] [] = true
same_bytes [] (b ∷ bs) = false
same_bytes (a ∷ as') [] = false
same_bytes (a ∷ as') (b ∷ bs) = a == b && same_bytes as' bs

-- `ip |= ~mask & bits`, for each byte.
unfoldable pub or_unmasked : List ℕ → List ℕ → List ℕ → List ℕ
or_unmasked [] ms xs = []
or_unmasked (b ∷ bs) [] xs = b ∷ bs
or_unmasked (b ∷ bs) (m ∷ ms) [] = b ∷ bs
or_unmasked (b ∷ bs) (m ∷ ms) (x ∷ xs) = bit_or b (bit_and (255 - m) x) ∷ or_unmasked bs ms xs

-- `-gate->hopInterval`, an unsigned negation that is passed as an `int`.
unfoldable pub previous_hop : Gate → ℤ
unfolding of_unsigned
previous_hop g = of_unsigned 32 ((2 ^ 32 - g.hop_interval) % 2 ^ 32)

module _ (env : Env) where
  -- The address of the gate when the clock reads `now`. The loop goes from the last byte of the
  -- address to the first; `bits` is little endian, as `uint8_t *bitIndex` reads it.
  unfoldable pub address_at : Gate → ℤ → Timespec → List ℕ
  address_at g correction now =
      let time = to_unsigned 64 (time_offset g.time_base now +ℤ correction) in
      let bits = totp env.sha1_hmac g.hop_key g.hop_interval time in
      or_unmasked g.base_ip g.mask (le_bytes 4 bits)

  module _ {T : Type 0} where
    unfoldable pub generate_ip_corrected : Gate → ℤ → Run T (List ℕ)
    unfolding current_time
    generate_ip_corrected g correction = do
      now ← current_time env
      pure (address_at g correction now)

    -- The second comparison of `is_valid_ip`.
    abbrev pub valid_previous : Gate → List ℕ → Bool → Run T Bool
    valid_previous g ip true = pure true
    valid_previous g ip false = do
      old ← generate_ip_corrected g (previous_hop g)
      pure (same_bytes ip old)

    unfoldable pub is_valid_ip : ℕ → List ℕ → Run T Bool
    unfolding generate_ip_corrected lock unlock
    is_valid_ip a ip = do
      lock a
      g ← read_gate a
      now_ip ← generate_ip_corrected g (pos 0)
      valid ← valid_previous g ip (same_bytes ip now_ip)
      unlock a
      pure valid

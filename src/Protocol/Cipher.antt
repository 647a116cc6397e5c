-- ===== src/Protocol/Cipher.antt =====
-- protocol.c: symmetric encryption in `create_arg_packet` and decryption in `process_arg_packet`,
-- which are one loop over AES-256-CTR.
use addressroutinggateway.Prelude.{
  ℕ, zero, suc, ◌+◌, ◌-◌, ◌%◌, min, List, [], ◌∷◌, bit_xor, ltb, length, if◌then◌else◌,
}
use addressroutinggateway.Memory.{Bytes, slice, write}
use addressroutinggateway.World.{Env}

-- `nounce[i] ^= (seq >> (i * 8)) & 0xFF`: the bytes of the sequence number as they lie in memory.
unfoldable pub xor_front : List ℕ → List ℕ → List ℕ
xor_front [] ss = []
xor_front (n ∷ ns) [] = n ∷ ns
xor_front (n ∷ ns) (s ∷ ss) = bit_xor n s ∷ xor_front ns ss

unfoldable pub make_nounce : List ℕ → Bytes → ℕ → List ℕ
unfolding xor_front slice
make_nounce iv b a = xor_front iv (slice b (a + 4) 4)

module _ (env : Env) (key nounce : List ℕ) where
  -- The loop from index i over len bytes at `from` of src, written at `to` of dst. `total` is the
  -- uint16_t that adds up the lengths. Each round of a block takes one unit of fuel.
  unfoldable pub cipher_loop : ℕ → ℕ → ℕ → Bytes → ℕ → Bytes → ℕ → ℕ → Bytes × ℕ
  cipher_loop zero i len src from dst to total = (dst, total)
  cipher_loop (suc fuel) i len src from dst to total =
      let ilen = min env.cipher_block_size (len - i) in
      let out = env.cipher_update key nounce i (slice src (from + i) ilen) in
      let rest =
        cipher_loop fuel (i + env.cipher_block_size) len src from (write dst (to + i) out) to
          ((total + length out) % 65536) in
      if ltb i len then rest else (dst, total)

  unfoldable pub cipher_bytes : ℕ → Bytes → ℕ → Bytes → ℕ → Bytes × ℕ
  unfolding cipher_loop
  cipher_bytes len src from dst to = cipher_loop len 0 len src from dst to 0

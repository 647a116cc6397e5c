-- ===== src/Protocol/Stream.antt =====
-- protocol.c: the loop over AES-256-CTR enciphers every byte of a message, and twice is nothing.
use addressroutinggateway.Prelude.{
  ℕ, zero, suc, ◌+◌, ◌-◌, ◌%◌, ◌≤◌, ◌<◌, ◌≡◌, refl, ap, ◌∙◌, min, List, [], ◌∷◌, Bool-cases, inl,
  inr, bit_xor, ltb, leb, ◌&&◌, length, get_or, if◌then◌else◌, arith,
}
use addressroutinggateway.Prelude.Xor.{bit_xor-cancel}
use addressroutinggateway.Memory.{
  Bytes, slice, write, length-slice, get_or-slice, write_at, write_below, write_above,
}
use addressroutinggateway.World.{Env}
use addressroutinggateway.Protocol.Cipher.{cipher_loop, cipher_bytes}

-- The bytes combined with a key stream, from its place i on.
abbrev pub xor_stream : (ℕ → ℕ) → ℕ → List ℕ → List ℕ
xor_stream s i [] = []
xor_stream s i (x ∷ xs) = bit_xor x (s i) ∷ xor_stream s (suc i) xs

-- A stream cipher, as CTR mode is: what `cipher_update` gives back depends on the key, the IV and the
-- number of bytes that have gone through. A block has bytes.
pub record IsStreamCipher (env : Env) (stream : List ℕ → List ℕ → ℕ → ℕ) : Type 0 where
  pub some_block : 0 < env.cipher_block_size
  pub updates :
      (key iv : List ℕ) (i : ℕ) (xs : List ℕ)
      → env.cipher_update key iv i xs ≡ xor_stream (stream key iv) i xs

length-xor_stream : (s : ℕ → ℕ) (i : ℕ) (xs : List ℕ) → length (xor_stream s i xs) ≡ length xs
length-xor_stream s i [] = refl
length-xor_stream s i (x ∷ xs) = ap suc (length-xor_stream s (suc i) xs)

get_or-xor_stream :
    (s : ℕ → ℕ) (i : ℕ) (xs : List ℕ) (k : ℕ)
    → k < length xs
    → get_or (xor_stream s i xs) k 0 ≡ bit_xor (get_or xs k 0) (s (i + k))
get_or-xor_stream s i [] k h = absurd (omega arith)
get_or-xor_stream s i (x ∷ xs) zero h = ap (λ (t : ℕ). bit_xor x (s t)) (omega arith)
get_or-xor_stream s i (x ∷ xs) (suc k) h =
    get_or-xor_stream s (suc i) xs k (omega arith)
    ∙ ap (λ (t : ℕ). bit_xor (get_or xs k 0) (s t)) (omega arith)

-- What `cipher_loop` should leave when it goes on from index i.
abbrev pub stream_bytes : (ℕ → ℕ) → ℕ → ℕ → Bytes → ℕ → Bytes → ℕ → Bytes
stream_bytes s i len src from dst to j =
    if leb (to + i) j && ltb j (to + len)
    then bit_xor (src (from + (j - to))) (s (j - to))
    else dst j

module _ (s : ℕ → ℕ) (src : Bytes) (from to : ℕ) where
  abbrev block_out : ℕ → ℕ → List ℕ
  block_out i n = xor_stream s i (slice src (from + i) n)

  length-block_out : (i n : ℕ) → length (block_out i n) ≡ n
  length-block_out i n =
      length-xor_stream s i (slice src (from + i) n) ∙ length-slice src (from + i) n

  -- A byte of the block.
  block_byte :
      (dst : Bytes) (i n k : ℕ)
      → k < n
      → write dst (to + i) (block_out i n) (to + i + k) ≡ bit_xor (src (from + i + k)) (s (i + k))
  block_byte dst i n k h =
      write_at dst (to + i) (block_out i n) k (omega (arith, length-block_out i n))
      ∙ get_or-xor_stream s i (slice src (from + i) n) k
          (omega (arith, length-slice src (from + i) n))
      ∙ ap (λ (t : ℕ). bit_xor t (s (i + k))) (get_or-slice src (from + i) n k h)

  block_at :
      (dst : Bytes) (i n j : ℕ)
      → to + i ≤ j
      → j < to + i + n
      → write dst (to + i) (block_out i n) j ≡ bit_xor (src (from + (j - to))) (s (j - to))
  block_at dst i n j p q =
      ap (write dst (to + i) (block_out i n)) (omega arith)
      ∙ block_byte dst i n (j - (to + i)) (omega arith)
      ∙ ap (λ (t : ℕ). bit_xor (src t) (s (i + (j - (to + i))))) {x = from + i + (j - (to + i))}
          {y = from + (j - to)} (omega arith)
      ∙ ap (λ (t : ℕ). bit_xor (src (from + (j - to))) (s t)) (omega arith)

  -- A block and then the rest is everything.
  stream_step :
      (dst : Bytes) (bs i len j : ℕ)
      → i < len
      → stream_bytes s
          (i + bs)
          len
          src
          from
          (write dst (to + i) (block_out i (min bs (len - i))))
          to
          j
        ≡ stream_bytes s i len src from dst to j
  stream_step dst bs i len j more = ground (
    arith,
    write_below dst (to + i) (block_out i (min bs (len - i))) j,
    write_above dst (to + i) (block_out i (min bs (len - i))) j,
    length-block_out i (min bs (len - i)),
    block_at dst i (min bs (len - i)) j,
  )

module _ (env : Env) (stream : List ℕ → List ℕ → ℕ → ℕ) (c : IsStreamCipher env stream)
    (key iv : List ℕ) where
  -- One unit of fuel for each byte that is left is enough.
  cipher_loop-stream :
      (fuel i len : ℕ) (src : Bytes) (from : ℕ) (dst : Bytes) (to total j : ℕ)
      → len ≤ i + fuel
      → total < 65536
      → ((cipher_loop env key iv fuel i len src from dst to total).0 j
          ≡ stream_bytes (stream key iv) i len src from dst to j)
        × ((cipher_loop env key iv fuel i len src from dst to total).1
            ≡ (total + (len - i)) % 65536)
  unfolding cipher_loop
  cipher_loop-stream zero i len src from dst to total j enough small = (ground arith, omega arith)
  cipher_loop-stream (suc fuel) i len src from dst to total j enough small =
      elim (Bool-cases (ltb i len)) [
        | inr over ↦ rw over (ground arith, ground arith)
        | inl more ↦
            let n = min env.cipher_block_size (len - i) in
            let dst' = write dst (to + i) (block_out (stream key iv) src from to i n) in
            let (bytes, sum) =
              cipher_loop-stream fuel (i + env.cipher_block_size) len src from dst' to
                ((total + n) % 65536) j (omega (arith, c.some_block)) (omega arith) in
            rw
              (
                more,
                c.updates key iv i (slice src (from + i) n),
                length-block_out (stream key iv) src from to i n,
              )
              (
                bytes
                    ∙ stream_step (stream key iv) src from to dst env.cipher_block_size i len j
                        (ground arith),
                sum ∙ ground arith,
              )
      ]

  -- With a stream cipher, whatever its block size, the loop ends with every byte of the message
  -- combined with its byte of the key stream, all other bytes as they were, and the length counted.
  pub cipher_bytes-stream :
      (len : ℕ) (src : Bytes) (from : ℕ) (dst : Bytes) (to j : ℕ)
      → ((cipher_bytes env key iv len src from dst to).0 j
          ≡ stream_bytes (stream key iv) 0 len src from dst to j)
        × ((cipher_bytes env key iv len src from dst to).1 ≡ len % 65536)
  unfolding cipher_bytes
  cipher_bytes-stream len src from dst to j =
      let (bytes, total) =
        cipher_loop-stream len 0 len src from dst to 0 j (omega arith) (omega arith) in
      (bytes, total ∙ ap (λ (t : ℕ). t % 65536) (omega arith))

  -- What the sender's loop wrote into the packet, from place u on, the receiver's loop with the same
  -- key and IV turns back into the message.
  pub cipher_bytes-cipher_bytes :
      (len : ℕ) (src dst : Bytes) (u : ℕ) (out : Bytes) (j : ℕ)
      → j < len
      → (cipher_bytes env key iv len (cipher_bytes env key iv len src 0 dst u).0 u out 0).0 j
        ≡ src j
  cipher_bytes-cipher_bytes len src dst u out j inside =
      (cipher_bytes-stream len (cipher_bytes env key iv len src 0 dst u).0 u out 0 j).0
      ∙ ground (
        arith,
        cipher_bytes-stream len src 0 dst u (u + j),
        bit_xor-cancel (src j) (stream key iv j),
      )

-- ===== src/Memory.antt =====
-- A block of memory behind a `uint8_t *`: the byte at each offset. Offsets past the end of an
-- allocation hold whatever the machine has there, so nothing is assumed of them.
-- `u16` and `u32` read a field in network order (`ntohs`, `ntohl`), `put16` and `put32` write one.
pub mod Strings
use addressroutinggateway.Prelude.{
  ap, ℕ, zero, suc, ◌+◌, ◌-◌, ◌*◌, ◌/◌, ◌%◌, ◌≤◌, ◌<◌, ◌≡◌, refl, ◌∙◌, ap, List, [], ◌∷◌,
  if◌then◌else◌, ltb, leb, ◌&&◌, get_or, length, arith,
}

abbrev pub Bytes : Type 0
Bytes = ℕ → ℕ

unfoldable pub u16 : Bytes → ℕ → ℕ
u16 b i = b i * 256 + b (i + 1)

unfoldable pub u32 : Bytes → ℕ → ℕ
u32 b i = b i * 16777216 + b (i + 1) * 65536 + b (i + 2) * 256 + b (i + 3)

-- The n bytes from offset i.
unfoldable pub slice : Bytes → ℕ → ℕ → List ℕ
slice b i zero = []
slice b i (suc n) = b i ∷ slice b (suc i) n

-- `memcpy(b + i, xs, length xs)`
unfoldable pub write : Bytes → ℕ → List ℕ → Bytes
write b i xs j = if leb i j && ltb j (i + length xs) then get_or xs (j - i) 0 else b j

abbrev pub bytes16 : ℕ → List ℕ
bytes16 v = (v / 256 % 256) ∷ (v % 256) ∷ []

abbrev pub bytes32 : ℕ → List ℕ
bytes32 v = (v / 16777216 % 256) ∷ (v / 65536 % 256) ∷ (v / 256 % 256) ∷ (v % 256) ∷ []

unfoldable pub put8 : Bytes → ℕ → ℕ → Bytes
unfolding write
put8 b i v = write b i (v % 256 ∷ [])

unfoldable pub put16 : Bytes → ℕ → ℕ → Bytes
unfolding write
put16 b i v = write b i (bytes16 v)

unfoldable pub put32 : Bytes → ℕ → ℕ → Bytes
unfolding write
put32 b i v = write b i (bytes32 v)

-- The first n bytes of `src` over `dst`.
unfoldable pub copy : ℕ → Bytes → Bytes → Bytes
copy n src dst j = if ltb j n then src j else dst j

pub write_below : (b : Bytes) (i : ℕ) (xs : List ℕ) (j : ℕ) → j < i → write b i xs j ≡ b j
unfolding write
write_below b i xs j h = ground arith

pub write_above :
    (b : Bytes) (i : ℕ) (xs : List ℕ) (j : ℕ) → i + length xs ≤ j → write b i xs j ≡ b j
unfolding write
write_above b i xs j h = ground arith

pub write_at :
    (b : Bytes) (i : ℕ) (xs : List ℕ) (k : ℕ) → k < length xs → write b i xs (i + k) ≡ get_or xs k 0
unfolding write
write_at b i xs k h =
    let e : i + k - i ≡ k = omega arith in ground (arith, ap (λ (t : ℕ). get_or xs t 0) e)

pub length-slice : (b : Bytes) (i n : ℕ) → length (slice b i n) ≡ n
unfolding slice
length-slice b i zero = refl
length-slice b i (suc n) = omega (arith, length-slice b (suc i) n)

pub slice_ext :
    (b c : Bytes) (i n : ℕ) → ((j : ℕ) → i ≤ j → j < i + n → b j ≡ c j) → slice b i n ≡ slice c i n
unfolding slice
slice_ext b c i zero h = refl
slice_ext b c i (suc n) h =
    rw
      (
        h i (omega arith) (omega arith),
        slice_ext b c (suc i) n (λ j p q. h j (omega arith) (omega arith)),
      )
      refl

pub get_or-slice : (b : Bytes) (i n k : ℕ) → k < n → get_or (slice b i n) k 0 ≡ b (i + k)
unfolding slice
get_or-slice b i zero k h = absurd (omega arith)
get_or-slice b i (suc n) zero h = ap b (omega arith)
get_or-slice b i (suc n) (suc k) h = get_or-slice b (suc i) n k (omega arith) ∙ ap b (omega arith)

-- Two lists with the same bytes at each place.
pub list_ext :
    (xs ys : List ℕ)
    → length xs ≡ length ys
    → ((k : ℕ) → k < length xs → get_or xs k 0 ≡ get_or ys k 0)
    → xs ≡ ys
list_ext [] [] e h = refl
list_ext [] (y ∷ ys) e h = absurd (omega arith)
list_ext (x ∷ xs) [] e h = absurd (omega arith)
list_ext (x ∷ xs) (y ∷ ys) e h =
    rw (h 0 (omega arith), list_ext xs ys (omega arith) (λ k p. h (suc k) (omega arith))) refl

-- What was written is read back.
pub slice-write_self : (b : Bytes) (i : ℕ) (xs : List ℕ) → slice (write b i xs) i (length xs) ≡ xs
slice-write_self b i xs = list_ext _ xs (length-slice _ i (length xs)) λ k p.
    let q : k < length xs = omega (arith, length-slice (write b i xs) i (length xs)) in
    get_or-slice (write b i xs) i (length xs) k q ∙ write_at b i xs k q

-- A write elsewhere does not show.
pub slice-write_after :
    (b : Bytes) (i n j : ℕ) (xs : List ℕ) → i + n ≤ j → slice (write b j xs) i n ≡ slice b i n
slice-write_after b i n j xs h =
    slice_ext (write b j xs) b i n (λ k p q. write_below b j xs k (omega arith))

pub slice-write_before :
    (b : Bytes) (i n j : ℕ) (xs : List ℕ)
    → j + length xs ≤ i
    → slice (write b j xs) i n ≡ slice b i n
slice-write_before b i n j xs h =
    slice_ext (write b j xs) b i n (λ k p q. write_above b j xs k (omega arith))

pub slice-copy :
    (m : ℕ) (src dst : Bytes) (i n : ℕ) → i + n ≤ m → slice (copy m src dst) i n ≡ slice src i n
unfolding copy
slice-copy m src dst i n h = slice_ext (copy m src dst) src i n (λ k p q. ground arith)

pub u16-put16 : (b : Bytes) (i v : ℕ) → v < 65536 → u16 (put16 b i v) i ≡ v
unfolding u16 put16
u16-put16 b i v h = ground arith

pub u32-put32 : (b : Bytes) (i v : ℕ) → v < 4294967296 → u32 (put32 b i v) i ≡ v
unfolding u32 put32
u32-put32 b i v h = ground arith

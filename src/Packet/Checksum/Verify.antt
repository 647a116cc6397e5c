-- ===== src/Packet/Checksum/Verify.antt =====
-- packet.c: what `csum_with_psuedo` stores is the Internet checksum: a receiver that sums the
-- segment and the pseudo header again, the check field included, gets all ones.
use addressroutinggateway.Prelude.{
  ◌∙◌, true, ap, ℕ, zero, suc, ◌+◌, ◌-◌, ◌*◌, ◌%◌, ◌^◌, ◌≤◌, ◌<◌, ◌≡◌, arith,
}
use addressroutinggateway.Memory.{u16-put16, Bytes, u16, put16}
use addressroutinggateway.Packet.Checksum.{
  ltb, add_words, add_pseudo, fold_carry, checksum, fill_check, loop_bytes,
}

-- The sum without wrapping.
abbrev word_sum : ℕ → Bytes → ℕ → ℕ
word_sum zero b o = 0
word_sum (suc zero) b o = b o * 256
word_sum (suc (suc n)) b o = u16 b o + word_sum n b (o + 2)

abbrev pseudo_sum : Bytes → ℕ → ℕ → ℕ
pseudo_sum b o len =
    u16 b (o + 14) + u16 b (o + 12) + u16 b (o + 18) + u16 b (o + 16) + b (o + 9) + len

abbrev pub AreBytes : Bytes → Type 0
AreBytes b = (j : ℕ) → b j < 256

add_words-eq-sum :
    (n : ℕ) (b : Bytes) (o sum : ℕ)
    → sum < 2 ^ 32
    → add_words n b o sum ≡ (sum + word_sum n b o) % 2 ^ 32
unfolding add_words
add_words-eq-sum zero b o sum h = omega arith
add_words-eq-sum (suc zero) b o sum h = omega arith
add_words-eq-sum (suc (suc n)) b o sum h =
    omega (arith, add_words-eq-sum n b (o + 2) ((sum + u16 b o) % 2 ^ 32) (omega arith))

u16-lt : (b : Bytes) (i : ℕ) → AreBytes b → u16 b i < 65536
unfolding u16
u16-lt b i h = omega (arith, h i, h (i + 1))

word_sum-le : (n : ℕ) (b : Bytes) (o : ℕ) → AreBytes b → 2 * word_sum n b o ≤ (n + 1) * 65535
word_sum-le zero b o h = omega arith
word_sum-le (suc zero) b o h = omega (arith, h o)
word_sum-le (suc (suc n)) b o h = omega (arith, u16-lt b o h, word_sum-le n b (o + 2) h)

pseudo_sum-le : (b : Bytes) (o len : ℕ) → AreBytes b → pseudo_sum b o len ≤ 262396 + len
pseudo_sum-le b o len h = omega (
  arith,
  u16-lt b (o + 12) h,
  u16-lt b (o + 14) h,
  u16-lt b (o + 16) h,
  u16-lt b (o + 18) h,
  h (o + 9),
)

u16-put16_other : (b : Bytes) (c i v : ℕ) → i + 2 ≤ c → u16 (put16 b c v) i ≡ u16 b i
unfolding u16 put16
u16-put16_other b c i v h = ground arith

-- Two bytes below the summed range do not count.
word_sum-put16_below :
    (n : ℕ) (b : Bytes) (o c v : ℕ) → c + 2 ≤ o → word_sum n (put16 b c v) o ≡ word_sum n b o
unfolding put16 u16
word_sum-put16_below zero b o c v h = omega arith
word_sum-put16_below (suc zero) b o c v h = ground arith
word_sum-put16_below (suc (suc n)) b o c v h =
    ground (arith, word_sum-put16_below n b (o + 2) c v (omega arith))

-- A word within the range counts in place of what stood there.
word_sum-put16 :
    (n : ℕ) (b : Bytes) (o k c v : ℕ)
    → c ≡ o + 2 * k
    → 2 * k + 1 < n
    → v < 65536
    → word_sum n (put16 b c v) o + u16 b c ≡ word_sum n b o + v
word_sum-put16 zero b o k c v e h hv = absurd (omega arith)
word_sum-put16 (suc zero) b o k c v e h hv = absurd (omega arith)
word_sum-put16 (suc (suc n)) b o zero c v e h hv =
    let c0 : c ≡ o = omega arith in
    rw c0 (omega (arith, u16-put16 b o v hv, word_sum-put16_below n b (o + 2) o v (omega arith)))
word_sum-put16 (suc (suc n)) b o (suc k) c v e h hv = omega (
  arith,
  u16-put16_other b c o v (omega arith),
  word_sum-put16 n b (o + 2) k c v (omega arith) (omega arith) hv,
)

pseudo_sum-put16 :
    (b : Bytes) (o c v len : ℕ) → o + 20 ≤ c → pseudo_sum (put16 b c v) o len ≡ pseudo_sum b o len
unfolding put16 u16
pseudo_sum-put16 b o c v len h = ground arith

AreBytes-put16 : (b : Bytes) (c v : ℕ) → AreBytes b → AreBytes (put16 b c v)
unfolding put16
AreBytes-put16 b c v h j = ground (arith, h j)

-- All that is summed, without wrapping.
abbrev full_sum : Bytes → ℕ → ℕ → ℕ → ℕ
full_sum b o t len = word_sum len b t + pseudo_sum b o len

total_sum :
    (b : Bytes) (o t len : ℕ)
    → AreBytes b
    → len ≤ 65535
    → add_pseudo b o len (add_words (loop_bytes len) b t 0) ≡ full_sum b o t len
unfolding add_pseudo loop_bytes
total_sum b o t len h fits =
    let whole : ltb len (2 ^ 31) ≡ true = ground arith in
    rw whole (
      omega (
        arith,
        add_words-eq-sum len b t 0 (omega arith),
        word_sum-le len b t h,
        pseudo_sum-le b o len h,
      ))

full_sum-lt :
    (b : Bytes) (o t len : ℕ) → AreBytes b → len ≤ 65535 → full_sum b o t len < 2 ^ 32 - 65536
full_sum-lt b o t len h fits = omega (arith, word_sum-le len b t h, pseudo_sum-le b o len h)

checksum-eq-fold :
    (b : Bytes) (o t len : ℕ)
    → AreBytes b
    → len ≤ 65535
    → checksum b o t len ≡ fold_carry (fold_carry (full_sum b o t len))
unfolding checksum
checksum-eq-fold b o t len h fits =
    ap (λ (s : ℕ). fold_carry (fold_carry s)) (total_sum b o t len h fits)

fold_complement :
    (s : ℕ)
    → s < 2 ^ 32 - 65536
    → fold_carry (fold_carry (s + (65535 - fold_carry (fold_carry s) % 65536))) ≡ 65535
unfolding fold_carry
fold_complement s h = omega arith

-- Storing x in a check field that was clear adds x to the sum.
full_sum-store :
    (b : Bytes) (o t k c len x : ℕ)
    → o + 20 ≤ c
    → c ≡ t + 2 * k
    → 2 * k + 1 < len
    → x < 65536
    → u16 b c ≡ 0
    → full_sum (put16 b c x) o t len ≡ full_sum b o t len + x
full_sum-store b o t k c len x above e inside hx clear =
    omega (arith, word_sum-put16 len b t k c x e inside hx, pseudo_sum-put16 b o c x len above)

store_complement :
    (b : Bytes) (o t k c len : ℕ)
    → AreBytes b
    → o + 20 ≤ c
    → c ≡ t + 2 * k
    → 2 * k + 1 < len
    → len ≤ 65535
    → u16 b c ≡ 0
    → checksum (put16 b c (65535 - checksum b o t len % 65536)) o t len ≡ 65535
store_complement b o t k c len h above e inside fits clear =
    let x : ℕ = 65535 - checksum b o t len % 65536 in
    checksum-eq-fold (put16 b c x) o t len (AreBytes-put16 b c x h) fits
    ∙ ap (λ (s : ℕ). fold_carry (fold_carry s))
        (full_sum-store b o t k c len x above e inside (omega arith) clear)
    ∙ rw (checksum-eq-fold b o t len h fits)
        (fold_complement (full_sum b o t len) (full_sum-lt b o t len h fits))

-- For a check field c of two bytes within the segment, an even number of bytes from its start t,
-- and behind the IP header at o: the checksum of the filled segment, of at most 65535 bytes, is all
-- ones.
pub checksum-fill_check :
    (b : Bytes) (o t k c len : ℕ)
    → AreBytes b
    → o + 20 ≤ c
    → c ≡ t + 2 * k
    → 2 * k + 1 < len
    → len ≤ 65535
    → checksum (fill_check b o t c len) o t len ≡ 65535
unfolding fill_check
checksum-fill_check b o t k c len h above e inside fits =
    store_complement (put16 b c 0) o t k c len (AreBytes-put16 b c 0 h) above e inside fits
      (u16-put16 b c 0 (omega arith))

-- ===== src/Utility/Mask.antt =====
-- utility.c: `mask_array` and `mask_array_cmp`, over arrays of bytes of one length.
use addressroutinggateway.Prelude.{
  ℕ, ◌≤◌, ◌≡◌, ◌↔◌, refl, List, [], ◌∷◌, bit_and, if◌then◌else◌, ◌==◌, length, arith,
}

-- `*rCast = *oCast & *mCast`, for each byte.
unfoldable pub mask_array : List ℕ → List ℕ → List ℕ
mask_array [] ms = []
mask_array (o ∷ os) [] = []
mask_array (o ∷ os) (m ∷ ms) = bit_and o m ∷ mask_array os ms

-- 0 if the arrays agree under the mask, 1 at the first byte that differs.
unfoldable pub mask_array_cmp : List ℕ → List ℕ → List ℕ → ℕ
mask_array_cmp [] ls rs = 0
mask_array_cmp (m ∷ ms) [] rs = 0
mask_array_cmp (m ∷ ms) (l ∷ ls) [] = 0
mask_array_cmp (m ∷ ms) (l ∷ ls) (r ∷ rs) =
    if bit_and l m == bit_and r m then mask_array_cmp ms ls rs else 1

pub length-mask_array :
    (os ms : List ℕ) → length os ≡ length ms → length (mask_array os ms) ≡ length ms
unfolding mask_array
length-mask_array [] [] h = refl
length-mask_array [] (m ∷ ms) h = absurd (omega arith)
length-mask_array (o ∷ os) [] h = absurd (omega arith)
length-mask_array (o ∷ os) (m ∷ ms) h = omega (arith, length-mask_array os ms (omega arith))

pub mask_array_cmp-le : (ms ls rs : List ℕ) → mask_array_cmp ms ls rs ≤ 1
unfolding mask_array_cmp
mask_array_cmp-le [] ls rs = omega arith
mask_array_cmp-le (m ∷ ms) [] rs = omega arith
mask_array_cmp-le (m ∷ ms) (l ∷ ls) [] = omega arith
mask_array_cmp-le (m ∷ ms) (l ∷ ls) (r ∷ rs) = ground (arith, mask_array_cmp-le ms ls rs)

-- Arrays of one length compare as 0 exactly if they are equal after masking.
pub mask_array_cmp_iff :
    (ms ls rs : List ℕ)
    → length ls ≡ length ms
    → length rs ≡ length ms
    → (mask_array_cmp ms ls rs ≡ 0) ↔ (mask_array ls ms ≡ mask_array rs ms)
unfolding mask_array_cmp mask_array
mask_array_cmp_iff [] [] [] p q = ((λ h. refl), (λ h. refl))
mask_array_cmp_iff [] [] (r ∷ rs) p q = absurd (omega arith)
mask_array_cmp_iff [] (l ∷ ls) rs p q = absurd (omega arith)
mask_array_cmp_iff (m ∷ ms) [] rs p q = absurd (omega arith)
mask_array_cmp_iff (m ∷ ms) (l ∷ ls) [] p q = absurd (omega arith)
mask_array_cmp_iff (m ∷ ms) (l ∷ ls) (r ∷ rs) p q =
    let ih = mask_array_cmp_iff ms ls rs (omega arith) (omega arith) in
    ((λ h. ground (arith, ih)), (λ h. ground (arith, ih)))

pub mask_array_cmp_refl : (ms ls : List ℕ) → mask_array_cmp ms ls ls ≡ 0
unfolding mask_array_cmp
mask_array_cmp_refl [] ls = refl
mask_array_cmp_refl (m ∷ ms) [] = refl
mask_array_cmp_refl (m ∷ ms) (l ∷ ls) = ground (arith, mask_array_cmp_refl ms ls)

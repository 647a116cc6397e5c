-- ===== src/Utility/Time.antt =====
-- utility.c: the time functions. A `long` of 64 bits is not wrapped; an `int` is.
use mathlib.Core.Path.{refl}
use addressroutinggateway.Prelude.{
  inr, inl, division_laws, Bool-cases, int_laws, ◌≡◌, ℤ, pos, ◌+ℤ◌, ◌-ℤ◌, ltb_ℤ, is_zero, scale,
  quot, rem, if◌then◌else◌,
}

-- `struct timespec`. `time_plus` can leave a negative `tv_nsec`.
pub record Timespec : Type 0 where
  pub tv_sec : ℤ
  pub tv_nsec : ℤ

-- The milliseconds from `begin` to `end`.
unfoldable pub time_offset : Timespec → Timespec → ℤ
time_offset begin end =
    let diff = scale 1000 (end.tv_sec -ℤ begin.tv_sec) in
    if ltb_ℤ begin.tv_nsec end.tv_nsec
    then diff +ℤ quot (end.tv_nsec -ℤ begin.tv_nsec) 1000000
    else diff -ℤ quot (begin.tv_nsec -ℤ end.tv_nsec) 1000000

-- The last test of `time_plus`: one second is carried, and only above a full second.
abbrev pub carry_second : ℤ → ℤ → Timespec
carry_second sec nsec =
    if ltb_ℤ (pos 1000000000) nsec
    then record { tv_sec = sec +ℤ pos 1; tv_nsec = nsec -ℤ pos 1000000000 }
    else record { tv_sec = sec; tv_nsec = nsec }

unfoldable pub time_plus : Timespec → ℤ → Timespec
time_plus ts ms =
    if is_zero ms
    then ts
    else carry_second (ts.tv_sec +ℤ quot ms 1000) (ts.tv_nsec +ℤ scale 1000000 (rem ms 1000))

-- The two branches of `time_offset` agree: both truncate towards zero.
time_offset_parts :
    (a b : Timespec)
    → time_offset a b ≡ scale 1000 (b.tv_sec -ℤ a.tv_sec) +ℤ quot (b.tv_nsec -ℤ a.tv_nsec) 1000000
unfolding time_offset
time_offset_parts a b = elim (Bool-cases (ltb_ℤ a.tv_nsec b.tv_nsec)) [
  | inl later ↦ rw later refl
  | inr earlier ↦ rw earlier (omega (int_laws, division_laws))
]

-- The offset from one time to another is the negative of the offset back.
pub time_offset-swap : (a b : Timespec) → time_offset a b ≡ pos 0 -ℤ time_offset b a
time_offset-swap a b =
    rw (time_offset_parts a b, time_offset_parts b a) (omega (int_laws, division_laws))

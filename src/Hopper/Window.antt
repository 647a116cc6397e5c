-- ===== src/Hopper/Window.antt =====
-- hopper.c: `is_valid_ip` accepts the current address of a gateway and the one of the hop before.
use addressroutinggateway.Prelude.{
  sym, ◌∙◌, Bool-cases, if◌then◌else◌, ◌==◌, ◌+ℤ◌, to_unsigned, ℕ, suc, ◌+◌, ◌-◌, ◌*◌, ◌/◌, ◌^◌,
  ◌≤◌, ◌<◌, ◌≡◌, refl, ap, List, [], ◌∷◌, Bool, true, false, ℤ, pos, ◌||◌, ◌⊎◌, inl, inr, arith,
}
use native.Mathlib.Nat.{le_trans, div-mul-le_self, le-div_iff_mul-le, add-div_right}
use addressroutinggateway.Crypto.{le_bytes, hotp, totp}
use addressroutinggateway.Utility.Time.{Timespec, time_offset}
use addressroutinggateway.World.{relock, Gate, World, Env, done}
use addressroutinggateway.Hopper.Address.{
  or_unmasked, same_bytes, address_at, is_valid_ip, previous_hop,
}

div_mono : (a b h : ℕ) → 0 < h → a ≤ b → a / h ≤ b / h
div_mono a b h pos_h le =
    (le-div_iff_mul-le {k = h} {x = a / h} {y = b} pos_h).1 (le_trans (div-mul-le_self a h) le)

-- A time at most one step before another is in the same step or in the one before.
step_before : (s r h : ℕ) → 0 < h → s ≤ r → r ≤ s + h → (s / h ≡ r / h) ⊎ (s / h + 1 ≡ r / h)
step_before s r h pos_h le near =
    omega (
      arith,
      div_mono s r h pos_h le,
      div_mono r (s + h) h pos_h near,
      add-div_right s {k = h} pos_h,
    )

-- In the second case of `window`, the later of the two times is a whole step in.
one_step_in : (s r1 r2 h : ℕ) → 0 < h → r1 ≤ r2 → s / h + 1 ≡ r1 / h → h ≤ r2
one_step_in s r1 r2 h pos_h le next =
    let once : 1 * h ≤ r1 = (le-div_iff_mul-le {k = h} {x = 1} {y = r1} pos_h).0 (omega arith) in
    omega arith

step_back :
    (s r1 r2 h : ℕ) → 0 < h → r1 ≤ r2 → r2 ≤ s + h → s / h + 1 ≡ r1 / h → s / h ≡ (r2 - h) / h
step_back s r1 r2 h pos_h le near next =
    let reached = one_step_in s r1 r2 h pos_h le next in
    let back : r2 - h + h ≡ r2 = omega arith in
    omega (
      arith,
      div_mono r1 r2 h pos_h le,
      div_mono r2 (s + h) h pos_h near,
      add-div_right s {k = h} pos_h,
      add-div_right (r2 - h) {k = h} pos_h,
      ap (λ (t : ℕ). t / h) back,
    )

-- The two tests of `is_valid_ip`, at a later time for the second: one of them meets the step of s.
window :
    (s r1 r2 h : ℕ)
    → 0 < h
    → s ≤ r1
    → r1 ≤ r2
    → r2 ≤ s + h
    → (s / h ≡ r1 / h) ⊎ ((h ≤ r2) × (s / h ≡ (r2 - h) / h))
window s r1 r2 h pos_h a b c = elim (step_before s r1 h pos_h a (le_trans b c)) [
  | inl same ↦ inl same
  | inr next ↦ inr (one_step_in s r1 r2 h pos_h b next, step_back s r1 r2 h pos_h b c next)
]

to_unsigned-pos : (n : ℕ) → n < 2 ^ 64 → to_unsigned 64 (pos n) ≡ n
unfolding to_unsigned
to_unsigned-pos n h = omega arith

-- The address of the gate in step k.
unfoldable pub step_address : Env → Gate → ℕ → List ℕ
step_address env g k = or_unmasked g.base_ip g.mask (le_bytes 4 (hotp env.sha1_hmac g.hop_key k))

address_at-step :
    (env : Env) (g : Gate) (correction : ℤ) (now : Timespec) (n : ℕ)
    → time_offset g.time_base now +ℤ correction ≡ pos n
    → n < 2 ^ 64
    → 0 < g.hop_interval
    → address_at env g correction now ≡ step_address env g (n / g.hop_interval)
unfolding address_at step_address totp
address_at-step env g correction now n e fits pos_h =
    let bits : to_unsigned 64 (time_offset g.time_base now +ℤ correction) ≡ n =
      rw e (to_unsigned-pos n fits) in
    let stepped : (g.hop_interval == 0) ≡ false = ground arith in rw (bits, stepped) refl

add_nothing : (n : ℕ) → pos n +ℤ pos 0 ≡ pos n
unfolding ◌+ℤ◌
add_nothing n = ground arith

step_back_time :
    (g : Gate) (r : ℕ)
    → 0 < g.hop_interval
    → g.hop_interval ≤ 2 ^ 31
    → g.hop_interval ≤ r
    → pos r +ℤ previous_hop g ≡ pos (r - g.hop_interval)
unfolding ◌+ℤ◌ previous_hop
step_back_time g r positive small reached = ground arith

pub same_bytes_refl : (xs : List ℕ) → same_bytes xs xs ≡ true
same_bytes_refl [] = refl
same_bytes_refl (x ∷ xs) = ground (arith, same_bytes_refl xs)

first_accepts : (x y : List ℕ) (b : Bool) → x ≡ y → (same_bytes x y || b) ≡ true
first_accepts x y b e = rw (e, same_bytes_refl y) refl

second_accepts : (x y : List ℕ) (b : Bool) → x ≡ y → (b || same_bytes x y) ≡ true
second_accepts x y true e = refl
second_accepts x y false e = rw (e, same_bytes_refl y) refl

module _ {T : Type 0} (env : Env) (a : ℕ) (ip : List ℕ) (w : World T) where
  -- The two addresses that `is_valid_ip` compares with, at two readings of the clock.
  abbrev pub current_address : List ℕ
  current_address = address_at env (w.gates a) (pos 0) (env.clock w.clock_reads)

  abbrev pub previous_address : List ℕ
  previous_address =
      address_at env (w.gates a) (previous_hop (w.gates a)) (env.clock (suc w.clock_reads))

  abbrev pub after_readings : ℕ
  after_readings =
      if same_bytes ip current_address then suc w.clock_reads else suc (suc w.clock_reads)

  -- With the mutex free, `is_valid_ip` returns whether the address is the one of the gateway at the
  -- first reading of the clock or the one of the hop before at the second. The mutex is free again, and
  -- only the count of readings has changed: the second is made if the first does not match.
  pub is_valid_ip_lem :
      w.locked a ≡ false
      → is_valid_ip env a ip w
        ≡ done
            (same_bytes ip current_address || same_bytes ip previous_address)
            (record w { clock_reads = after_readings })
  unfolding is_valid_ip
  is_valid_ip_lem free = elim (Bool-cases (same_bytes ip current_address)) [
    | inl same ↦
        rw (free, same)
          (ap
            (λ (f : ℕ → Bool). done true (record w { clock_reads = suc w.clock_reads; locked = f }))
            (relock a w.locked free))
    | inr other ↦
        rw (free, other)
          (ap
            (λ (f : ℕ → Bool).
              done (same_bytes ip previous_address)
                (record w { clock_reads = suc (suc w.clock_reads); locked = f }))
            (relock a w.locked free))
  ]

  -- The addresses of the steps in which the gate was at the two readings, r1 and r2.
  module _ (r1 r2 : ℕ)
      (first : time_offset (w.gates a).time_base (env.clock w.clock_reads) ≡ pos r1)
      (second : time_offset (w.gates a).time_base (env.clock (suc w.clock_reads)) ≡ pos r2)
      (positive : 0 < (w.gates a).hop_interval) (small : (w.gates a).hop_interval ≤ 2 ^ 31)
      (early : r2 < 2 ^ 63) (ordered : r1 ≤ r2) where
    current_address-step :
        current_address ≡ step_address env (w.gates a) (r1 / (w.gates a).hop_interval)
    current_address-step =
        address_at-step env (w.gates a) (pos 0) (env.clock w.clock_reads) r1
          (rw first (add_nothing r1)) (omega arith) positive

    previous_address-step :
        (w.gates a).hop_interval ≤ r2
        → previous_address
          ≡ step_address env
              (w.gates a)
              ((r2 - (w.gates a).hop_interval) / (w.gates a).hop_interval)
    previous_address-step reached =
        address_at-step env (w.gates a) (previous_hop (w.gates a)) (env.clock (suc w.clock_reads))
          (r2 - (w.gates a).hop_interval)
          (rw second (step_back_time (w.gates a) r2 positive small reached)) (omega arith) positive

    -- An address of the gate's step s / hop_interval is accepted if s is not after the first
    -- reading, and the second reading is at most one hop after s.
    step_address-accepted :
        (s : ℕ)
        → s ≤ r1
        → r2 ≤ s + (w.gates a).hop_interval
        → ip ≡ step_address env (w.gates a) (s / (w.gates a).hop_interval)
        → (same_bytes ip current_address || same_bytes ip previous_address) ≡ true
    step_address-accepted s after near sent =
        elim (window s r1 r2 (w.gates a).hop_interval positive after ordered near) [
          | inl same ↦
              first_accepts ip current_address (same_bytes ip previous_address)
                (sent ∙ ap (step_address env (w.gates a)) same ∙ sym current_address-step)
          | inr (reached, old) ↦
              second_accepts ip previous_address (same_bytes ip current_address)
                (sent ∙ ap (step_address env (w.gates a)) old ∙ sym (previous_address-step reached))
        ]

-- The mutex is free, the interval is not 0 and at most 2 ^ 31 ms, and at the next two readings of the
-- clock r1 and r2 milliseconds have gone since the time base of the gateway, with r1 <= r2 < 2 ^ 63 and
-- at least one interval in r2. Then `is_valid_ip` accepts two addresses and no other: that of the step
-- of r1, and that of the step before the one of r2. Only the count of clock readings changes.
pub is_valid_ip-two_steps :
    {T : Type 0} (env : Env) (a : ℕ) (ip : List ℕ) (w : World T) (r1 r2 : ℕ)
    → w.locked a ≡ false
    → 0 < (w.gates a).hop_interval
    → (w.gates a).hop_interval ≤ 2 ^ 31
    → time_offset (w.gates a).time_base (env.clock w.clock_reads) ≡ pos r1
    → time_offset (w.gates a).time_base (env.clock (suc w.clock_reads)) ≡ pos r2
    → r1 ≤ r2
    → (w.gates a).hop_interval ≤ r2
    → r2 < 2 ^ 63
    → (n : ℕ) × (is_valid_ip env a ip w
        ≡ done
            (same_bytes ip (step_address env (w.gates a) (r1 / (w.gates a).hop_interval))
              || same_bytes ip (step_address env (w.gates a) (r2 / (w.gates a).hop_interval - 1)))
            (record w { clock_reads = n }))
is_valid_ip-two_steps env a ip w r1 r2 free positive small first second ordered reached early =
    let h = (w.gates a).hop_interval in
    let back : r2 - h + h ≡ r2 = omega arith in
    let before : (r2 - h) / h ≡ r2 / h - 1 =
      omega (arith, add-div_right (r2 - h) {k = h} positive, ap (λ (t : ℕ). t / h) back) in
    (
      after_readings env a ip w,
      is_valid_ip_lem env a ip w free
          ∙ rw
              (
                current_address-step env a ip w r1 r2 first second positive small early ordered,
                previous_address-step env a ip w r1 r2 first second positive small early ordered
                    reached,
                before,
              )
              refl,
    )

-- What two parties share of a gate: its own structure, and the one that a peer keeps of it.
pub record SameHops (g h : Gate) : Type 0 where
  pub same_base : g.base_ip ≡ h.base_ip
  pub same_mask : g.mask ≡ h.mask
  pub same_key : g.hop_key ≡ h.hop_key
  pub same_interval : g.hop_interval ≡ h.hop_interval

step_address-SameHops :
    (env : Env) (g h : Gate) (k : ℕ) → SameHops g h → step_address env g k ≡ step_address env h k
unfolding step_address
step_address-SameHops env g h k same = rw (same.same_base, same.same_mask, same.same_key)

sender_step :
    (env : Env) (sender g : Gate) (sent_at : Timespec) (s : ℕ)
    → SameHops sender g
    → 0 < g.hop_interval
    → time_offset sender.time_base sent_at ≡ pos s
    → s < 2 ^ 64
    → address_at env sender (pos 0) sent_at ≡ step_address env g (s / g.hop_interval)
sender_step env sender g sent_at s same positive sent fits =
    address_at-step env sender (pos 0) sent_at s (rw sent (add_nothing s)) fits
      (rw same.same_interval positive)
    ∙ rw (step_address-SameHops env sender g (s / sender.hop_interval) same, same.same_interval)
        refl

-- A gateway and a peer share the hop key, the interval, which is not 0 and at most 2 ^ 31 ms, and the
-- network, each with a time base of its own. The address that the gateway has s milliseconds after its
-- base is accepted by the peer if, by the peer's time base, r1 and r2 milliseconds have gone at its next
-- two readings of the clock, with s <= r1 <= r2, r2 at most one interval after s, and r2 < 2 ^ 63. The
-- mutex must be free, and is free afterwards; only the count of clock readings changes.
pub is_valid_ip-one_hop :
    {T : Type 0} (env : Env) (a : ℕ) (w : World T) (sender : Gate) (sent_at : Timespec)
    (s r1 r2 : ℕ)
    → w.locked a ≡ false
    → SameHops sender (w.gates a)
    → 0 < (w.gates a).hop_interval
    → (w.gates a).hop_interval ≤ 2 ^ 31
    → time_offset sender.time_base sent_at ≡ pos s
    → time_offset (w.gates a).time_base (env.clock w.clock_reads) ≡ pos r1
    → time_offset (w.gates a).time_base (env.clock (suc w.clock_reads)) ≡ pos r2
    → s ≤ r1
    → r1 ≤ r2
    → r2 ≤ s + (w.gates a).hop_interval
    → r2 < 2 ^ 63
    → is_valid_ip env a (address_at env sender (pos 0) sent_at) w
      ≡ done true (record w {
        clock_reads = after_readings env a (address_at env sender (pos 0) sent_at) w;
      })
is_valid_ip-one_hop env a w sender sent_at s r1 r2 free same positive small sent first second after
      ordered near early =
    is_valid_ip_lem env a (address_at env sender (pos 0) sent_at) w free
    ∙ ap
        (λ (b : Bool). done b (record w {
          clock_reads = after_readings env a (address_at env sender (pos 0) sent_at) w;
        }))
        (step_address-accepted env a _ w r1 r2 first second positive small early ordered s after
          near (sender_step env sender (w.gates a) sent_at s same positive sent (omega arith)))

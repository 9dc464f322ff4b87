-- ===== src/Target/Share.antt =====
-- `share_target_from_difficulty` of src/cpu_engine.rs: the long division of 0xff…ff by the
-- difficulty, one byte a round.
use Prim.Native.Nat.{bit_or}
use native.Mathlib.Nat.{
  pow-suc, one-le-pow, div-add-mod, mod-lt, div-lt_iff_lt-mul, div-eq_of_lt-le,
}
use aria_t.Base.{ℕ, zero, suc, ◌+◌, ◌-◌, ◌*◌, ◌/◌, ◌%◌, ◌^◌, ◌≤◌, ◌<◌, max, ◌≡◌, refl, ap, sym}
use aria_t.Base.{List, [], ◌∷◌, arith, length}
use aria_t.Base.Bits.{bit_or-256}
use aria_t.Base.Words.{u8, u128, be_value, IsBytes}

-- The rounds left, the divisor and the remainder; the slots that are still to be filled.
pub share_slots : ℕ → ℕ → ℕ → List ℕ
share_slots zero d rem = []
share_slots (suc n) d rem =
    let rem' = bit_or (u128 (rem * 2 ^ 8)) 0xff in u8 (rem' / d) ∷ share_slots n d (rem' % d)

pub share_target_from_difficulty : ℕ → List ℕ
share_target_from_difficulty difficulty = share_slots 32 (max difficulty 1) 0

-- The remainder that the rounds leave behind.
share_rem : ℕ → ℕ → ℕ → ℕ
share_rem zero d rem = rem
share_rem (suc n) d rem = share_rem n d ((rem * 256 + 255) % d)

-- With a difficulty of 64 bits neither the shift nor the cast loses anything.
next_rem : (d rem : ℕ) → rem < d → d < 2 ^ 64 → bit_or (u128 (rem * 2 ^ 8)) 0xff ≡ rem * 256 + 255
next_rem d rem h fits =
    let e : u128 (rem * 2 ^ 8) ≡ rem * 256 = omega arith in rw e (bit_or-256 rem 255 (omega arith))

quotient_byte : (d rem : ℕ) → rem < d → (rem * 256 + 255) / d < 256
quotient_byte d rem h = (div-lt_iff_lt-mul (omega arith)).1 (omega arith)

length-share_slots : (n d rem : ℕ) → length (share_slots n d rem) ≡ n
unfolding share_slots
length-share_slots zero d rem = refl
length-share_slots (suc n) d rem = ap suc (length-share_slots n d _)

-- One digit in base 256 in front of a division that `p = 256 ^ n` scales.
prepend_digit :
    (q r d rem p v fin : ℕ)
    → d * q + r ≡ rem * 256 + 255
    → v * d + fin ≡ r * p + (p - 1)
    → 1 ≤ p
    → (q * p + v) * d + fin ≡ rem * (p * 256) + (p * 256 - 1)
prepend_digit q r d rem p v fin e f h = omega (arith, ap (λ (t : ℕ). t * p) e)

IsQuotient : ℕ → ℕ → ℕ → Type 0
IsQuotient n d rem =
    (be_value (share_slots n d rem) * d + share_rem n d rem ≡ rem * 256 ^ n + (256 ^ n - 1))
    × (share_rem n d rem < d)
    × IsBytes (share_slots n d rem)

share_slots-IsQuotient : (n d rem : ℕ) → rem < d → d < 2 ^ 64 → IsQuotient n d rem
unfolding IsQuotient share_slots share_rem
share_slots-IsQuotient zero d rem h fits = (omega arith, h, tt)
share_slots-IsQuotient (suc n) d rem h fits =
    let q = (rem * 256 + 255) / d in
    let r = (rem * 256 + 255) % d in
    let q_lt : q < 256 = quotient_byte d rem h in
    let q_id : u8 q ≡ q = omega arith in
    let ih = share_slots-IsQuotient n d r (mod-lt _ (omega arith)) fits in
    rw (next_rem d rem h fits, length-share_slots n d r, q_id, pow-suc 256 n)
      (
        prepend_digit q r d rem (256 ^ n) (be_value (share_slots n d r)) (share_rem n d r)
            (div-add-mod _ _) ih.0 (one-le-pow n 256 (omega arith)),
        ih.1,
        (q_lt, ih.2),
      )

share_slots_value : (d : ℕ) → 0 < d → d < 2 ^ 64 → be_value (share_slots 32 d 0) ≡ (2 ^ 256 - 1) / d
unfolding IsQuotient
share_slots_value d h fits =
    let v = share_slots-IsQuotient 32 d 0 h fits in
    sym (div-eq_of_lt-le d (omega (arith, v.0, v.1)) (omega (arith, v.0, v.1)))

-- For every difficulty of 64 bits the share target is 32 bytes whose big-endian value is the
-- quotient of 2^256 - 1 by the difficulty, a difficulty of 0 counting as 1.
pub share_target_value :
    (difficulty : ℕ)
    → difficulty < 2 ^ 64
    → (be_value (share_target_from_difficulty difficulty) ≡ (2 ^ 256 - 1) / max difficulty 1)
      × (length (share_target_from_difficulty difficulty) ≡ 32)
      × IsBytes (share_target_from_difficulty difficulty)
unfolding share_target_from_difficulty IsQuotient
share_target_value difficulty h =
    let d = max difficulty 1 in
    (
      share_slots_value d (omega arith) (omega arith),
      length-share_slots 32 d 0,
      (share_slots-IsQuotient 32 d 0 (omega arith) (omega arith)).2,
    )

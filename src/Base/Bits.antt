-- ===== src/Base/Bits.antt =====
-- The bit operations as arithmetic: the native ones by their lowest digit, `|` of disjoint
-- fields as a sum, `&` with a mask of ones as a remainder, and `^` as an abelian group.
use Prim.Native.Nat.{ℕ, zero, suc, ◌+◌, ◌-◌, ◌*◌, ◌/◌, ◌%◌, ◌^◌, ◌≤◌, ◌<◌, min, max}
use Prim.Native.Nat.{digits, bitwise, differ}
use Prim.Native.Nat.{bit_and, bit_or, bit_xor, bit_or-bitwise, bit_and-bitwise, bit_xor-bitwise}
use mathlib.Core.Path.{◌≡◌, refl, ap}
use native.Mathlib.Nat.{pow-suc, one-le-pow}
use native.Mathlib.Omega.{arith}

module _ (z : ℕ → ℕ) (f : ℕ → ℕ → ℕ) where
  -- Fuel beyond the number itself changes nothing.
  digits_mono :
      (x y less more : ℕ) → x ≤ less → less ≤ more → digits z f more x y ≡ digits z f less x y
  digits_mono zero y zero zero enough grows = refl
  digits_mono zero y zero (suc more) enough grows = refl
  digits_mono zero y (suc less) zero enough grows = absurd (omega arith)
  digits_mono zero y (suc less) (suc more) enough grows = refl
  digits_mono (suc x) y zero more enough grows = absurd (omega arith)
  digits_mono (suc x) y (suc less) zero enough grows = absurd (omega arith)
  digits_mono (suc x) y (suc less) (suc more) enough grows =
      let halved = digits_mono (suc x / 2) (y / 2) less more (omega arith) (omega arith) in
      omega (arith, halved)

  -- One binary digit of a non-zero left operand.
  bitwise_digit :
      (a b : ℕ)
      → bitwise z f (suc a) b ≡ bitwise z f (suc a / 2) (b / 2) * 2 + f (suc a % 2) (b % 2)
  bitwise_digit a b =
      omega (arith, digits_mono (suc a / 2) (b / 2) (suc a / 2) a (omega arith) (omega arith))

pub bit_or_digit : (a b : ℕ) → bit_or a b ≡ bit_or (a / 2) (b / 2) * 2 + max (a % 2) (b % 2)
bit_or_digit zero b = simp bit_or-bitwise (omega arith)
bit_or_digit (suc a) b = simp bit_or-bitwise (bitwise_digit (λ y. y) max a b)

pub bit_and_digit : (a b : ℕ) → bit_and a b ≡ bit_and (a / 2) (b / 2) * 2 + min (a % 2) (b % 2)
bit_and_digit zero b = simp bit_and-bitwise (omega arith)
bit_and_digit (suc a) b = simp bit_and-bitwise (bitwise_digit (λ y. 0) min a b)

pub bit_xor_digit : (a b : ℕ) → bit_xor a b ≡ bit_xor (a / 2) (b / 2) * 2 + differ (a % 2) (b % 2)
bit_xor_digit zero b = simp bit_xor-bitwise (omega arith)
bit_xor_digit (suc a) b = simp bit_xor-bitwise (bitwise_digit (λ y. y) differ a b)

-- By halving, with a bound on the number.
or_nothing : (x bound : ℕ) → x ≤ bound → bit_or x 0 ≡ x
or_nothing zero bound h = refl
or_nothing (suc x) zero h = absurd (omega arith)
or_nothing (suc x) (suc bound) h =
    let half = or_nothing (suc x / 2) bound (omega arith) in
    omega (half, bit_or_digit (suc x) 0, arith)

and_nothing : (x bound : ℕ) → x ≤ bound → bit_and x 0 ≡ 0
and_nothing zero bound h = refl
and_nothing (suc x) zero h = absurd (omega arith)
and_nothing (suc x) (suc bound) h =
    let half = and_nothing (suc x / 2) bound (omega arith) in
    omega (half, bit_and_digit (suc x) 0, arith)

pub bit_or-zero : (a : ℕ) → bit_or a 0 ≡ a
bit_or-zero a = or_nothing a a (omega arith)

double-shift : (q k : ℕ) → q * 2 ^ suc k ≡ 2 * (q * 2 ^ k)
double-shift q k = omega (arith, ap (λ (t : ℕ). q * t) (pow-suc 2 k))

-- `(q << k) | r` is a sum when `r` has at most `k` digits.
pub bit_or-shift : (k q r : ℕ) → r < 2 ^ k → bit_or (q * 2 ^ k) r ≡ q * 2 ^ k + r
bit_or-shift zero q r h = ground (arith, bit_or-zero q)
bit_or-shift (suc k) q r h = ground (
  arith,
  bit_or_digit (q * 2 ^ suc k) r,
  double-shift q k,
  bit_or-shift k q (r / 2) (omega (arith, pow-suc 2 k)),
)

bit_and-ones : (k q r : ℕ) → r < 2 ^ k → bit_and (q * 2 ^ k + r) (2 ^ k - 1) ≡ r
bit_and-ones zero q r h = omega (arith, and_nothing (q * 2 ^ 0 + r) (q * 2 ^ 0 + r) (omega arith))
bit_and-ones (suc k) q r h = ground (
  arith,
  bit_and_digit (q * 2 ^ suc k + r) (2 ^ suc k - 1),
  double-shift q k,
  pow-suc 2 k,
  one-le-pow k 2,
  bit_and-ones k q (r / 2) (omega (arith, pow-suc 2 k)),
)

-- `a & (2^k - 1)` keeps the lowest `k` digits.
pub bit_and-mask : (k a : ℕ) → bit_and a (2 ^ k - 1) ≡ a % 2 ^ k
bit_and-mask k a = ground (arith, one-le-pow k 2, bit_and-ones k (a / 2 ^ k) (a % 2 ^ k))

pub bit_and-255 : (a : ℕ) → bit_and a 255 ≡ a % 256
bit_and-255 a = bit_and-mask 8 a

pub bit_or-256 : (q r : ℕ) → r < 256 → bit_or (q * 256) r ≡ q * 256 + r
bit_or-256 q r h = bit_or-shift 8 q r h

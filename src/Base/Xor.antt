-- ===== src/Base/Xor.antt =====
-- Exclusive or is commutative and associative.
use Prim.Native.Nat.{ℕ, zero, suc, ◌+◌, ◌*◌, ◌/◌, ◌%◌, ◌≤◌, ◌<◌, bit_xor, differ}
use mathlib.Core.Path.{◌≡◌, refl}
use native.Mathlib.Omega.{arith}
use aria_t.Base.Bits.{bit_xor_digit}

differ_comm : (x y : ℕ) → differ x y ≡ differ y x
differ_comm zero zero = refl
differ_comm zero (suc y) = refl
differ_comm (suc x) zero = refl
differ_comm (suc x) (suc y) = differ_comm x y

differ-digit : (x y : ℕ) → x < 2 → y < 2 → differ x y < 2
differ-digit zero y h k = k
differ-digit (suc zero) zero h k = h
differ-digit (suc zero) (suc zero) h k = omega arith
differ-digit (suc zero) (suc (suc y)) h k = absurd (omega arith)
differ-digit (suc (suc x)) y h k = absurd (omega arith)

differ_assoc : (x y z : ℕ) → x < 2 → y < 2 → z < 2 → differ (differ x y) z ≡ differ x (differ y z)
differ_assoc zero y z h k l = refl
differ_assoc (suc zero) zero z h k l = refl
differ_assoc (suc zero) (suc zero) zero h k l = refl
differ_assoc (suc zero) (suc zero) (suc zero) h k l = refl
differ_assoc (suc zero) (suc zero) (suc (suc z)) h k l = absurd (omega arith)
differ_assoc (suc zero) (suc (suc y)) z h k l = absurd (omega arith)
differ_assoc (suc (suc x)) y z h k l = absurd (omega arith)

-- By halving both operands.
comm_upto : (n a b : ℕ) → a ≤ n → b ≤ n → bit_xor a b ≡ bit_xor b a
comm_upto zero zero zero h k = refl
comm_upto zero zero (suc b) h k = absurd (omega arith)
comm_upto zero (suc a) b h k = absurd (omega arith)
comm_upto (suc n) a b h k =
    let half = comm_upto n (a / 2) (b / 2) (omega arith) (omega arith) in
    omega (arith, half, bit_xor_digit a b, bit_xor_digit b a, differ_comm (a % 2) (b % 2))

pub xor_comm : (a b : ℕ) → bit_xor a b ≡ bit_xor b a
xor_comm a b = comm_upto (a + b) a b (omega arith) (omega arith)

assoc_upto :
    (n a b c : ℕ) → a ≤ n → b ≤ n → c ≤ n → bit_xor (bit_xor a b) c ≡ bit_xor a (bit_xor b c)
assoc_upto zero zero zero zero h k l = refl
assoc_upto zero zero zero (suc c) h k l = absurd (omega arith)
assoc_upto zero zero (suc b) c h k l = absurd (omega arith)
assoc_upto zero (suc a) b c h k l = absurd (omega arith)
assoc_upto (suc n) a b c h k l =
    let ab = bit_xor a b in
    let bc = bit_xor b c in
    let dab = differ-digit (a % 2) (b % 2) (omega arith) (omega arith) in
    let dbc = differ-digit (b % 2) (c % 2) (omega arith) (omega arith) in
    let high_ab : ab / 2 ≡ bit_xor (a / 2) (b / 2) = omega (arith, dab, bit_xor_digit a b) in
    let low_ab : ab % 2 ≡ differ (a % 2) (b % 2) = omega (arith, dab, bit_xor_digit a b) in
    let high_bc : bc / 2 ≡ bit_xor (b / 2) (c / 2) = omega (arith, dbc, bit_xor_digit b c) in
    let low_bc : bc % 2 ≡ differ (b % 2) (c % 2) = omega (arith, dbc, bit_xor_digit b c) in
    let half = assoc_upto n (a / 2) (b / 2) (c / 2) (omega arith) (omega arith) (omega arith) in
    let digits = differ_assoc (a % 2) (b % 2) (c % 2) (omega arith) (omega arith) (omega arith) in
    let left : bit_xor ab c
        ≡ bit_xor (bit_xor (a / 2) (b / 2)) (c / 2) * 2 + differ (differ (a % 2) (b % 2)) (c % 2) =
      rw (← high_ab, ← low_ab) (bit_xor_digit ab c) in
    let right : bit_xor a bc
        ≡ bit_xor (a / 2) (bit_xor (b / 2) (c / 2)) * 2 + differ (a % 2) (differ (b % 2) (c % 2)) =
      rw (← high_bc, ← low_bc) (bit_xor_digit a bc) in
    omega (arith, half, digits, left, right)

pub xor_assoc : (a b c : ℕ) → bit_xor (bit_xor a b) c ≡ bit_xor a (bit_xor b c)
xor_assoc a b c = assoc_upto (a + b + c) a b c (omega arith) (omega arith) (omega arith)

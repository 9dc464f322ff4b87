-- ===== src/Base/Words.antt =====
-- Machine integers as native numbers. An unsigned word is its value; a signed one (`i8`, `i32`)
-- is its two's complement bit pattern, so wrapping arithmetic is arithmetic modulo `2 ^ 32`.
-- A byte string is a list of numbers, with its value read in either byte order.
use Prim.Native.Nat.{ℕ, zero, suc, ◌+◌, ◌-◌, ◌*◌, ◌/◌, ◌%◌, ◌^◌, ◌<◌}
use mathlib.Core.Path.{◌≡◌, refl, ap}
use mathlib.Core.List.{List, [], ◌∷◌, ◌++◌, reverse, reverse-append}
use native.Mathlib.Nat.{pow-suc}
use native.Mathlib.Omega.{arith}
use aria_t.Base.Tests.{ltb, if◌then◌else◌}
use aria_t.Base.Lists.{length, All, length-append, All-append}

abbrev pub u8 : ℕ → ℕ
u8 n = n % 2 ^ 8

abbrev pub u32 : ℕ → ℕ
u32 n = n % 2 ^ 32

abbrev pub u64 : ℕ → ℕ
u64 n = n % 2 ^ 64

abbrev pub u128 : ℕ → ℕ
u128 n = n % 2 ^ 128

-- `x as i32` for an `i8`: the sign is extended.
unfoldable pub i8_to_i32 : ℕ → ℕ
i8_to_i32 x = if ltb x 128 then x else x + (2 ^ 32 - 256)

-- `i32::wrapping_add`, `wrapping_sub` and `wrapping_mul`, on bit patterns.
abbrev pub wrapping_add : ℕ → ℕ → ℕ
wrapping_add a b = u32 (a + b)

abbrev pub wrapping_sub : ℕ → ℕ → ℕ
wrapping_sub a b = u32 (a + 2 ^ 32 - b)

abbrev pub wrapping_mul : ℕ → ℕ → ℕ
wrapping_mul a b = u32 (a * b)

-- `u32::rotate_left`, for a count below 32.
abbrev pub rotate_left : ℕ → ℕ → ℕ
rotate_left x n = u32 (x * 2 ^ n) + x / 2 ^ (32 - n)

abbrev pub IsByte : ℕ → Type 0
IsByte b = b < 256

abbrev pub IsBytes : List ℕ → Type 0
IsBytes bs = All IsByte bs

-- The number that a byte string stands for, the first byte the highest or the lowest.
abbrev pub be_value : List ℕ → ℕ
be_value [] = 0
be_value (b ∷ bs) = b * 256 ^ length bs + be_value bs

abbrev pub le_value : List ℕ → ℕ
le_value [] = 0
le_value (b ∷ bs) = b + 256 * le_value bs

-- `to_le_bytes` of a word of `n` bytes.
abbrev pub to_le_bytes : ℕ → ℕ → List ℕ
to_le_bytes zero x = []
to_le_bytes (suc n) x = x % 256 ∷ to_le_bytes n (x / 256)

pub length-to_le_bytes : (n x : ℕ) → length (to_le_bytes n x) ≡ n
length-to_le_bytes zero x = refl
length-to_le_bytes (suc n) x = ap suc (length-to_le_bytes n (x / 256))

pub to_le_bytes-IsBytes : (n x : ℕ) → IsBytes (to_le_bytes n x)
to_le_bytes-IsBytes zero x = tt
to_le_bytes-IsBytes (suc n) x = (omega arith, to_le_bytes-IsBytes n (x / 256))

pub le_value-to_le_bytes : (n x : ℕ) → x < 256 ^ n → le_value (to_le_bytes n x) ≡ x
le_value-to_le_bytes zero x h = omega arith
le_value-to_le_bytes (suc n) x h =
    omega (arith, le_value-to_le_bytes n (x / 256) (omega (arith, pow-suc 256 n)))

pub le_value-lt : (bs : List ℕ) → IsBytes bs → le_value bs < 256 ^ length bs
le_value-lt [] h = omega arith
le_value-lt (b ∷ bs) h = omega (arith, le_value-lt bs h.1, pow-suc 256 (length bs))

pub be_value-lt : (bs : List ℕ) → IsBytes bs → be_value bs < 256 ^ length bs
be_value-lt [] h = omega arith
be_value-lt (b ∷ bs) h = grind (arith, be_value-lt bs h.1, pow-suc 256 (length bs))

pub le_value-append :
    (xs ys : List ℕ) → le_value (xs ++ ys) ≡ le_value xs + 256 ^ length xs * le_value ys
le_value-append [] ys = omega arith
le_value-append (x ∷ xs) ys =
    omega (arith, le_value-append xs ys, ap (λ (t : ℕ). t * le_value ys) (pow-suc 256 (length xs)))

pub length-reverse : (xs : List ℕ) → length (reverse xs) ≡ length xs
length-reverse [] = refl
length-reverse (x ∷ xs) =
    rw (reverse-append (x ∷ []) xs, length-append) (omega (arith, length-reverse xs))

-- Reversing the bytes changes the byte order of the value.
pub le_value-reverse : (xs : List ℕ) → le_value (reverse xs) ≡ be_value xs
le_value-reverse [] = refl
le_value-reverse (x ∷ xs) =
    rw (reverse-append (x ∷ []) xs, le_value-append)
      (omega (arith, le_value-reverse xs, ap (λ (t : ℕ). 256 ^ t * x) (length-reverse xs)))

pub All-reverse {κ} : (P : ℕ → Type κ) (xs : List ℕ) → All P xs → All P (reverse xs)
All-reverse P [] h = h
All-reverse P (x ∷ xs) h =
    rw (reverse-append (x ∷ []) xs)
      (All-append P (reverse xs) (x ∷ []) (All-reverse P xs h.1) (h.0, tt))

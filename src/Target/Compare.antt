-- ===== src/Target/Compare.antt =====
-- The 256-bit comparisons: `le_leq` of src/official_grind.rs on little-endian bytes, and the
-- lexicographic `<` on slices by which src/cpu_engine.rs compares big-endian hashes.
use native.Mathlib.Nat.{pow-suc}
use aria_t.Base.{ℕ, zero, suc, ◌+◌, ◌*◌, ◌^◌, ◌≤◌, ◌<◌, ◌≡◌, refl, ap, ◌↔◌}
use aria_t.Base.{Bool, true, false, List, [], ◌∷◌, arith, length, get_or, ltb, ◌==◌, if◌then◌else◌}
use aria_t.Base.Words.{be_value, le_value, IsBytes, be_value-lt}

-- `for i in (0..n).rev()`: the bytes below index `n` are still to be compared.
le_leq_from : ℕ → List ℕ → List ℕ → Bool
le_leq_from zero a b = true
le_leq_from (suc i) a b =
    let rest = le_leq_from i a b in
    if get_or a i 0 == get_or b i 0 then rest else ltb (get_or a i 0) (get_or b i 0)

pub le_leq : List ℕ → List ℕ → Bool
le_leq a b = le_leq_from 32 a b

-- `a < b` of Rust on byte slices: the first difference decides, and a proper prefix is smaller.
unfoldable pub slice_lt : List ℕ → List ℕ → Bool
slice_lt a [] = false
slice_lt [] (y ∷ b) = true
slice_lt (x ∷ a) (y ∷ b) = let rest = slice_lt a b in if x == y then rest else ltb x y

-- The value of the `n` lowest bytes.
low_value : ℕ → List ℕ → ℕ
low_value zero a = 0
low_value (suc i) a = low_value i a + get_or a i 0 * 256 ^ i

byte_lt : (a : List ℕ) (i : ℕ) → IsBytes a → get_or a i 0 < 256
byte_lt [] i h = omega arith
byte_lt (x ∷ a) zero h = h.0
byte_lt (x ∷ a) (suc i) h = byte_lt a i h.1

low_value-lt : (n : ℕ) (a : List ℕ) → IsBytes a → low_value n a < 256 ^ n
unfolding low_value
low_value-lt zero a h = omega arith
low_value-lt (suc i) a h = grind (arith, low_value-lt i a h, byte_lt a i h, pow-suc 256 i)

low_value-cons : (n x : ℕ) (a : List ℕ) → low_value (suc n) (x ∷ a) ≡ x + 256 * low_value n a
unfolding low_value
low_value-cons zero x a = omega arith
low_value-cons (suc n) x a =
    omega (arith, low_value-cons n x a, ap (λ (t : ℕ). get_or a n 0 * t) (pow-suc 256 n))

low_value-le_value : (a : List ℕ) → low_value (length a) a ≡ le_value a
unfolding low_value
low_value-le_value [] = refl
low_value-le_value (x ∷ a) = omega (arith, low_value-cons (length a) x a, low_value-le_value a)

-- A higher digit outweighs everything below it.
digit_decides : (x y p u v : ℕ) → u < p → v < p → x < y → u + x * p < v + y * p
digit_decides x y p u v hu hv h = grind arith

le_leq_from_iff :
    (n : ℕ) (a b : List ℕ)
    → IsBytes a
    → IsBytes b
    → (le_leq_from n a b ≡ true) ↔ (low_value n a ≤ low_value n b)
unfolding le_leq_from low_value
le_leq_from_iff zero a b ha hb = ground arith
le_leq_from_iff (suc i) a b ha hb = ground (
  arith,
  le_leq_from_iff i a b ha hb,
  low_value-lt i a ha,
  low_value-lt i b hb,
  digit_decides (get_or a i 0) (get_or b i 0) (256 ^ i) (low_value i a) (low_value i b),
  digit_decides (get_or b i 0) (get_or a i 0) (256 ^ i) (low_value i b) (low_value i a),
)

-- On 32-byte strings `le_leq` decides the order of the little-endian integers.
pub le_leq_iff :
    (a b : List ℕ)
    → length a ≡ 32
    → length b ≡ 32
    → IsBytes a
    → IsBytes b
    → (le_leq a b ≡ true) ↔ (le_value a ≤ le_value b)
unfolding le_leq
le_leq_iff a b la lb ha hb =
    rw (← low_value-le_value a, ← low_value-le_value b, la, lb) (le_leq_from_iff 32 a b ha hb)

-- On strings of one length the slice order is the order of the big-endian integers.
pub slice_lt_iff :
    (a b : List ℕ)
    → length a ≡ length b
    → IsBytes a
    → IsBytes b
    → (slice_lt a b ≡ true) ↔ (be_value a < be_value b)
unfolding slice_lt
slice_lt_iff [] [] e ha hb = ground arith
slice_lt_iff [] (y ∷ b) e ha hb = absurd (omega arith)
slice_lt_iff (x ∷ a) [] e ha hb = absurd (omega arith)
slice_lt_iff (x ∷ a) (y ∷ b) e ha hb =
    let e' : length a ≡ length b = omega arith in
    ground (
      arith,
      slice_lt_iff a b e' ha.1 hb.1,
      ap (λ (t : ℕ). 256 ^ t) e',
      be_value-lt a ha.1,
      be_value-lt b hb.1,
      digit_decides x y (256 ^ length b) (be_value a) (be_value b),
      digit_decides y x (256 ^ length b) (be_value b) (be_value a),
    )

-- ===== src/Vnni/Sums.antt =====
-- Plain sums behind the dot products of src/vnni.rs, and what each piece of the code does to them
-- modulo 2^32.
use Prim.Native.Nat.{bit_xor}
use native.Mathlib.Numerals.{add-one}
use aria_t.Base.{ℕ, zero, suc, ◌+◌, ◌-◌, ◌*◌, ◌%◌, ◌^◌, ◌≤◌, ◌<◌, ◌≡◌, refl, ap, arith}
use aria_t.Base.{
  Bool, true, List, [], ◌∷◌, length, get_or, take, drop, replicate, ltb, drop_all, drop-get,
  length-map,
}
use aria_t.Base.{◌==◌, ◌&&◌, Bool-cases, inl, inr, ltb→ge, ltb→lt}
use aria_t.Base.Words.{u32, i8_to_i32, wrapping_add, IsBytes}
use aria_t.Vnni.{mac, dot_from, dpbusd, xor_bias, hsum_from, tail_loop}

-- The sums, not reduced: of the products of signed bytes, of unsigned and signed bytes, of the
-- signed bytes, and of lanes.
unfoldable pub dot : List ℕ → List ℕ → ℕ
dot (x ∷ a) (y ∷ b) = i8_to_i32 x * i8_to_i32 y + dot a b
dot _ _ = 0

unfoldable pub dot_u8 : List ℕ → List ℕ → ℕ
dot_u8 (x ∷ a) (y ∷ b) = x * i8_to_i32 y + dot_u8 a b
dot_u8 _ _ = 0

unfoldable pub sum_i8 : List ℕ → ℕ
sum_i8 [] = 0
sum_i8 (y ∷ b) = i8_to_i32 y + sum_i8 b

unfoldable pub sum : List ℕ → ℕ
sum [] = 0
sum (x ∷ xs) = x + sum xs

pub dot_from-dot : (acc : ℕ) (a b : List ℕ) → u32 (dot_from acc a b) ≡ u32 (acc + dot a b)
unfolding dot_from dot
dot_from-dot acc [] b = omega arith
dot_from-dot acc (x ∷ a) [] = omega arith
dot_from-dot acc (x ∷ a) (y ∷ b) = omega (arith, dot_from-dot (mac acc x y) a b)

pub dot_from-lt : (acc : ℕ) (a b : List ℕ) → acc < 2 ^ 32 → dot_from acc a b < 2 ^ 32
unfolding dot_from
dot_from-lt acc [] b h = h
dot_from-lt acc (x ∷ a) [] h = h
dot_from-lt acc (x ∷ a) (y ∷ b) h = dot_from-lt (mac acc x y) a b (omega arith)

pub hsum_from-sum : (s : ℕ) (lanes : List ℕ) → u32 (hsum_from s lanes) ≡ u32 (s + sum lanes)
unfolding hsum_from sum
hsum_from-sum s [] = omega arith
hsum_from-sum s (x ∷ lanes) = omega (arith, hsum_from-sum (wrapping_add s x) lanes)

-- Every lane takes four bytes of each operand.
pub sum-dpbusd :
    (acc a b : List ℕ)
    → length a ≡ 4 * length acc
    → length b ≡ 4 * length acc
    → (u32 (sum (dpbusd acc a b)) ≡ u32 (sum acc + dot_u8 a b))
      × (length (dpbusd acc a b) ≡ length acc)
unfolding dpbusd sum dot_u8
sum-dpbusd [] [] [] ha hb = (refl, refl)
sum-dpbusd [] (x ∷ a) b ha hb = absurd (omega arith)
sum-dpbusd [] [] (y ∷ b) ha hb = absurd (omega arith)
sum-dpbusd (c ∷ acc) [] b ha hb = absurd (omega arith)
sum-dpbusd (c ∷ acc) (a0 ∷ []) b ha hb = absurd (omega arith)
sum-dpbusd (c ∷ acc) (a0 ∷ a1 ∷ []) b ha hb = absurd (omega arith)
sum-dpbusd (c ∷ acc) (a0 ∷ a1 ∷ a2 ∷ []) b ha hb = absurd (omega arith)
sum-dpbusd (c ∷ acc) (a0 ∷ a1 ∷ a2 ∷ a3 ∷ a) [] ha hb = absurd (omega arith)
sum-dpbusd (c ∷ acc) (a0 ∷ a1 ∷ a2 ∷ a3 ∷ a) (b0 ∷ []) ha hb = absurd (omega arith)
sum-dpbusd (c ∷ acc) (a0 ∷ a1 ∷ a2 ∷ a3 ∷ a) (b0 ∷ b1 ∷ []) ha hb = absurd (omega arith)
sum-dpbusd (c ∷ acc) (a0 ∷ a1 ∷ a2 ∷ a3 ∷ a) (b0 ∷ b1 ∷ b2 ∷ []) ha hb = absurd (omega arith)
sum-dpbusd (c ∷ acc) (a0 ∷ a1 ∷ a2 ∷ a3 ∷ a) (b0 ∷ b1 ∷ b2 ∷ b3 ∷ b) ha hb =
    let ih = sum-dpbusd acc a b (omega arith) (omega arith) in (omega (arith, ih.0), ap suc ih.1)

flips_below : ℕ → Bool
flips_below zero = true
flips_below (suc n) = (bit_xor n 0x80 == (n + 128) % 256) && flips_below n

flips_below_sound : (n x : ℕ) → flips_below n ≡ true → x < n → bit_xor x 0x80 ≡ (x + 128) % 256
unfolding flips_below
flips_below_sound zero x h lt = absurd (omega arith)
flips_below_sound (suc n) x h lt = ground (arith, flips_below_sound n x)

bias_byte : (x : ℕ) → x < 256 → bit_xor x 0x80 ≡ (x + 128) % 256
unfolding flips_below
bias_byte x h = flips_below_sound 256 x refl h

-- A biased byte is the signed one plus 128, up to a multiple of 2^32.
biased_product : (x y : ℕ) → x < 256 → u32 (bit_xor x 0x80 * y) ≡ u32 (i8_to_i32 x * y + 128 * y)
unfolding i8_to_i32
biased_product x y h = elim (Bool-cases (ltb x 128)) [
  | inl low ↦
      let e : bit_xor x 0x80 ≡ x + 128 = omega (arith, bias_byte x h, ltb→lt x 128 low) in
      rw (e, low) (omega arith)
  | inr high ↦
      let ge : 128 ≤ x = ltb→ge x 128 high in
      let e : bit_xor x 0x80 ≡ x - 128 = omega (arith, bias_byte x h) in
      let split : x ≡ 128 + (x - 128) = omega arith in
      rw high (rw e (omega (arith, ap (λ (t : ℕ). t * y) split)))
]

pub length-xor_bias : (a : List ℕ) → length (xor_bias a) ≡ length a
unfolding xor_bias
length-xor_bias a = length-map _ a

pub dot_u8-xor_bias :
    (a b : List ℕ)
    → IsBytes a
    → length a ≡ length b
    → u32 (dot_u8 (xor_bias a) b) ≡ u32 (dot a b + 128 * sum_i8 b)
unfolding dot_u8 xor_bias dot sum_i8
dot_u8-xor_bias [] [] h e = refl
dot_u8-xor_bias [] (y ∷ b) h e = absurd (omega arith)
dot_u8-xor_bias (x ∷ a) [] h e = absurd (omega arith)
dot_u8-xor_bias (x ∷ a) (y ∷ b) h e =
    omega (arith, biased_product x (i8_to_i32 y) h.0, dot_u8-xor_bias a b h.1 (omega arith))

pub dot_u8-ones : (b : List ℕ) → dot_u8 (replicate (length b) 1) b ≡ sum_i8 b
unfolding dot_u8 sum_i8
dot_u8-ones [] = refl
dot_u8-ones (y ∷ b) = omega (arith, dot_u8-ones b)

pub dot-nil : (a : List ℕ) → dot a [] ≡ 0
unfolding dot
dot-nil [] = refl
dot-nil (x ∷ a) = refl

pub dot-split :
    (w : ℕ) (a b : List ℕ) → dot (take w a) (take w b) + dot (drop w a) (drop w b) ≡ dot a b
unfolding dot
dot-split zero a b = omega arith
dot-split (suc w) [] b = refl
dot-split (suc w) (x ∷ a) [] = omega (arith, dot-nil (drop w a))
dot-split (suc w) (x ∷ a) (y ∷ b) = omega (arith, dot-split w a b)

pub sum_i8-split : (w : ℕ) (b : List ℕ) → sum_i8 (take w b) + sum_i8 (drop w b) ≡ sum_i8 b
unfolding sum_i8
sum_i8-split zero b = omega arith
sum_i8-split (suc w) [] = refl
sum_i8-split (suc w) (y ∷ b) = omega (arith, sum_i8-split w b)

dot-drop_all : (l : ℕ) (a b : List ℕ) → length a ≤ l → dot (drop l a) (drop l b) ≡ 0
unfolding dot
dot-drop_all l a b h = rw (drop_all l a h) refl

dot-drop :
    (l : ℕ) (a b : List ℕ)
    → length a ≡ length b
    → l < length a
    → dot (drop l a) (drop l b)
      ≡ i8_to_i32 (get_or a l 0) * i8_to_i32 (get_or b l 0) + dot (drop (l + 1) a) (drop (l + 1) b)
unfolding dot
dot-drop l a b e h = rw (add-one, drop-get l a 0 h, drop-get l b 0 (omega arith)) refl

-- The elements from index `l` on, one a round, while the bound on the rounds lasts.
pub tail_loop-dot :
    (fuel : ℕ) (a b : List ℕ) (l s : ℕ)
    → length a ≡ length b
    → length a ≤ l + fuel
    → u32 (tail_loop fuel a b l s) ≡ u32 (s + dot (drop l a) (drop l b))
unfolding tail_loop
tail_loop-dot zero a b l s e h = omega (arith, dot-drop_all l a b (omega arith))
tail_loop-dot (suc fuel) a b l s e h = elim (Bool-cases (ltb l (length a))) [
  | inl more ↦
      let s' = mac s (get_or a l 0) (get_or b l 0) in
      rw more (
        omega (
          arith,
          tail_loop-dot fuel a b (l + 1) s' e (omega arith),
          dot-drop l a b e (ltb→lt _ _ more),
        ))
  | inr done ↦ rw done (omega (arith, dot-drop_all l a b (ltb→ge _ _ done)))
]

pub tail_loop-lt :
    (fuel : ℕ) (a b : List ℕ) (l s : ℕ) → s < 2 ^ 32 → tail_loop fuel a b l s < 2 ^ 32
unfolding tail_loop
tail_loop-lt zero a b l s h = h
tail_loop-lt (suc fuel) a b l s h =
    ground (arith, tail_loop-lt fuel a b (l + 1) (mac s (get_or a l 0) (get_or b l 0)))

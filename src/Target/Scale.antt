-- ===== src/Target/Scale.antt =====
-- `scaled_bound_le_from_target_be` of src/stratum_to_official.rs: a big-endian target times a
-- 64-bit factor, in little-endian bytes, saturating at 2^256 - 1.
use native.Mathlib.Nat.{pow-suc, div-add-mod}
use aria_t.Base.{ℕ, zero, suc, ◌+◌, ◌-◌, ◌*◌, ◌/◌, ◌%◌, ◌^◌, ◌≤◌, ◌<◌, min, ◌≡◌, refl, ap, ◌∙◌}
use aria_t.Base.{
  List, [], ◌∷◌, arith, length, reverse, replicate, ltb, if◌then◌else◌, ltb→lt, ltb→ge, Bool-cases,
  inl, inr,
}
use aria_t.Base.Words.{
  u8, u128, be_value, le_value, IsByte, IsBytes, le_value-reverse, le_value-lt, length-reverse,
  All-reverse,
}

-- The schoolbook loop over the bytes that are left, and the carry that it ends with.
pub scale_loop : ℕ → List ℕ → ℕ → List ℕ × ℕ
scale_loop factor [] carry = ([], carry)
scale_loop factor (b ∷ le) carry =
    let prod = u128 (u128 (b * factor) + carry) in
    let rest = scale_loop factor le (prod / 2 ^ 8) in (u8 prod ∷ rest.0, rest.1)

pub scaled_bound_le_from_target_be : List ℕ → ℕ → List ℕ
scaled_bound_le_from_target_be target_be factor =
    let r = scale_loop factor (reverse target_be) 0 in if ltb 0 r.1 then replicate 32 0xff else r.0

IsScaled : ℕ → List ℕ → ℕ → List ℕ × ℕ → Type 0
IsScaled factor le carry r =
    (le_value r.0 + 256 ^ length le * r.1 ≡ le_value le * factor + carry)
    × (r.1 ≤ factor)
    × IsBytes r.0
    × (length r.0 ≡ length le)

digit_step :
    (b f carry p v fin le prod : ℕ)
    → prod ≡ b * f + carry
    → v + p * fin ≡ le * f + prod / 256
    → prod % 256 + 256 * v + p * 256 * fin ≡ (b + 256 * le) * f + carry
digit_step b f carry p v fin le prod e h =
    omega (arith, ap (λ (t : ℕ). 256 * t) h, div-add-mod prod 256)

-- Neither the product nor the sum reaches 2^128, and the next carry is at most the factor.
product_bounds :
    (b f carry : ℕ)
    → b < 256
    → f < 2 ^ 64
    → carry ≤ f
    → (u128 (u128 (b * f) + carry) ≡ b * f + carry) × ((b * f + carry) / 256 ≤ f)
product_bounds b f carry hb hf hc =
    let bound : b * f ≤ 255 * f = grind arith in (omega arith, omega arith)

scale_loop-IsScaled :
    (factor : ℕ) (le : List ℕ) (carry : ℕ)
    → IsBytes le
    → factor < 2 ^ 64
    → carry ≤ factor
    → IsScaled factor le carry (scale_loop factor le carry)
unfolding IsScaled scale_loop
scale_loop-IsScaled factor [] carry hb hf hc = (omega arith, hc, tt, refl)
scale_loop-IsScaled factor (b ∷ le) carry hb hf hc =
    let prod = b * factor + carry in
    let bounds = product_bounds b factor carry hb.0 hf hc in
    let ih = scale_loop-IsScaled factor le (prod / 256) hb.1 hf bounds.1 in
    let rest = scale_loop factor le (prod / 256) in
    rw (bounds.0, pow-suc 256 (length le))
      (
        digit_step b factor carry (256 ^ length le) (le_value rest.0) rest.1 (le_value le) prod refl
            ih.0,
        ih.1,
        (omega arith, ih.2),
        ap suc ih.3,
      )

All-replicate : (n b : ℕ) → IsByte b → IsBytes (replicate n b)
All-replicate zero b h = tt
All-replicate (suc n) b h = (h, All-replicate n b h)

-- The product of a 32-byte target and a 64-bit factor, saturating at 2^256 - 1: the bound is 32
-- bytes long and its little-endian value is the smaller of the two.
pub scaled_bound_value :
    (target_be : List ℕ) (factor : ℕ)
    → length target_be ≡ 32
    → IsBytes target_be
    → factor < 2 ^ 64
    → (le_value (scaled_bound_le_from_target_be target_be factor)
        ≡ min (be_value target_be * factor) (2 ^ 256 - 1))
      × (length (scaled_bound_le_from_target_be target_be factor) ≡ 32)
      × IsBytes (scaled_bound_le_from_target_be target_be factor)
unfolding scaled_bound_le_from_target_be IsScaled
scaled_bound_value target_be factor len bytes fits =
    let le = reverse target_be in
    let r = scale_loop factor le 0 in
    let len' : length le ≡ 32 = length-reverse target_be ∙ len in
    let scaled =
      scale_loop-IsScaled factor le 0 (All-reverse IsByte target_be bytes) fits (omega arith) in
    let width : 256 ^ length le ≡ 2 ^ 256 = ap (λ (t : ℕ). 256 ^ t) len' in
    let exact : le_value r.0 + 2 ^ 256 * r.1 ≡ be_value target_be * factor = omega (
      arith,
      scaled.0,
      le_value-reverse target_be,
      ap (λ (t : ℕ). t * r.1) width,
      ap (λ (t : ℕ). t * factor) (le_value-reverse target_be),
    ) in
    elim (Bool-cases (ltb 0 r.1)) [
      | inl over ↦
          rw over
            (omega (arith, exact, ltb→lt 0 r.1 over), refl, All-replicate 32 255 (omega arith))
      | inr fit ↦ rw fit (
        omega (
          arith,
          exact,
          ltb→ge 0 r.1 fit,
          le_value-lt r.0 scaled.2,
          ap (λ (t : ℕ). 256 ^ t) (scaled.3 ∙ len'),
        ),
        scaled.3 ∙ len',
        scaled.2,
      )
    ]

-- ===== src/Official/Dims.antt =====
-- The batch dimensions that `fit_dim` (src/stratum_to_official.rs) picks.
use native.Mathlib.Nat.{div-lt_iff_lt-mul, le-div_iff_mul-le, mul-le-mul_right}
use aria_t.Base.{
  ℕ, ◌+◌, ◌-◌, ◌*◌, ◌/◌, ◌^◌, ◌≤◌, ◌<◌, max, ◌≡◌, arith, inl, inr, leb, leb→le, leb→gt, Bool-cases,
}
use aria_t.Official.{fit_dim}

-- A multiple of `p` above the largest index and not below the wanted size.
pub record IsFit (p target max_idx d : ℕ) : Type 0 where
  pub blocks : ℕ
  pub multiple : d ≡ blocks * p
  pub above : max_idx < d
  pub enough : target ≤ d

-- The first multiple above `i`, and the first not below `t`, with their remainders.
first_above : (i p : ℕ) → 0 < p → i < (i / p + 1) * p
first_above i p pos = (div-lt_iff_lt-mul pos).0 (omega arith)

rounded_up : (t p : ℕ) → 0 < p → t ≤ (t + p - 1) / p * p
rounded_up t p pos =
    let past : t + p - 1 < ((t + p - 1) / p + 1) * p = (div-lt_iff_lt-mul pos).0 (omega arith) in
    let one : ((t + p - 1) / p + 1) * p ≡ (t + p - 1) / p * p + p = omega arith in omega arith

rounded_down : (x p : ℕ) → 0 < p → x / p * p ≤ x
rounded_down x p pos = (le-div_iff_mul-le pos).0 (omega arith)

-- Without the wrap-around.
plain : ℕ → ℕ → ℕ → ℕ
plain t i p = max ((i / p + 1) * p) ((t + p - 1) / p * p)

module _ (t i p : ℕ) (pos : 0 < p) where
  plain-IsFit : IsFit p t i (plain t i p)
  unfolding plain
  plain-IsFit = elim (Bool-cases (leb (i / p + 1) ((t + p - 1) / p))) [
    | inl e ↦
        let le : (i / p + 1) * p ≤ (t + p - 1) / p * p = mul-le-mul_right p (leb→le _ _ e) in
        record {
          blocks = (t + p - 1) / p;
          multiple = omega (arith, le);
          above = omega (arith, first_above i p pos);
          enough = omega (arith, rounded_up t p pos);
        }
    | inr e ↦
        let gt = leb→gt _ _ e in
        let le : (t + p - 1) / p * p ≤ (i / p + 1) * p = mul-le-mul_right p (omega (arith, gt)) in
        record {
          blocks = i / p + 1;
          multiple = omega (arith, le);
          above = omega (arith, first_above i p pos);
          enough = omega (arith, rounded_up t p pos);
        }
  ]

  plain-least : (q : ℕ) → IsFit p t i q → plain t i p ≤ q
  unfolding plain
  plain-least q fit =
      let c = fit.blocks in
      let over : i < c * p = omega (arith, fit.multiple, fit.above) in
      let quotient : i / p < c = (div-lt_iff_lt-mul pos).1 over in
      let first : (i / p + 1) * p ≤ c * p = mul-le-mul_right p (omega arith) in
      let one : (c + 1) * p ≡ c * p + p = omega arith in
      let under : t + p - 1 < (c + 1) * p = omega (arith, fit.multiple, fit.enough) in
      let rounds : (t + p - 1) / p < c + 1 = (div-lt_iff_lt-mul pos).1 under in
      let second : (t + p - 1) / p * p ≤ c * p = mul-le-mul_right p (omega arith) in
      omega (arith, fit.multiple)

fit_dim-plain :
    (t period i : ℕ)
    → i + max period 1 < 2 ^ 64
    → t + max period 1 < 2 ^ 64
    → fit_dim t period i ≡ plain t i (max period 1)
unfolding fit_dim plain
fit_dim-plain t period i fits_i fits_t =
    let p = max period 1 in
    let one : (i / p + 1) * p ≡ i / p * p + p = omega arith in
    omega (arith, rounded_down i p (omega arith), rounded_down (t + p - 1) p (omega arith))

-- For sizes that fit 64 bits together with the period, the dimension is a multiple of the period,
-- above the largest index of the pattern and at least the wanted size.
pub fit_dim-IsFit :
    (target period max_idx : ℕ)
    → max_idx + max period 1 < 2 ^ 64
    → target + max period 1 < 2 ^ 64
    → IsFit (max period 1) target max_idx (fit_dim target period max_idx)
fit_dim-IsFit target period max_idx fits_i fits_t =
    rw (fit_dim-plain target period max_idx fits_i fits_t)
      (plain-IsFit target max_idx (max period 1) (omega arith))

-- No smaller dimension does: each such multiple is at least the one picked.
fit_dim-least :
    (target period max_idx q : ℕ)
    → max_idx + max period 1 < 2 ^ 64
    → target + max period 1 < 2 ^ 64
    → IsFit (max period 1) target max_idx q
    → fit_dim target period max_idx ≤ q
fit_dim-least target period max_idx q fits_i fits_t fit =
    rw (fit_dim-plain target period max_idx fits_i fits_t)
      (plain-least target max_idx (max period 1) (omega arith) q fit)

-- ===== src/Target/Bound.antt =====
-- `difficulty_bound_from_target_be` and `share_bound_le` of src/stratum_to_official.rs. The
-- 256-bit integers of `primitive_types` and the mining configuration of `zk_pow` are parameters.
use aria_t.Base.{ℕ, ◌-◌, ◌*◌, ◌/◌, ◌^◌, ◌≤◌, ◌<◌, min, max, ◌≡◌, ap, sym, ◌∙◌, ◌↔◌}
use aria_t.Base.{Bool, true, false, Option, some, List, arith, length}
use aria_t.Base.{if◌then◌else◌, ◌==◌, Bool-cases, inl, inr}
use aria_t.Base.Words.{u64, be_value, le_value, IsBytes}
use aria_t.Target.Share.{share_target_from_difficulty, share_target_value}
use aria_t.Target.Scale.{scaled_bound_le_from_target_be, scaled_bound_value}
use mathlib.Core.Option
use native.Mathlib.Nat.{div-lt_iff_lt-mul, le-div_iff_mul-le}

-- `primitive_types::U256`: conversions from and to bytes, and the operations that the code calls.
-- `mul` answers `none` where the crate panics on overflow.
pub record Wide : Type 1 where
  pub U256 : Type 0
  pub value : U256 → ℕ
  pub from_big_endian : List ℕ → U256
  pub to_little_endian : U256 → List ℕ
  pub zero_u : U256
  pub max_u : U256
  pub gt : U256 → U256 → Bool
  pub div : U256 → ℕ → U256
  pub mul : U256 → ℕ → Option U256

-- What the crate documents: these are the integers below 2^256.
pub record IsWide (w : Wide) : Type 0 where
  pub from_value :
      (bs : List ℕ) → length bs ≡ 32 → IsBytes bs → w.value (w.from_big_endian bs) ≡ be_value bs
  pub to_value : (x : w.U256) → le_value (w.to_little_endian x) ≡ w.value x
  pub to_bytes :
      (x : w.U256) → (length (w.to_little_endian x) ≡ 32) × IsBytes (w.to_little_endian x)
  pub zero_value : w.value w.zero_u ≡ 0
  pub max_value : w.value w.max_u ≡ 2 ^ 256 - 1
  pub gt_iff : (x y : w.U256) → (w.gt x y ≡ true) ↔ (w.value y < w.value x)
  pub div_value : (x : w.U256) (n : ℕ) → 0 < n → w.value (w.div x n) ≡ w.value x / n
  pub mul_value :
      (x : w.U256) (n : ℕ)
      → w.value x * n < 2 ^ 256
      → (p : w.U256) × (w.mul x n ≡ some p) × (w.value p ≡ w.value x * n)

-- The parts of a `MiningConfiguration` and of the consensus rules that the bound reads.
pub record Config : Type 0 where
  pub rank : ℕ
  pub rows_size : ℕ
  pub cols_size : ℕ
  pub dot_product_length : ℕ
  pub penalty_base_rank : ℕ

-- `usize` products wrap in a release build.
pub bound_factor : Config → ℕ
bound_factor c =
    let tile_size = u64 (c.rows_size * c.cols_size) in
    u64 (u64 (tile_size * (c.dot_product_length / max c.rank 1)) * c.penalty_base_rank)

-- The crate is a parameter; `none` is its panic.
module _ (w : Wide) where
  pub bound_u256 : List ℕ → ℕ → Option w.U256
  bound_u256 target_be factor =
      let target = w.from_big_endian target_be in
      if factor == 0
      then some w.zero_u
      else if w.gt target (w.div w.max_u factor)
      then some w.max_u
      else w.mul target factor

  pub difficulty_bound_from_target_be : List ℕ → Config → Option (List ℕ)
  difficulty_bound_from_target_be target_be config =
      Option.map w.to_little_endian (bound_u256 target_be (bound_factor config))

  pub share_bound_le : ℕ → Config → Option (List ℕ)
  share_bound_le difficulty config =
      difficulty_bound_from_target_be (share_target_from_difficulty difficulty) config

false-ne : {b : Bool} → b ≡ false → b ≡ true → ⊥
false-ne p q = cc

not_past :
    (target_be : List ℕ) (factor : ℕ)
    → 0 < factor
    → ((2 ^ 256 - 1) / factor < be_value target_be → ⊥)
    → be_value target_be * factor ≤ 2 ^ 256 - 1
not_past target_be factor pos h = (le-div_iff_mul-le pos).0 (omega (arith, h))

module _ (w : Wide) (laws : IsWide w) where
  bound_u256_value :
      (target_be : List ℕ) (factor : ℕ)
      → length target_be ≡ 32
      → IsBytes target_be
      → (x : w.U256) × (bound_u256 w target_be factor ≡ some x)
        × (w.value x ≡ min (be_value target_be * factor) (2 ^ 256 - 1))
  unfolding bound_u256
  bound_u256_value target_be factor len bytes =
      let target = w.from_big_endian target_be in
      let limit = w.div w.max_u factor in
      let tv : w.value target ≡ be_value target_be = laws.from_value target_be len bytes in
      elim (Bool-cases (factor == 0)) [
        | inl z ↦ (w.zero_u, rw z, ground (arith, laws.zero_value))
        | inr nz ↦
            let pos : 0 < factor = ground arith in
            let lv : w.value limit ≡ (2 ^ 256 - 1) / factor =
              laws.div_value w.max_u factor pos ∙ ap (λ (t : ℕ). t / factor) laws.max_value in
            elim (Bool-cases (w.gt target limit)) [
              | inl over ↦
                  let past = (laws.gt_iff target limit).0 over in
                  let far : 2 ^ 256 - 1 < be_value target_be * factor =
                    (div-lt_iff_lt-mul pos).0 (omega (arith, past, lv, tv)) in
                  (w.max_u, rw (nz, over), omega (arith, laws.max_value, far))
              | inr fit ↦
                  let near : be_value target_be * factor ≤ 2 ^ 256 - 1 =
                    not_past target_be factor pos (λ past.
                      false-ne fit ((laws.gt_iff target limit).1 (omega (arith, past, lv, tv)))) in
                  let tf : w.value target * factor ≡ be_value target_be * factor =
                    ap (λ (t : ℕ). t * factor) tv in
                  let m = laws.mul_value target factor (omega (arith, near, tf)) in
                  (m.0, rw (nz, fit) m.1, omega (arith, m.2, near, tf))
            ]
      ]

  -- The bound of a 32-byte target is its product with the rank-penalty factor, saturating at
  -- 2^256 - 1, in 32 little-endian bytes; the multiplication never overflows.
  pub difficulty_bound_value :
      (target_be : List ℕ) (config : Config)
      → length target_be ≡ 32
      → IsBytes target_be
      → (le : List ℕ) × (difficulty_bound_from_target_be w target_be config ≡ some le)
        × (le_value le ≡ min (be_value target_be * bound_factor config) (2 ^ 256 - 1))
        × (length le ≡ 32)
  unfolding difficulty_bound_from_target_be
  difficulty_bound_value target_be config len bytes =
      let (x, e, v) = bound_u256_value target_be (bound_factor config) len bytes in
      (w.to_little_endian x, rw e, laws.to_value x ∙ v, (laws.to_bytes x).0)

  -- Up to the factor the two bound computations of the module agree: on a target of 32 bytes they
  -- give the same integer.
  difficulty_bound-eq-scaled :
      (target_be : List ℕ) (config : Config)
      → length target_be ≡ 32
      → IsBytes target_be
      → (le : List ℕ) × (difficulty_bound_from_target_be w target_be config ≡ some le)
        × (le_value le ≡ le_value (scaled_bound_le_from_target_be target_be (bound_factor config)))
  unfolding bound_factor
  difficulty_bound-eq-scaled target_be config len bytes =
      let (le, e, v, _) = difficulty_bound_value target_be config len bytes in
      let scaled = scaled_bound_value target_be (bound_factor config) len bytes (omega arith) in
      (le, e, v ∙ sym scaled.0)

  -- The share bound of a stratum difficulty d is the product of the quotient of 2^256 - 1 by
  -- d (by 1, for d = 0) and the factor, saturating at 2^256 - 1.
  pub share_bound_value :
      (difficulty : ℕ) (config : Config)
      → difficulty < 2 ^ 64
      → (le : List ℕ) × (share_bound_le w difficulty config ≡ some le)
        × (le_value le ≡ min ((2 ^ 256 - 1) / max difficulty 1 * bound_factor config) (2 ^ 256 - 1))
  unfolding share_bound_le
  share_bound_value difficulty config fits =
      let t = share_target_value difficulty fits in
      let target = share_target_from_difficulty difficulty in
      let (le, e, v, _) = difficulty_bound_value target config t.1 t.2 in (le, e, rw (t.0) at v)

-- ===== src/Jackpot/Pearl.antt =====
-- `compute_jackpot_pearl` of src/pearl_compute.rs. A read out of range, which panics there, gives
-- 0 here; the theorems suppose the shapes that the source asserts.
pub mod Window
pub mod Laws
use aria_t.Base.{
  ℕ, zero, suc, ◌+◌, ◌-◌, ◌*◌, ◌/◌, ◌%◌, ◌^◌, ◌≤◌, ◌<◌, ◌≡◌, refl, ap, ap₂, sym, ◌∙◌, arith,
}
use aria_t.Base.{
  List, [], ◌∷◌, ◌++◌, map, length, get_elem?, get_or, take, drop, replicate, Option, some, none,
}
use aria_t.Base.Words.{u8, u32, wrapping_add, wrapping_mul, i8_to_i32}
use aria_t.Jackpot.{
  PearlParams, walk_blocks, update_row, xor_fold, jackpot_size, empty_msg, jackpot_of,
}

pub record PearlNoise : Type 0 where
  pub a : List (List ℕ)
  pub b : List (List ℕ)

-- `for l in (ll - r)..ll`, with the rounds left and the index `l`.
pub mac_window : (sa na sb nb : List ℕ) → ℕ → ℕ → ℕ → ℕ
mac_window sa na sb nb zero l acc = acc
mac_window sa na sb nb (suc n) l acc =
    let a = u32 (i8_to_i32 (get_or sa l 0) + i8_to_i32 (get_or na l 0)) in
    let b = u32 (i8_to_i32 (get_or sb l 0) + i8_to_i32 (get_or nb l 0)) in
    mac_window sa na sb nb n (l + 1) (wrapping_add acc (wrapping_mul a b))

-- `for u in 0..h { for v in 0..w { jackpot[u][v] = f(u, v, jackpot[u][v]) } }`
pub update_rows : (ℕ → ℕ → ℕ → ℕ) → ℕ → List (List ℕ) → List (List ℕ)
update_rows f u [] = []
update_rows f u (row ∷ tile) = update_row (f u) 0 row ∷ update_rows f (u + 1) tile

-- `for u in 0..h { for v in 0..w { xored ^= jackpot[u][v] } }`
pub xor_rows : ℕ → List (List ℕ) → ℕ
xor_rows acc [] = acc
xor_rows acc (row ∷ tile) = xor_rows (xor_fold acc row) tile

module _ (params : PearlParams) (secret_a secret_b : List (List ℕ)) (noise : PearlNoise) where
  -- The inner GEMM block that ends at column `ll`.
  pub gemm_block : ℕ → List (List ℕ) → List (List ℕ)
  gemm_block ll tile =
      update_rows
        (λ u v acc.
          mac_window (get_or secret_a u []) (get_or noise.a u []) (get_or secret_b v [])
            (get_or noise.b v []) params.r (ll - params.r) acc)
        0 tile

  pub compute_jackpot_pearl : Option (List ℕ)
  compute_jackpot_pearl =
      walk_blocks params.k params.r gemm_block (xor_rows 0)
        (λ ll blk. (ll / params.r - 1) % jackpot_size) (params.k + 1) params.r 0
        (replicate params.h (replicate params.w 0)) empty_msg

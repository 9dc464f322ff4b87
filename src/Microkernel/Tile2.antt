-- ===== src/Microkernel/Tile2.antt =====
-- `jackpot_tile_2x64_avx512` of src/microkernel.rs.
pub mod Steps
pub mod Laws
use aria_t.Base.{
  ℕ, zero, suc, ◌+◌, ◌-◌, ◌*◌, ◌/◌, ◌%◌, List, [], ◌∷◌, ◌++◌, map, take, drop, replicate, get_or,
  length,
}
use aria_t.Base.{ltb, if◌then◌else◌, Option}
use aria_t.Jackpot.{walk_blocks, jackpot_size, empty_msg}
use aria_t.Jackpot.Flat.{upto}
use aria_t.Microkernel.{mac_rows, mac_bias, add_lanes, Store, store_all, copy_at, xor_reduce_128}

-- The registers of one column-group: the products of both rows after even and after odd steps, and
-- the shared sum.
pub record Halves : Type 0 where
  pub lo : List (List ℕ)
  pub hi : List (List ℕ)
  pub s : List ℕ

abbrev pub zeros : ℕ → List ℕ
zeros lanes = replicate lanes 0

unfoldable pub empty_halves : Halves
empty_halves = record { lo = zeros 16 ∷ zeros 16 ∷ []; hi = zeros 16 ∷ zeros 16 ∷ []; s = zeros 16 }

-- A step for each of the four groups from `grp` on.
unfoldable pub on_groups : (ℕ → Halves → Halves) → ℕ → List Halves → List Halves
on_groups f grp [] = []
on_groups f grp (h ∷ hs) = f grp h ∷ on_groups f (grp + 1) hs

module _ (a_eff b_packed : List ℕ) (rows : List ℕ) (k r l0 : ℕ) where
  unfoldable pub even_step : ℕ → ℕ → Halves → Halves
  even_step kk grp h = record {
    lo = mac_rows 16 a_eff b_packed k l0 rows grp kk h.lo;
    hi = h.hi;
    s = mac_bias 16 a_eff b_packed k l0 grp kk h.s;
  }

  unfoldable pub odd_step : ℕ → ℕ → Halves → Halves
  odd_step kk grp h = record {
    lo = h.lo;
    hi = mac_rows 16 a_eff b_packed k l0 rows grp kk h.hi;
    s = mac_bias 16 a_eff b_packed k l0 grp kk h.s;
  }

  -- `while kk + 1 < kk_per_r`, and the odd remainder.
  unfoldable pub pair_loop : ℕ → ℕ → ℕ → List Halves → List Halves
  pair_loop zero grp kk hs = hs
  pair_loop (suc fuel) grp kk hs =
      let rest =
        pair_loop fuel grp (kk + 2)
          (on_groups (odd_step (kk + 1)) grp (on_groups (even_step kk) grp hs)) in
      if ltb (kk + 1) (r / 4)
      then rest
      else if ltb kk (r / 4)
      then on_groups (even_step kk) grp hs
      else hs

-- The stores of one row, group by group from `base` on.
unfoldable pub row_stores : ℕ → ℕ → List Halves → List Store
row_stores row base [] = []
row_stores row base (h ∷ hs) =
    record { base = base; acc = add_lanes (get_or h.lo row []) (get_or h.hi row []); accb = h.s }
    ∷ row_stores row (base + 16) hs

module _ (a_eff b_packed : List ℕ) (a0 a1 grp_base k r : ℕ) where
  unfoldable pub round_2x64 : ℕ → List ℕ → List ℕ
  round_2x64 ll jackpot =
      let hs =
        pair_loop a_eff b_packed (a0 ∷ a1 ∷ []) k r (ll - r) (r / 4 + 1) grp_base 0
          (empty_halves ∷ empty_halves ∷ empty_halves ∷ empty_halves ∷ []) in
      store_all 16 (row_stores 1 64 hs) (store_all 16 (row_stores 0 0 hs) jackpot)

  unfoldable pub jackpot_tile_2x64_avx512 : List ℕ → Option (List ℕ)
  jackpot_tile_2x64_avx512 jackpot =
      walk_blocks k r round_2x64 xor_reduce_128 (λ ll blk. blk % jackpot_size) (k + 1) r 0
        (copy_at jackpot 0 (replicate 128 0)) empty_msg

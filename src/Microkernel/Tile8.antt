-- ===== src/Microkernel/Tile8.antt =====
-- `jackpot_tile_8x64_avx512` and `jackpot_tile_8x64_avxvnni` of src/microkernel.rs.
pub mod Walk
pub mod Cells
pub mod Groups
pub mod Turns
pub mod Tiles
pub mod Laws
pub mod Vnni
use aria_t.Base.{ℕ, zero, suc, ◌+◌, ◌-◌, ◌*◌, ◌/◌, ◌%◌, List, [], ◌∷◌, map, replicate}
use aria_t.Base.{leb, if◌then◌else◌, Option, none, some}
use aria_t.Jackpot.{stir, jackpot_size, empty_msg}
use aria_t.Jackpot.Flat.{upto}
use aria_t.Jackpot.Tile.{range}
use aria_t.Microkernel.{
  mac_rows, mac_bias, Store, store_all, copy_at, for_each, xor_reduce_128, xor_reduce_128_avx2,
}

-- The registers of one column-group: a product for each of eight rows and the shared sum.
pub record Group : Type 0 where
  pub accs : List (List ℕ)
  pub s : List ℕ

-- `a0..a0 + 8`
unfoldable pub rows_8 : ℕ → List ℕ
rows_8 a0 = map (λ i. a0 + i) (upto 0 8)

unfoldable pub empty_group : ℕ → Group
empty_group lanes = record { accs = replicate 8 (replicate lanes 0); s = replicate lanes 0 }

module _ (lanes : ℕ) (a_eff b_packed : List ℕ) (a0 k l0 : ℕ) where
  unfoldable pub group_round : ℕ → ℕ → Group → Group
  group_round grp kk g = record {
    accs = mac_rows lanes a_eff b_packed k l0 (rows_8 a0) grp kk g.accs;
    s = mac_bias lanes a_eff b_packed k l0 grp kk g.s;
  }

-- Where row `row` of a pass keeps its cells: the tile, the half of the tile, the group.
unfoldable pub cell_base : ℕ → ℕ → ℕ → ℕ
cell_base lanes row g = row / 2 * 128 + row % 2 * 64 + g * lanes

-- The stores of both groups, row by row, and those of one group.
unfoldable pub pair_stores :
    ℕ → ℕ → ℕ → List ℕ → List ℕ → List (List ℕ) → List (List ℕ) → List Store
pair_stores ga gb row sa sb (x ∷ xs) (y ∷ ys) =
    record { base = cell_base 16 row ga; acc = x; accb = sa }
    ∷ record { base = cell_base 16 row gb; acc = y; accb = sb }
    ∷ pair_stores ga gb (row + 1) sa sb xs ys
pair_stores ga gb row sa sb _ _ = []

unfoldable pub group_stores : ℕ → ℕ → List ℕ → List (List ℕ) → List Store
group_stores g row s [] = []
group_stores g row s (x ∷ accs) =
    record { base = cell_base 8 row g; acc = x; accb = s } ∷ group_stores g (row + 1) s accs

-- Four tiles of 128 cells, and the stir of each into its message.
unfoldable pub stir_tiles : (List ℕ → ℕ) → ℕ → ℕ → List ℕ → List (List ℕ) → List (List ℕ)
stir_tiles reduce slot t jackpot [] = []
stir_tiles reduce slot t jackpot (msg ∷ msgs) =
    stir msg slot (reduce (range jackpot (t * 128) (t * 128 + 128)))
    ∷ stir_tiles reduce slot (t + 1) jackpot msgs

-- `while ll <= k`; `none` means that the rounds given ran out.
module _ (k r : ℕ) (update : ℕ → List ℕ → List ℕ) (reduce : List ℕ → ℕ) where
  unfoldable pub walk_tiles : ℕ → ℕ → ℕ → List ℕ → List (List ℕ) → Option (List (List ℕ))
  walk_tiles zero ll blk jackpot msgs = none
  walk_tiles (suc fuel) ll blk jackpot msgs =
      let jackpot' = update ll jackpot in
      let rest =
        walk_tiles fuel (ll + r) (blk + 1) jackpot'
          (stir_tiles reduce (blk % jackpot_size) 0 jackpot' msgs) in
      if leb ll k then rest else some msgs

unfoldable pub empty_msgs : List (List ℕ)
empty_msgs = empty_msg ∷ empty_msg ∷ empty_msg ∷ empty_msg ∷ []

module _ (a_eff b_packed : List ℕ) (a0 grp_base k r : ℕ) where
  -- One of the two passes over the column-groups.
  unfoldable pub pass_8x64 : ℕ → ℕ → List ℕ → List ℕ
  pass_8x64 l0 gp jackpot =
      let ga = gp * 2 in
      let gb = gp * 2 + 1 in
      let acc =
        for_each {S = Group × Group} (r / 4) 0
          (λ kk g. (
            group_round 16 a_eff b_packed a0 k l0 (grp_base + ga) kk g.0,
            group_round 16 a_eff b_packed a0 k l0 (grp_base + gb) kk g.1,
          ))
          (empty_group 16, empty_group 16) in
      store_all 16 (pair_stores ga gb 0 acc.0.s acc.1.s acc.0.accs acc.1.accs) jackpot

  unfoldable pub jackpot_tile_8x64_avx512 : List ℕ → Option (List (List ℕ))
  jackpot_tile_8x64_avx512 jackpot =
      walk_tiles k r (λ ll. for_each 2 0 (pass_8x64 (ll - r))) xor_reduce_128 (k + 1) r 0
        (copy_at jackpot 0 (replicate 512 0)) empty_msgs

module _ (a_eff b_packed : List ℕ) (a0 grp8_base k r : ℕ) where
  unfoldable pub pass_avxvnni : ℕ → ℕ → List ℕ → List ℕ
  pass_avxvnni l0 g jackpot =
      let acc =
        for_each (r / 4) 0 (group_round 8 a_eff b_packed a0 k l0 (grp8_base + g)) (empty_group 8) in
      store_all 8 (group_stores g 0 acc.s acc.accs) jackpot

  unfoldable pub jackpot_tile_8x64_avxvnni : List ℕ → Option (List (List ℕ))
  jackpot_tile_8x64_avxvnni jackpot =
      walk_tiles k r (λ ll. for_each 8 0 (pass_avxvnni (ll - r))) xor_reduce_128_avx2 (k + 1) r 0
        (copy_at jackpot 0 (replicate 512 0)) empty_msgs

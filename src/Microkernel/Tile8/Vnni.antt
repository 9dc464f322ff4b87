-- ===== src/Microkernel/Tile8/Vnni.antt =====
-- `jackpot_tile_8x64_avxvnni` of src/microkernel.rs: on columns as the packing lays them out it gives
-- the four messages of the specification.
use aria_t.Base.{ℕ, zero, suc, ◌+◌, ◌*◌, ◌/◌, ◌%◌, ◌≤◌, ◌<◌, ◌≡◌, refl, arith}
use aria_t.Base.{List, [], ◌∷◌, ◌++◌, map, length, Bool, ltb, some}
use aria_t.Base.Words.{IsBytes}
use aria_t.Jackpot.Flat.{upto}
use aria_t.Jackpot.Tile.Walk.{strip}
use aria_t.Microkernel.{Store, for_each, store_all, xor_reduce_128_avx2}
use aria_t.Microkernel.Pieces.{prod, bias}
use aria_t.Microkernel.Packing.{columns, IsPacked, mul-le-mul_right}
use aria_t.Microkernel.Reduce.{xor_reduce_128_avx2-full}
use aria_t.Microkernel.Slots.{slots}
use aria_t.Microkernel.Stores.{
  fresh, stored_in, stored_after, all_stored, store_of, fresh_all, after_all, for_each-after,
}
use aria_t.Microkernel.Tile8.{
  Group, rows_8, group_round, empty_group, cell_base, group_stores, pass_avxvnni,
  jackpot_tile_8x64_avxvnni,
}
use aria_t.Microkernel.Tile8.Tiles.{four_jackpots, walk_tiles-four}
use aria_t.Microkernel.Tile8.Cells.{cells, length-cells}
use aria_t.Microkernel.Tile8.Groups.{group_at, group_window}
use aria_t.Microkernel.Tile8.Turns.{columns-IsStrip, rows_8-InBatch, stored_cells}

-- A place is a row and a group; a pass stores its group row by row.
order : ℕ → ℕ → ℕ → List (ℕ × ℕ)
order g row zero = []
order g row (suc n) = (row, g) ∷ order g (row + 1) n

slot : ℕ × ℕ → ℕ
slot (row, g) = row * 8 + g

ok : ℕ × ℕ → Bool
ok (row, g) = ltb g 8

divs_8 : (q u : ℕ) → u < 8 → ((q * 8 + u) / 8 ≡ q) × ((q * 8 + u) % 8 ≡ u)
divs_8 q u h = (omega arith, omega arith)

module _ (a_eff b_eff packed : List ℕ) (a0 base k r groups : ℕ)
    (is_packed : IsPacked 8 k b_eff groups packed) (bytes : IsBytes a_eff) (pos : 0 < r)
    (quads : r % 4 ≡ 0) (rows_in : (a0 + 8) * k ≤ length a_eff) (groups_in : base + 8 ≤ groups)
    (cols_in : (base + 8) * 8 * k ≤ length b_eff) where
  module _ (l0 : ℕ) (whole : l0 % 4 ≡ 0) (room : l0 + r ≤ k) where
    acc : ℕ × ℕ → List ℕ
    acc (row, g) = map (prod l0 r (strip k a_eff (a0 + row))) (columns 8 k b_eff (base + g))

    accb : ℕ × ℕ → List ℕ
    accb (row, g) = map (bias l0 r) (columns 8 k b_eff (base + g))

    stores : ℕ → List Store
    stores gp = map (store_of 8 slot acc accb) (order gp 0 8)

    registers : ℕ → Group
    registers g = group_at 8 a_eff b_eff a0 k l0 (base + g) r

    window :
        (g : ℕ)
        → g < 8
        → for_each (r / 4) 0 (group_round 8 a_eff packed a0 k l0 (base + g)) (empty_group 8)
          ≡ registers g
    unfolding registers
    window g h =
        let last : (base + g + 1) * 8 ≤ (base + 8) * 8 = omega arith in
        group_window 8 a_eff b_eff packed a0 k l0 groups (base + g) is_packed (omega arith) whole
          bytes (rows_8-InBatch k a_eff a0 rows_in)
          (columns-IsStrip 8 k b_eff (base + g) (omega (arith, mul-le-mul_right k last))) r quads
          room

    cell_base-slot : (row g : ℕ) → cell_base 8 row g ≡ (row * 8 + g) * 8
    unfolding cell_base
    cell_base-slot row g = omega arith

    pass_avxvnni-stores :
        (g : ℕ) (jackpot : List ℕ)
        → g < 8
        → pass_avxvnni a_eff packed a0 base k r l0 g jackpot ≡ store_all 8 (stores g) jackpot
    unfolding pass_avxvnni group_stores registers group_at stores order store_of slot acc accb
        rows_8 upto
    pass_avxvnni-stores g jackpot h =
        rw
          (
            window g h,
            cell_base-slot 0 g,
            cell_base-slot 1 g,
            cell_base-slot 2 g,
            cell_base-slot 3 g,
            cell_base-slot 4 g,
            cell_base-slot 5 g,
            cell_base-slot 6 g,
            cell_base-slot 7 g,
          )
          refl

    passes :
        (rest : List ℕ)
        → for_each 8 0
            (pass_avxvnni a_eff packed a0 base k r l0)
            (slots (cells 8 a_eff b_eff (λ i. a0 + i) k base 8 l0) 0 64 ++ rest)
          ≡ slots (cells 8 a_eff b_eff (λ i. a0 + i) k base 8 (l0 + r)) 0 64 ++ rest
    unfolding stores order slot ok acc accb fresh_all after_all fresh stored_after stored_in
        all_stored
    passes rest =
        for_each-after 8 64 slot ok (λ g. order g 0 8)
          (cells 8 a_eff b_eff (λ i. a0 + i) k base 8 l0)
          (cells 8 a_eff b_eff (λ i. a0 + i) k base 8 (l0 + r)) acc accb
          (length-cells 8 a_eff b_eff (λ i. a0 + i) k base 8 l0)
          (length-cells 8 a_eff b_eff (λ i. a0 + i) k base 8 (l0 + r))
          (λ x h. stored_cells 8 8 refl divs_8 a_eff b_eff (λ i. a0 + i) k base l0 r x.0 x.1 h) rest
          8 (pass_avxvnni a_eff packed a0 base k r l0) pass_avxvnni-stores refl refl

  pub jackpot_tile_8x64_avxvnni-four :
      (jackpot : List ℕ)
      → jackpot_tile_8x64_avxvnni a_eff packed a0 base k r jackpot
        ≡ some (four_jackpots a_eff b_eff a0 (base * 8) k r)
  unfolding jackpot_tile_8x64_avxvnni
  jackpot_tile_8x64_avxvnni-four =
      walk_tiles-four 8 8 refl divs_8 a_eff b_eff a0 k base r pos quads xor_reduce_128_avx2
        xor_reduce_128_avx2-full 8 (pass_avxvnni a_eff packed a0 base k r) passes

-- ===== src/Microkernel/Tile8/Laws.antt =====
-- `jackpot_tile_8x64_avx512` of src/microkernel.rs: on columns as the packing lays them out it gives
-- the four messages of the specification.
use aria_t.Base.{ℕ, zero, suc, ◌+◌, ◌*◌, ◌/◌, ◌%◌, ◌≤◌, ◌<◌, ◌≡◌, refl, arith}
use aria_t.Base.{List, [], ◌∷◌, ◌++◌, map, length, Bool, ltb, some}
use aria_t.Base.Words.{IsBytes}
use aria_t.Jackpot.Flat.{upto}
use aria_t.Jackpot.Tile.Walk.{strip}
use aria_t.Microkernel.{Store, for_each, store_all, xor_reduce_128}
use aria_t.Microkernel.Pieces.{prod, bias}
use aria_t.Microkernel.Packing.{columns, IsPacked, mul-le-mul_right}
use aria_t.Microkernel.Reduce.{xor_reduce_128-full}
use aria_t.Microkernel.Slots.{slots}
use aria_t.Microkernel.Stores.{
  fresh, stored_in, stored_after, all_stored, store_of, fresh_all, after_all, for_each-after,
}
use aria_t.Microkernel.Tile8.{
  Group, rows_8, group_round, empty_group, cell_base, pair_stores, pass_8x64,
  jackpot_tile_8x64_avx512,
}
use aria_t.Microkernel.Tile8.Tiles.{four_jackpots, walk_tiles-four}
use aria_t.Microkernel.Tile8.Cells.{cells, length-cells}
use aria_t.Microkernel.Tile8.Groups.{group_at, group_window}
use aria_t.Microkernel.Tile8.Turns.{columns-IsStrip, rows_8-InBatch, stored_cells}

for_each-pair {ℓ κ} :
    {A : Type ℓ} {B : Type κ} (f : ℕ → A → A) (g : ℕ → B → B) (n i : ℕ) (x : A) (y : B)
    → for_each {S = A × B} n i (λ j p. (f j p.0, g j p.1)) (x, y)
      ≡ (for_each n i f x, for_each n i g y)
unfolding for_each
for_each-pair f g zero i x y = refl
for_each-pair f g (suc n) i x y = for_each-pair f g n (i + 1) (f i x) (g i y)

-- A place is a row and a group; a pass stores its two groups row by row.
order : ℕ → ℕ → ℕ → List (ℕ × ℕ)
order gp row zero = []
order gp row (suc n) = (row, gp * 2) ∷ (row, gp * 2 + 1) ∷ order gp (row + 1) n

slot : ℕ × ℕ → ℕ
slot (row, g) = row * 4 + g

ok : ℕ × ℕ → Bool
ok (row, g) = ltb g 4

divs_4 : (q u : ℕ) → u < 4 → ((q * 4 + u) / 4 ≡ q) × ((q * 4 + u) % 4 ≡ u)
divs_4 q u h = (omega arith, omega arith)

module _ (a_eff b_eff packed : List ℕ) (a0 base k r groups : ℕ)
    (is_packed : IsPacked 16 k b_eff groups packed) (bytes : IsBytes a_eff) (pos : 0 < r)
    (quads : r % 4 ≡ 0) (rows_in : (a0 + 8) * k ≤ length a_eff) (groups_in : base + 4 ≤ groups)
    (cols_in : (base + 4) * 16 * k ≤ length b_eff) where
  module _ (l0 : ℕ) (whole : l0 % 4 ≡ 0) (room : l0 + r ≤ k) where
    acc : ℕ × ℕ → List ℕ
    acc (row, g) = map (prod l0 r (strip k a_eff (a0 + row))) (columns 16 k b_eff (base + g))

    accb : ℕ × ℕ → List ℕ
    accb (row, g) = map (bias l0 r) (columns 16 k b_eff (base + g))

    stores : ℕ → List Store
    stores gp = map (store_of 16 slot acc accb) (order gp 0 8)

    registers : ℕ → Group
    registers g = group_at 16 a_eff b_eff a0 k l0 (base + g) r

    window :
        (g : ℕ)
        → g < 4
        → for_each (r / 4) 0 (group_round 16 a_eff packed a0 k l0 (base + g)) (empty_group 16)
          ≡ registers g
    unfolding registers
    window g h =
        let last : (base + g + 1) * 16 ≤ (base + 4) * 16 = omega arith in
        group_window 16 a_eff b_eff packed a0 k l0 groups (base + g) is_packed (omega arith) whole
          bytes (rows_8-InBatch k a_eff a0 rows_in)
          (columns-IsStrip 16 k b_eff (base + g) (omega (arith, mul-le-mul_right k last))) r quads
          room

    pass-stores :
        (gp : ℕ) (jackpot : List ℕ)
        → gp < 2
        → pair_stores
            (gp * 2)
            (gp * 2 + 1)
            0
            (registers (gp * 2)).s
            (registers (gp * 2 + 1)).s
            (registers (gp * 2)).accs
            (registers (gp * 2 + 1)).accs
          ≡ stores gp
        → pass_8x64 a_eff packed a0 base k r l0 gp jackpot ≡ store_all 16 (stores gp) jackpot
    unfolding pass_8x64
    pass-stores gp jackpot h same =
        rw
          (
            for_each-pair (group_round 16 a_eff packed a0 k l0 (base + gp * 2))
                (group_round 16 a_eff packed a0 k l0 (base + (gp * 2 + 1))) (r / 4) 0
                (empty_group 16) (empty_group 16),
            window (gp * 2) (omega arith),
            window (gp * 2 + 1) (omega arith),
            same,
          )
          refl

    pass_8x64-stores :
        (gp : ℕ) (jackpot : List ℕ)
        → gp < 2
        → pass_8x64 a_eff packed a0 base k r l0 gp jackpot ≡ store_all 16 (stores gp) jackpot
    unfolding pair_stores registers group_at stores order store_of slot acc accb cell_base rows_8
        upto
    pass_8x64-stores zero jackpot h = pass-stores 0 jackpot h refl
    pass_8x64-stores (suc zero) jackpot h = pass-stores 1 jackpot h refl
    pass_8x64-stores (suc (suc gp)) jackpot h = absurd (omega arith)

    passes :
        (rest : List ℕ)
        → for_each 2 0
            (pass_8x64 a_eff packed a0 base k r l0)
            (slots (cells 16 a_eff b_eff (λ i. a0 + i) k base 4 l0) 0 32 ++ rest)
          ≡ slots (cells 16 a_eff b_eff (λ i. a0 + i) k base 4 (l0 + r)) 0 32 ++ rest
    unfolding stores order slot ok acc accb fresh_all after_all fresh stored_after stored_in
        all_stored
    passes rest =
        for_each-after 16 32 slot ok (λ gp. order gp 0 8)
          (cells 16 a_eff b_eff (λ i. a0 + i) k base 4 l0)
          (cells 16 a_eff b_eff (λ i. a0 + i) k base 4 (l0 + r)) acc accb
          (length-cells 16 a_eff b_eff (λ i. a0 + i) k base 4 l0)
          (length-cells 16 a_eff b_eff (λ i. a0 + i) k base 4 (l0 + r))
          (λ x h. stored_cells 16 4 refl divs_4 a_eff b_eff (λ i. a0 + i) k base l0 r x.0 x.1 h)
          rest 2 (pass_8x64 a_eff packed a0 base k r l0) pass_8x64-stores refl refl

  pub jackpot_tile_8x64_avx512-four :
      (jackpot : List ℕ)
      → jackpot_tile_8x64_avx512 a_eff packed a0 base k r jackpot
        ≡ some (four_jackpots a_eff b_eff a0 (base * 16) k r)
  unfolding jackpot_tile_8x64_avx512
  jackpot_tile_8x64_avx512-four =
      walk_tiles-four 16 4 refl divs_4 a_eff b_eff a0 k base r pos quads xor_reduce_128
        xor_reduce_128-full 2 (pass_8x64 a_eff packed a0 base k r) passes

-- ===== src/Microkernel/Tile8/Turns.antt =====
-- What both eight-row kernels of src/microkernel.rs share about their tile buffer, whatever the
-- width of a register: `groups` groups of `lanes` columns, 64 together.
use aria_t.Base.{ℕ, zero, suc, ◌+◌, ◌*◌, ◌/◌, ◌%◌, ◌≤◌, ◌<◌, ◌≡◌, refl, ap, ◌∙◌, arith}
use aria_t.Base.{
  List, [], ◌∷◌, ◌++◌, map, length, drop, replicate, All, true, ltb, ltb→lt, length-replicate,
}
use aria_t.Jackpot.{xor_fold, cell, tile_at}
use aria_t.Jackpot.Flat.{upto}
use aria_t.Jackpot.Rows.{map-const, cell-zero}
use aria_t.Jackpot.Tile.{range}
use aria_t.Jackpot.Tile.Walk.{strip, strips, InBatch}
use aria_t.Microkernel.{store_group, copy_at}
use aria_t.Microkernel.Pieces.{prod, bias, IsStrip, store_group-cell}
use aria_t.Microkernel.Packing.{columns, mul-le-mul_right}
use aria_t.Microkernel.Rounds.{length-columns, strip-IsStrip}
use aria_t.Microkernel.Slots.{slots}
use aria_t.Microkernel.Tile8.{rows_8}
use aria_t.Microkernel.Tile8.Cells.{
  cells, length-cells, slots_zero, range-slots, length-slots, tile_slots,
}

All-map-upto :
    (P : List ℕ → Type 0) (f : ℕ → List ℕ) (u n : ℕ)
    → ((i : ℕ) → u ≤ i → i < u + n → P (f i))
    → All P (map f (upto u n))
unfolding upto
All-map-upto P f u zero h = tt
All-map-upto P f u (suc n) h = (
  h u (omega arith) (omega arith),
  All-map-upto P f (u + 1) n λ i from to. h i (omega arith) (omega arith),
)

-- Groups of columns inside the batch.
pub columns-IsStrip :
    (lanes k : ℕ) (b : List ℕ) (grp : ℕ)
    → (grp + 1) * lanes * k ≤ length b
    → All (IsStrip k) (columns lanes k b grp)
unfolding columns
columns-IsStrip lanes k b grp room =
    All-map-upto (IsStrip k) (strip k b) (grp * lanes) lanes λ i from to.
      let up : i + 1 ≤ (grp + 1) * lanes = omega arith in
      strip-IsStrip k b i (omega (arith, mul-le-mul_right k up))

pub rows_8-InBatch :
    (k : ℕ) (a : List ℕ) (a0 : ℕ) → (a0 + 8) * k ≤ length a → All (InBatch k a) (rows_8 a0)
unfolding rows_8 upto
rows_8-InBatch k a a0 room =
    let row : (i : ℕ) → i < 8 → InBatch k a (a0 + i) =
      λ i h. let up : a0 + i + 1 ≤ a0 + 8 = omega arith in omega (arith, mul-le-mul_right k up) in
    (
      row 0 (omega arith),
      (
        row 1 (omega arith),
        (
          row 2 (omega arith),
          (
            row 3 (omega arith),
            (
              row 4 (omega arith),
              (row 5 (omega arith), (row 6 (omega arith), (row 7 (omega arith), tt))),
            ),
          ),
        ),
      ),
    )

module _ (lanes groups : ℕ) (wide : groups * lanes ≡ 64)
    (divs : (q u : ℕ)
      → u < groups
      → ((q * groups + u) / groups ≡ q) × ((q * groups + u) % groups ≡ u))
    (a_eff b_eff : List ℕ) (row_at : ℕ → ℕ) (k base : ℕ) where
  -- The store of a group's registers into the slot of its row.
  pub stored_cells :
      (n r row g : ℕ)
      → ltb g groups ≡ true
      → store_group
          (cells lanes a_eff b_eff row_at k base groups n (row * groups + g))
          (map (prod n r (strip k a_eff (row_at row))) (columns lanes k b_eff (base + g)))
          (map (bias n r) (columns lanes k b_eff (base + g)))
        ≡ cells lanes a_eff b_eff row_at k base groups (n + r) (row * groups + g)
  unfolding cells
  stored_cells n r row g h =
      let at = divs row g (ltb→lt g groups h) in
      rw (at.0, at.1)
        (store_group-cell n r (strip k a_eff (row_at row)) (columns lanes k b_eff (base + g)))

  -- A buffer that was zeroed holds the tiles before the first block.
  pub cells_start :
      (jackpot : List ℕ) (m size : ℕ)
      → m * lanes ≡ size
      → copy_at jackpot 0 (replicate size 0)
        ≡ slots (cells lanes a_eff b_eff row_at k base groups 0) 0 m ++ drop size jackpot
  unfolding copy_at cells
  cells_start jackpot m size e =
      let zeros = slots_zero lanes (cells lanes a_eff b_eff row_at k base groups 0) 0 m λ i.
        rw (length-columns lanes k b_eff (base + i % groups)) at (
          map-const (cell 0 (strip k a_eff (row_at (i / groups))))
            (columns lanes k b_eff (base + i % groups))
            (cell-zero (strip k a_eff (row_at (i / groups))))) in
      let whole : 0 + length {A = ℕ} (replicate size 0) ≡ size =
        omega (arith, length-replicate {A = ℕ} size 0) in
      rw (zeros, e, whole) refl

  module _ (reduce : List ℕ → ℕ)
      (reduces : (p : List ℕ) → length p ≡ 128 → reduce p ≡ xor_fold 0 p) where
    pub fold_cells :
        (n t : ℕ) (rest : List ℕ)
        → t < 4
        → reduce (
            range
              (slots (cells lanes a_eff b_eff row_at k base groups n) 0 (8 * groups) ++ rest)
              (t * 128)
              (t * 128 + 128))
          ≡ xor_fold 0 (
              tile_at
                (strips k a_eff (row_at (t * 2) ∷ row_at (t * 2 + 1) ∷ []))
                (strips k b_eff (upto (base * lanes) 64))
                n)
    fold_cells n t rest h =
        let s = cells lanes a_eff b_eff row_at k base groups n in
        let two = groups + groups in
        let last : t + 1 ≤ 4 = omega arith in
        let room : t * two + two ≤ 8 * groups = omega (arith, mul-le-mul_right groups last) in
        let read =
          range-slots lanes s rest (t * two) two (8 * groups) (t * 128) (t * 128 + 128)
            (length-cells lanes a_eff b_eff row_at k base groups n) room
            (omega (arith, ap (λ (x : ℕ). t * x) wide)) (omega (arith, wide)) in
        let size : length (slots s (t * two) two) ≡ 128 = omega (
          arith,
          wide,
          length-slots lanes s (t * two) two
              (length-cells lanes a_eff b_eff row_at k base groups n),
        ) in
        ap reduce read
        ∙ reduces (slots s (t * two) two) size
        ∙ ap (xor_fold 0) (rw wide at (tile_slots lanes a_eff b_eff row_at k base groups n divs t))

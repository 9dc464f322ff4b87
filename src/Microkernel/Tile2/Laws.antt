-- ===== src/Microkernel/Tile2/Laws.antt =====
-- `jackpot_tile_2x64_avx512` of src/microkernel.rs: on columns as the packing lays them out it gives
-- the message of its two rows.
use aria_t.Base.{ℕ, zero, suc, ◌+◌, ◌-◌, ◌*◌, ◌/◌, ◌%◌, ◌≤◌, ◌<◌, ◌≡◌, refl, ap, ap₂, ◌∙◌, arith}
use aria_t.Base.{
  List, [], ◌∷◌, ◌++◌, map, length, take, drop, replicate, All, Bool, true, ◌&&◌, ltb, ltb→lt, some,
  get_or, length-append,
}
use aria_t.Base.Words.{IsBytes}
use aria_t.Jackpot.{xor_fold, tile_at, jackpot_of, jackpot_size}
use aria_t.Jackpot.Blocks.{walk_blocks-jackpot}
use aria_t.Jackpot.Flat.{upto}
use aria_t.Jackpot.Tile.{range}
use aria_t.Jackpot.Tile.Walk.{strip, strips, InBatch}
use aria_t.Microkernel.{for_each, Store, store_group, store_all, add_lanes, copy_at, xor_reduce_128}
use aria_t.Microkernel.Lanes.{add_lanes-map, map-ext}
use aria_t.Microkernel.Pieces.{prod, bias, IsStrip}
use aria_t.Microkernel.Packing.{columns, IsPacked, mul-le-mul_right}
use aria_t.Microkernel.Rounds.{strip-IsStrip, strip-IsBytes}
use aria_t.Microkernel.Reduce.{xor_reduce_128-fold}
use aria_t.Microkernel.Slots.{slots}
use aria_t.Microkernel.Stores.{
  fresh, stored_in, stored_after, all_stored, store_of, fresh_all, after_all, for_each-after,
}
use aria_t.Microkernel.Tile2.{Halves, row_stores, round_2x64, jackpot_tile_2x64_avx512}
use aria_t.Microkernel.Tile2.Steps.{AddUp, Walked, halves_at, four_empty, pair_loop-window}
use aria_t.Microkernel.Tile8.Cells.{cells, length-cells, length-slots, range-slots, tile_slots}
use aria_t.Microkernel.Tile8.Turns.{columns-IsStrip, stored_cells, cells_start}

-- A place is a row and a group.
order : ℕ → List (ℕ × ℕ)
order row = (row, 0) ∷ (row, 1) ∷ (row, 2) ∷ (row, 3) ∷ []

slot : ℕ × ℕ → ℕ
slot (row, g) = row * 4 + g

ok : ℕ × ℕ → Bool
ok (row, g) = ltb row 2 && ltb g 4

divs_4 : (q u : ℕ) → u < 4 → ((q * 4 + u) / 4 ≡ q) × ((q * 4 + u) % 4 ≡ u)
divs_4 q u h = (omega arith, omega arith)

four : (base : ℕ) → upto base 4 ≡ (base + 0) ∷ (base + 1) ∷ (base + 2) ∷ (base + 3) ∷ []
unfolding upto
four base =
    let here : base ≡ base + 0 = omega arith in
    let two : base + 1 + 1 ≡ base + 2 = omega arith in
    let three : base + 1 + 1 + 1 ≡ base + 3 = omega arith in
    ap₂ ◌∷◌ here (ap₂ (λ (x y : ℕ). (base + 1) ∷ x ∷ y ∷ []) two three)

module _ (a_eff b_eff packed : List ℕ) (a0 a1 base k r groups : ℕ)
    (is_packed : IsPacked 16 k b_eff groups packed) (bytes : IsBytes a_eff) (pos : 0 < r)
    (quads : r % 4 ≡ 0) (in_0 : InBatch k a_eff a0) (in_1 : InBatch k a_eff a1)
    (groups_in : base + 4 ≤ groups) (cols_in : groups * 16 * k ≤ length b_eff) where
  row_at : ℕ → ℕ
  row_at i = get_or (a0 ∷ a1 ∷ []) i 0

  row_at-InBatch : (row : ℕ) → row < 2 → InBatch k a_eff (row_at row)
  unfolding row_at
  row_at-InBatch zero h = in_0
  row_at-InBatch (suc zero) h = in_1
  row_at-InBatch (suc (suc row)) h = absurd (omega arith)

  long : (g : ℕ) → g < groups → All (IsStrip k) (columns 16 k b_eff g)
  long g h =
      let up : (g + 1) * 16 ≤ groups * 16 = omega arith in
      columns-IsStrip 16 k b_eff g (omega (arith, mul-le-mul_right k up))

  module _ (l0 : ℕ) (whole : l0 % 4 ≡ 0) (room : l0 + r ≤ k) (f g : List ℕ → List ℕ → ℕ)
      (sums : AddUp k l0 r f g) where
    acc : ℕ × ℕ → List ℕ
    acc (row, grp) =
        add_lanes (map (f (strip k a_eff (row_at row))) (columns 16 k b_eff (base + grp)))
          (map (g (strip k a_eff (row_at row))) (columns 16 k b_eff (base + grp)))

    accb : ℕ × ℕ → List ℕ
    accb (row, grp) = map (bias l0 r) (columns 16 k b_eff (base + grp))

    acc-prod :
        (row grp : ℕ)
        → row < 2
        → grp < 4
        → acc (row, grp)
          ≡ map (prod l0 r (strip k a_eff (row_at row))) (columns 16 k b_eff (base + grp))
    unfolding acc AddUp
    acc-prod row grp hr h =
        let a = strip k a_eff (row_at row) in
        let inside : InBatch k a_eff (row_at row) = row_at-InBatch row hr in
        add_lanes-map (f a) (g a) (columns 16 k b_eff (base + grp))
        ∙ map-ext _ (prod l0 r a) (IsStrip k) (columns 16 k b_eff (base + grp))
            (long (base + grp) (omega arith))
            λ c lc.
              sums a c (strip-IsBytes k a_eff (row_at row) bytes)
                (strip-IsStrip k a_eff (row_at row) inside) lc

    hs : List Halves
    hs =
        map (halves_at a_eff b_eff (a0 ∷ a1 ∷ []) k l0 r f g)
          ((base + 0) ∷ (base + 1) ∷ (base + 2) ∷ (base + 3) ∷ [])

    row_stores-order :
        (row : ℕ)
        → row < 2
        → row_stores row (row * 64) hs ≡ map (store_of 16 slot acc accb) (order row)
    unfolding row_stores hs halves_at store_of order slot acc accb row_at
    row_stores-order zero h = refl
    row_stores-order (suc zero) h = refl
    row_stores-order (suc (suc row)) h = absurd (omega arith)

    place_stored :
        (x : ℕ × ℕ)
        → ok x ≡ true
        → store_group (cells 16 a_eff b_eff row_at k base 4 l0 (slot x)) (acc x) (accb x)
          ≡ cells 16 a_eff b_eff row_at k base 4 (l0 + r) (slot x)
    unfolding ok slot accb
    place_stored (row, grp) h =
        let inner : ltb row 2 ≡ true = ground (arith, h) in
        let below : ltb grp 4 ≡ true = ground (arith, h) in
        rw (acc-prod row grp (ltb→lt row 2 inner) (ltb→lt grp 4 below))
          (stored_cells 16 4 refl divs_4 a_eff b_eff row_at k base l0 r row grp below)

    rows_stored :
        (rest : List ℕ)
        → store_all 16 (row_stores 1 64 hs) (
            store_all 16
              (row_stores 0 0 hs)
              (slots (cells 16 a_eff b_eff row_at k base 4 l0) 0 8 ++ rest))
          ≡ slots (cells 16 a_eff b_eff row_at k base 4 (l0 + r)) 0 8 ++ rest
    unfolding for_each order slot ok fresh_all after_all fresh stored_after stored_in all_stored
    rows_stored rest =
        for_each-after 16 8 slot ok order (cells 16 a_eff b_eff row_at k base 4 l0)
          (cells 16 a_eff b_eff row_at k base 4 (l0 + r)) acc accb
          (length-cells 16 a_eff b_eff row_at k base 4 l0)
          (length-cells 16 a_eff b_eff row_at k base 4 (l0 + r)) place_stored rest 2
          (λ row. store_all 16 (row_stores row (row * 64) hs))
          (λ row jackpot h.
            ap (λ (t : List Store). store_all 16 t jackpot) (row_stores-order row h))
          refl refl

  round-cells :
      (l0 : ℕ) (rest : List ℕ)
      → l0 % 4 ≡ 0
      → l0 + r ≤ k
      → round_2x64 a_eff packed a0 a1 base k r
          (l0 + r)
          (slots (cells 16 a_eff b_eff row_at k base 4 l0) 0 8 ++ rest)
        ≡ slots (cells 16 a_eff b_eff row_at k base 4 (l0 + r)) 0 8 ++ rest
  unfolding round_2x64 Walked hs
  round-cells l0 rest whole room =
      let from : l0 + r - r ≡ l0 = omega arith in
      let walked =
        pair_loop-window a_eff b_eff packed (a0 ∷ a1 ∷ []) k l0 r base groups is_packed bytes
          (in_0, (in_1, tt)) whole quads room groups_in long in
      rw (from, ← four_empty a_eff b_eff a0 a1 k l0 base, walked.3, four base)
        (rows_stored l0 whole room walked.0 walked.1 walked.2 rest)

  -- The tile of both rows, in the first 128 cells.
  Holds : List ℕ → ℕ → List ℕ → Type 0
  Holds rest b jackpot = jackpot ≡ slots (cells 16 a_eff b_eff row_at k base 4 (b * r)) 0 8 ++ rest

  round-Holds :
      (rest : List ℕ) (b : ℕ) (jackpot : List ℕ)
      → Holds rest b jackpot
      → (b + 1) * r ≤ k
      → Holds rest (b + 1) (round_2x64 a_eff packed a0 a1 base k r ((b + 1) * r) jackpot)
  unfolding Holds
  round-Holds rest b jackpot holds room =
      let to : (b + 1) * r ≡ b * r + r = omega arith in
      let by_four : r ≡ r / 4 * 4 = omega arith in
      let whole : b * r % 4 ≡ 0 = omega (arith, ap (λ (t : ℕ). b * t) by_four) in
      rw (holds, to) (round-cells (b * r) rest whole (omega arith))

  fold_tile :
      (rest : List ℕ) (b : ℕ) (jackpot : List ℕ)
      → Holds rest b jackpot
      → xor_reduce_128 jackpot
        ≡ xor_fold 0
            (tile_at (strips k a_eff (a0 ∷ a1 ∷ [])) (strips k b_eff (upto (base * 16) 64)) (b * r))
  unfolding Holds range row_at
  fold_tile rest b jackpot holds =
      let s = cells 16 a_eff b_eff row_at k base 4 (b * r) in
      let wide = length-cells 16 a_eff b_eff row_at k base 4 (b * r) in
      let size : 128 ≤ length jackpot =
        omega
          (arith, ap length holds, length-append (slots s 0 8) rest, length-slots 16 s 0 8 wide) in
      xor_reduce_128-fold jackpot size
      ∙ ap (λ (t : List ℕ). xor_fold 0 (take 128 t)) holds
      ∙ ap (xor_fold 0) (
          range-slots 16 s rest 0 8 8 0 128 wide (omega arith) refl refl
          ∙ tile_slots 16 a_eff b_eff row_at k base 4 (b * r) divs_4 0)

  pub jackpot_tile_2x64_avx512-walk :
      (jackpot : List ℕ)
      → jackpot_tile_2x64_avx512 a_eff packed a0 a1 base k r jackpot
        ≡ some
            (jackpot_of (strips k a_eff (a0 ∷ a1 ∷ [])) (strips k b_eff (upto (base * 16) 64)) k r)
  unfolding jackpot_tile_2x64_avx512 Holds
  jackpot_tile_2x64_avx512-walk jackpot =
      let rest = drop 128 jackpot in
      let none_yet : 0 * r ≡ 0 = omega arith in
      walk_blocks-jackpot k r (round_2x64 a_eff packed a0 a1 base k r) xor_reduce_128
        (λ ll blk. blk % jackpot_size) (strips k a_eff (a0 ∷ a1 ∷ []))
        (strips k b_eff (upto (base * 16) 64)) (Holds rest) pos (round-Holds rest)
        (λ b buf holds room. fold_tile rest b buf holds) (λ b. refl)
        (copy_at jackpot 0 (replicate 128 0))
        (rw none_yet (cells_start 16 4 refl divs_4 a_eff b_eff row_at k base jackpot 8 128 refl))

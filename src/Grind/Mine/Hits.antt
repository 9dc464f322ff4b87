-- ===== src/Grind/Mine/Hits.antt =====
-- The search of `try_mine_one_bounded` (src/official_grind.rs) on either path.
use mathlib.Core.List.{append-nil}
use aria_t.Base.{
  ℕ, zero, suc, ◌+◌, ◌*◌, ◌%◌, ◌≤◌, ◌<◌, ◌≡◌, refl, ap, ap₂, ◌∙◌, arith, List, [], ◌∷◌, ◌++◌,
}
use aria_t.Base.{
  All, All-append, length, get_or, length-append, Bool, true, false, Option, none, some,
}
use aria_t.Base.Words.{IsByte, IsBytes}
use aria_t.Cpu.{Cpu}
use aria_t.Jackpot.{jackpot_of}
use aria_t.Jackpot.Flat.{upto}
use aria_t.Jackpot.Tile.{tile_cells}
use aria_t.Jackpot.Tile.Laws.{tile_jackpot_flat-jackpot}
use aria_t.Jackpot.Tile.Walk.{strips, InBatch}
use aria_t.Microkernel.Packing.{mul-le-mul_right}
use aria_t.Microkernel.Packed.{
  jackpot_tile_2x64_avx512-jackpot, jackpot_tile_8x64_avx512-jackpots,
  jackpot_tile_8x64_avxvnni-jackpots,
}
use aria_t.Microkernel.Tile8.Tiles.{four_jackpots}
use aria_t.Engine.{messages}
use aria_t.Engine.Tiles.{tile_message, four_jackpots-messages}
use aria_t.Grind.Search.{panels}
use aria_t.Grind.Search.Loops.{SweptAll, panels-SweptAll}
use aria_t.Grind.Mine.{chosen, flat_message, four_tiles, one_tile, pack_cols}
use aria_t.Grind.Mine.Gather.{flat, gathered, gathered-IsBytes, length-gathered-flat, strips-tile}

-- The specified message of a tile.
unfoldable pub message : ℕ → ℕ → (a b : List ℕ) → (rows cols : List ℕ) → List ℕ
message k rank a b rows cols = jackpot_of (strips k a rows) (strips k b cols) k rank

-- What a search says of the tiles: no tile passes, or the one returned is a tile that passes.
unfoldable pub Decides :
    (List ℕ → Bool)
    → ℕ
    → ℕ
    → (a b : List ℕ) → (row_tiles col_tiles : List (List ℕ)) → Option (List ℕ × List ℕ)
    → Type 0
Decides pass k rank a b row_tiles col_tiles none =
    (t ci : ℕ)
    → t < length row_tiles
    → ci < length col_tiles
    → pass (message k rank a b (get_or row_tiles t []) (get_or col_tiles ci [])) ≡ false
Decides pass k rank a b row_tiles col_tiles (some (rows, cols)) =
    (t : ℕ) × (ci : ℕ) × (t < length row_tiles)
    × (ci < length col_tiles)
    × (rows ≡ get_or row_tiles t [])
    × (cols ≡ get_or col_tiles ci [])
    × (pass (message k rank a b rows cols) ≡ true)

-- A tile of `w` rows of the batch.
abbrev pub IsTile : ℕ → ℕ → List ℕ → List ℕ → Type 0
IsTile w k buf xs = (length xs ≡ w) × All (InBatch k buf) xs

pub All-get {ℓ} :
    (P : List ℕ → Type ℓ) (xss : List (List ℕ)) (t : ℕ)
    → All P xss
    → t < length xss
    → P (get_or xss t [])
All-get P [] t h lt = absurd (omega arith)
All-get P (xs ∷ xss) zero h lt = h.0
All-get P (xs ∷ xss) (suc t) h lt = All-get P xss t h.1 (omega arith)

module _ (cpu : Cpu) (pass : List ℕ → Bool) (k rank : ℕ) (a b : List ℕ) (bytes : IsBytes a)
    (pos : 0 < rank) where
  pub flat_message-lem :
      (h w : ℕ) (rows cols : List ℕ)
      → h * w ≤ tile_cells
      → IsTile h k a rows
      → IsTile w k b cols
      → flat_message cpu pass k rank a b rows cols ≡ message k rank a b rows cols
  unfolding flat_message message messages
  flat_message-lem h w rows cols small in_a in_b =
      let size : length rows * length cols ≡ h * w = ap₂ ◌*◌ in_a.0 in_b.0 in
      rw
        (tile_jackpot_flat-jackpot a b rows cols k rank pos bytes in_a.1 in_b.1 cpu (rw size small))
        refl

  module _ (row_tiles col_tiles : List (List ℕ)) (rest scratch out : List ℕ) (quads : rank % 4 ≡ 0)
      (in_a : All (IsTile 2 k a) row_tiles) (in_b : All (IsTile 64 k b) col_tiles)
      (rest_bytes : IsBytes rest) (cells : 512 ≤ length scratch) where
    -- The message of a position, in the rows and columns in tile order.
    tile_message-chosen :
        (t ci : ℕ)
        → t < length row_tiles
        → ci < length col_tiles
        → tile_message
            (gathered k a (flat row_tiles) ++ rest)
            (gathered k b (flat col_tiles))
            k
            rank
            t
            ci
          ≡ message k rank a b (get_or row_tiles t []) (get_or col_tiles ci [])
    unfolding tile_message message upto
    tile_message-chosen t ci h c =
        let row_at : 0 + t * 2 ≡ t * 2 = omega arith in
        let col_at : 0 + ci * 64 ≡ ci * 64 = omega arith in
        let rows = strips-tile k a 2 row_tiles 0 t [] rest (omega arith) in_a h in
        let cols = strips-tile k b 64 col_tiles 0 ci [] [] (omega arith) in_b c in
        ap₂ (λ (x y : List (List ℕ)). jackpot_of x y k rank) (rw row_at at rows)
          (rw (col_at, append-nil (gathered k b (flat col_tiles))) at cols)

    -- The rows and the columns in tile order, and their packing.
    length-rows :
        length (gathered k a (flat row_tiles) ++ rest) ≡ length row_tiles * 2 * k + length rest
    length-rows =
        length-append (gathered k a (flat row_tiles)) rest
        ∙ ap (λ (n : ℕ). n + length rest) (length-gathered-flat k a 2 row_tiles in_a)

    rows-IsBytes : IsBytes (gathered k a (flat row_tiles) ++ rest)
    rows-IsBytes =
        All-append IsByte (gathered k a (flat row_tiles)) rest
          (gathered-IsBytes k a (flat row_tiles) bytes) rest_bytes

    length-cols : length (gathered k b (flat col_tiles)) ≡ length col_tiles * 64 * k
    length-cols = length-gathered-flat k b 64 col_tiles in_b

    row-InBatch :
        (r t : ℕ)
        → t < length row_tiles
        → r < 2
        → InBatch k (gathered k a (flat row_tiles) ++ rest) (2 * t + r)
    row-InBatch r t h small =
        let up : 2 * t + r + 1 ≤ length row_tiles * 2 = omega arith in
        omega (arith, length-rows, mul-le-mul_right k up)

    one_tile-message :
        (avx512 : Bool) (t ci : ℕ)
        → t < length row_tiles
        → ci < length col_tiles
        → one_tile cpu pass k rank a b avx512
            (gathered k a (flat row_tiles) ++ rest)
            (pack_cols avx512 (gathered k b (flat col_tiles)) (length col_tiles * 64) k out)
            scratch
            row_tiles
            col_tiles
            t
            ci
          ≡ message k rank a b (get_or row_tiles t []) (get_or col_tiles ci [])
    unfolding one_tile messages tile_message pack_cols
    one_tile-message true t ci h c =
        let first : 2 * t ≡ t * 2 = omega arith in
        let start : 2 * t + 0 ≡ 2 * t = omega arith in
        let at : ci * 4 * 16 ≡ ci * 64 = omega arith in
        let kernel =
          jackpot_tile_2x64_avx512-jackpot (gathered k b (flat col_tiles)) (length col_tiles * 64) k
            length-cols (gathered k a (flat row_tiles) ++ rest) rank rows-IsBytes pos quads out
            scratch (2 * t) (2 * t + 1) (ci * 4) (rw start at (row-InBatch 0 t h (omega arith)))
            (row-InBatch 1 t h (omega arith)) (omega arith) (omega arith) in
        ap messages kernel ∙ rw (first, at) (tile_message-chosen t ci h c)
    one_tile-message false t ci h c =
        flat_message-lem 2 64 (get_or row_tiles t []) (get_or col_tiles ci []) (omega arith)
          (All-get (IsTile 2 k a) row_tiles t in_a h) (All-get (IsTile 64 k b) col_tiles ci in_b c)

    rows-in :
        (t : ℕ)
        → t + 4 ≤ length row_tiles
        → (2 * t + 8) * k ≤ length (gathered k a (flat row_tiles) ++ rest)
    rows-in t h =
        let up : 2 * t + 8 ≤ length row_tiles * 2 = omega arith in
        omega (arith, length-rows, mul-le-mul_right k up)

    four_tiles-tiles :
        (avx512 : Bool) (t ci : ℕ)
        → t + 4 ≤ length row_tiles
        → ci < length col_tiles
        → four_tiles cpu pass k rank a b avx512
            (gathered k a (flat row_tiles) ++ rest)
            (pack_cols avx512 (gathered k b (flat col_tiles)) (length col_tiles * 64) k out)
            scratch
            row_tiles
            col_tiles
            t
            ci
          ≡ four_jackpots
              (gathered k a (flat row_tiles) ++ rest)
              (gathered k b (flat col_tiles))
              (t * 2)
              (ci * 64)
              k
              rank
    unfolding four_tiles messages pack_cols
    four_tiles-tiles true t ci h c =
        let first : 2 * t ≡ t * 2 = omega arith in
        let at : ci * 4 * 16 ≡ ci * 64 = omega arith in
        let kernel =
          jackpot_tile_8x64_avx512-jackpots (gathered k b (flat col_tiles)) (length col_tiles * 64)
            k length-cols (gathered k a (flat row_tiles) ++ rest) rank rows-IsBytes pos quads out
            scratch (2 * t) (ci * 4) (rows-in t h) (omega arith) cells in
        ap messages kernel ∙ rw (first, at) refl
    four_tiles-tiles false t ci h c =
        let first : 2 * t ≡ t * 2 = omega arith in
        let at : ci * 8 * 8 ≡ ci * 64 = omega arith in
        let kernel =
          jackpot_tile_8x64_avxvnni-jackpots (gathered k b (flat col_tiles)) (length col_tiles * 64)
            k length-cols (gathered k a (flat row_tiles) ++ rest) rank rows-IsBytes pos quads out
            scratch (2 * t) (ci * 8) (rows-in t h) (omega arith) cells in
        ap messages kernel ∙ rw (first, at) refl

    four_tiles-message :
        (avx512 : Bool) (t ci : ℕ)
        → t + 4 ≤ length row_tiles
        → ci < length col_tiles
        → four_tiles cpu pass k rank a b avx512
            (gathered k a (flat row_tiles) ++ rest)
            (pack_cols avx512 (gathered k b (flat col_tiles)) (length col_tiles * 64) k out)
            scratch
            row_tiles
            col_tiles
            t
            ci
          ≡ message k rank a b (get_or row_tiles t []) (get_or col_tiles ci [])
            ∷ message k rank a b (get_or row_tiles (t + 1) []) (get_or col_tiles ci [])
            ∷ message k rank a b (get_or row_tiles (t + 2) []) (get_or col_tiles ci [])
            ∷ message k rank a b (get_or row_tiles (t + 3) []) (get_or col_tiles ci [])
            ∷ []
    four_tiles-message avx512 t ci h c =
        four_tiles-tiles avx512 t ci h c
        ∙ four_jackpots-messages (gathered k a (flat row_tiles) ++ rest)
            (gathered k b (flat col_tiles)) k rank t ci
        ∙ rw
            (
              tile_message-chosen t ci (omega arith) c,
              tile_message-chosen (t + 1) ci (omega arith) c,
              tile_message-chosen (t + 2) ci (omega arith) c,
              tile_message-chosen (t + 3) ci (omega arith) c,
            )
            refl

    chosen-Decides :
        (r : Option (ℕ × ℕ))
        → SweptAll
            (λ t ci. pass (message k rank a b (get_or row_tiles t []) (get_or col_tiles ci [])))
            0
            (length row_tiles)
            0
            (length col_tiles)
            r
        → Decides pass k rank a b row_tiles col_tiles (chosen row_tiles col_tiles r)
    unfolding SweptAll Decides chosen
    chosen-Decides none swept = λ t ci h c. swept t ci (omega arith) h (omega arith) c
    chosen-Decides (some (t, ci)) swept = (t, ci, swept.1, swept.3, refl, refl, swept.4)

    pub panels-Decides :
        (avx512 : Bool) (panel : ℕ)
        → 0 < panel
        → Decides pass k rank a b row_tiles col_tiles (
            chosen row_tiles col_tiles (
              panels pass
                (four_tiles cpu pass k rank a b avx512
                  (gathered k a (flat row_tiles) ++ rest)
                  (pack_cols avx512 (gathered k b (flat col_tiles)) (length col_tiles * 64) k out)
                  scratch
                  row_tiles
                  col_tiles)
                (one_tile cpu pass k rank a b avx512
                  (gathered k a (flat row_tiles) ++ rest)
                  (pack_cols avx512 (gathered k b (flat col_tiles)) (length col_tiles * 64) k out)
                  scratch
                  row_tiles
                  col_tiles)
                (length row_tiles)
                (length row_tiles)
                (length col_tiles)
                panel
                0))
    panels-Decides avx512 panel some_panel = chosen-Decides _ (
        panels-SweptAll pass _ _
          (λ t ci. message k rank a b (get_or row_tiles t []) (get_or col_tiles ci []))
          (length row_tiles) (length col_tiles) (four_tiles-message avx512)
          (one_tile-message avx512) panel some_panel)

-- ===== src/Engine/Tiles.antt =====
-- The tiles that `grind_thread` (src/cpu_engine.rs) tests, four at once or one by one.
use aria_t.Base.{ℕ, zero, suc, ◌+◌, ◌*◌, ◌/◌, ◌%◌, ◌≤◌, ◌<◌, ◌≡◌, refl, ap, ◌∙◌, arith}
use aria_t.Base.{List, [], ◌∷◌, map, length, Bool, true, false, if◌then◌else◌}
use aria_t.Base.Words.{IsBytes}
use aria_t.Cpu.{Cpu}
use aria_t.Jackpot.{jackpot_of}
use aria_t.Jackpot.Flat.{upto}
use aria_t.Jackpot.Flat.Laws.{length-upto, upto-InBatch}
use aria_t.Jackpot.Tile.Walk.{strips, InBatch}
use aria_t.Jackpot.Tile.Laws.{jackpot_tile_flat-jackpot}
use aria_t.Microkernel.{pack_b_16, pack_b_8}
use aria_t.Microkernel.Packing.{mul-le-mul_right}
use aria_t.Microkernel.Packed.{
  jackpot_tile_2x64_avx512-jackpot, jackpot_tile_8x64_avx512-jackpots,
  jackpot_tile_8x64_avxvnni-jackpots,
}
use aria_t.Microkernel.Tile8.Tiles.{four_jackpots}
use aria_t.Noise.{MmSlice}
use aria_t.Engine.{messages, four_tiles, one_tile}

upto-map : (s u n : ℕ) → map (λ v. s + v) (upto u n) ≡ upto (s + u) n
unfolding upto
upto-map s u zero = refl
upto-map s u (suc n) =
    let next : s + (u + 1) ≡ s + u + 1 = omega arith in
    ap (◌∷◌ (s + u)) (rw next at (upto-map s (u + 1) n))

-- The specified message of the tile at a row group and a column group of the batch.
unfoldable pub tile_message : (a b : List ℕ) → (k r rg cg : ℕ) → List ℕ
tile_message a b k r rg cg =
    jackpot_of (strips k a ((rg * 2) ∷ (rg * 2 + 1) ∷ [])) (strips k b (upto (cg * 64) 64)) k r

pub four_jackpots-messages :
    (a b : List ℕ) (k r rg cg : ℕ)
    → four_jackpots a b (rg * 2) (cg * 64) k r
      ≡ tile_message a b k r rg cg
        ∷ tile_message a b k r (rg + 1) cg
        ∷ tile_message a b k r (rg + 2) cg
        ∷ tile_message a b k r (rg + 3) cg
        ∷ []
unfolding four_jackpots tile_message upto
four_jackpots-messages a b k r rg cg =
    let row_0 : rg * 2 + 0 ≡ rg * 2 = omega arith in
    let row_2 : rg * 2 + 2 ≡ (rg + 1) * 2 = omega arith in
    let row_3 : rg * 2 + 3 ≡ (rg + 1) * 2 + 1 = omega arith in
    let row_4 : rg * 2 + 4 ≡ (rg + 2) * 2 = omega arith in
    let row_5 : rg * 2 + 5 ≡ (rg + 2) * 2 + 1 = omega arith in
    let row_6 : rg * 2 + 6 ≡ (rg + 3) * 2 = omega arith in
    let row_7 : rg * 2 + 7 ≡ (rg + 3) * 2 + 1 = omega arith in
    rw (row_0, row_2, row_3, row_4, row_5, row_6, row_7) refl

module _ (blake3 : List ℕ → List ℕ) (keyed_hash : List ℕ → List ℕ → List ℕ)
    (uniform : (label seed indices : List ℕ) → ℕ → List (List ℕ))
    (perm : (label seed : List ℕ) → ℕ → ℕ → List (ℕ × ℕ))
    (noise : ℕ → ℕ → List ℕ × List ℕ → List ℕ → List ℕ → MmSlice) (cpu : Cpu) (stop : ℕ → Bool)
    (m_batch n_batch panel_rg k r : ℕ) (a b out jackpot : List ℕ) (cg : ℕ) where
  -- The columns as the selected kernel expects them.
  unfoldable pub packed : Bool → List ℕ
  packed use_micro512 = if use_micro512 then pack_b_16 b n_batch k out else pack_b_8 b n_batch k out

  -- One tile and four tiles on the columns packed so.
  unfoldable pub one : (use_micro512 : Bool) → ℕ → List ℕ
  one use_micro512 rg =
      one_tile blake3 keyed_hash uniform perm noise cpu stop m_batch n_batch panel_rg k r
        use_micro512 a b (packed use_micro512) jackpot 2 64 rg cg

  unfoldable pub four : (use_micro512 : Bool) → ℕ → List (List ℕ)
  four use_micro512 rg =
      four_tiles blake3 keyed_hash uniform perm noise cpu stop m_batch n_batch panel_rg k r
        use_micro512 a b (packed use_micro512) jackpot 2 64 rg cg

  module _ (bytes : IsBytes a) (pos : 0 < r) (quads : r % 4 ≡ 0) (size_a : length a ≡ m_batch * k)
      (size_b : length b ≡ n_batch * k) (room : 512 ≤ length jackpot)
      (col_in : cg < n_batch / 64) where
    row-InBatch : (rg i : ℕ) → rg < m_batch / 2 → i < 2 → InBatch k a (rg * 2 + i)
    row-InBatch rg i h small =
        let up : rg * 2 + i + 1 ≤ m_batch = omega arith in
        omega (arith, size_a, mul-le-mul_right k up)

    one_tile-message :
        (use_micro512 : Bool) (rg : ℕ)
        → rg < m_batch / 2
        → one use_micro512 rg ≡ tile_message a b k r rg cg
    unfolding one one_tile messages packed tile_message upto
    one_tile-message true rg h =
        let z : rg * 2 + 0 ≡ rg * 2 = omega arith in
        let at : cg * 4 * 16 ≡ cg * 64 = omega arith in
        rw
          (
            jackpot_tile_2x64_avx512-jackpot b n_batch k size_b a r bytes pos quads out jackpot
                (rg * 2 + 0) (rg * 2 + 1) (cg * 4) (row-InBatch rg 0 h (omega arith))
                (row-InBatch rg 1 h (omega arith)) (omega arith) (omega arith),
            z,
            at,
          )
          refl
    one_tile-message false rg h =
        let z : rg * 2 + 0 ≡ rg * 2 = omega arith in
        let start : cg * 64 + 0 ≡ cg * 64 = omega arith in
        let last : cg * 64 + 64 ≤ n_batch = omega arith in
        let in_b = upto-InBatch k b 64 (cg * 64) (omega (arith, size_b, mul-le-mul_right k last)) in
        let flat =
          jackpot_tile_flat-jackpot a b ((rg * 2 + 0) ∷ (rg * 2 + 1) ∷ []) (upto (cg * 64) 64) k r
            pos bytes (row-InBatch rg 0 h (omega arith), (row-InBatch rg 1 h (omega arith), tt))
            in_b cpu jackpot (omega (arith, length-upto (cg * 64) 64)) in
        rw (upto-map (cg * 64) 0 64, start) (ap messages flat ∙ rw z refl)

    four_tiles-message :
        (use_micro512 : Bool) (rg : ℕ)
        → rg + 4 ≤ m_batch / 2
        → four use_micro512 rg
          ≡ tile_message a b k r rg cg
            ∷ tile_message a b k r (rg + 1) cg
            ∷ tile_message a b k r (rg + 2) cg
            ∷ tile_message a b k r (rg + 3) cg
            ∷ []
    unfolding four four_tiles messages packed
    four_tiles-message true rg h =
        let below : (rg + 4) * 2 ≤ m_batch = omega arith in
        let at : cg * 4 * 16 ≡ cg * 64 = omega arith in
        let kernel =
          jackpot_tile_8x64_avx512-jackpots b n_batch k size_b a r bytes pos quads out jackpot
            (rg * 2) (cg * 4) (omega (arith, size_a, mul-le-mul_right k below)) (omega arith)
            room in
        ap messages kernel ∙ rw at (four_jackpots-messages a b k r rg cg)
    four_tiles-message false rg h =
        let below : (rg + 4) * 2 ≤ m_batch = omega arith in
        let at : cg * 8 * 8 ≡ cg * 64 = omega arith in
        let kernel =
          jackpot_tile_8x64_avxvnni-jackpots b n_batch k size_b a r bytes pos quads out jackpot
            (rg * 2) (cg * 8) (omega (arith, size_a, mul-le-mul_right k below)) (omega arith)
            room in
        ap messages kernel ∙ rw at (four_jackpots-messages a b k r rg cg)

    -- For a batch of whole rows with a positive rank of whole steps of four columns and a buffer of
    -- at least 512 cells, at a column group of the batch and a row group with three more behind it, on either vector path and with the columns
    -- packed for it, the four tiles that the sweep takes at once have the messages that it computes
    -- for them one by one, and these are the specified ones.
    pub four_tiles-one_tile :
        (use_micro512 : Bool) (rg : ℕ)
        → rg + 4 ≤ m_batch / 2
        → (four use_micro512 rg
            ≡ one use_micro512 rg
              ∷ one use_micro512 (rg + 1)
              ∷ one use_micro512 (rg + 2)
              ∷ one use_micro512 (rg + 3)
              ∷ [])
          × (one use_micro512 rg ≡ tile_message a b k r rg cg)
    four_tiles-one_tile use_micro512 rg h = (
      rw
          (
            one_tile-message use_micro512 rg (omega arith),
            one_tile-message use_micro512 (rg + 1) (omega arith),
            one_tile-message use_micro512 (rg + 2) (omega arith),
            one_tile-message use_micro512 (rg + 3) (omega arith),
          )
          (four_tiles-message use_micro512 rg h),
      one_tile-message use_micro512 rg (omega arith),
    )

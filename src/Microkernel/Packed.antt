-- ===== src/Microkernel/Packed.antt =====
-- The kernels of src/microkernel.rs on the columns that its packing functions lay out, as
-- `grind_thread` (src/cpu_engine.rs) calls them.
use aria_t.Base.{ℕ, ◌+◌, ◌*◌, ◌/◌, ◌%◌, ◌≤◌, ◌<◌, ◌≡◌, arith, List, [], ◌∷◌, length, some}
use aria_t.Base.Words.{IsBytes}
use aria_t.Jackpot.{jackpot_of}
use aria_t.Jackpot.Flat.{upto}
use aria_t.Jackpot.Tile.Walk.{strips, InBatch}
use aria_t.Microkernel.{pack_b, pack_b_16, pack_b_8}
use aria_t.Microkernel.Packing.{columns, IsPacked, mul-le-mul_right, pack_b-IsPacked}
use aria_t.Microkernel.Tile2.{jackpot_tile_2x64_avx512}
use aria_t.Microkernel.Tile2.Laws.{jackpot_tile_2x64_avx512-walk}
use aria_t.Microkernel.Tile8.{jackpot_tile_8x64_avx512, jackpot_tile_8x64_avxvnni}
use aria_t.Microkernel.Tile8.Tiles.{four_jackpots}
use aria_t.Microkernel.Tile8.Laws.{jackpot_tile_8x64_avx512-four}
use aria_t.Microkernel.Tile8.Vnni.{jackpot_tile_8x64_avxvnni-four}
use aria_t.Microkernel.Pieces.{quad}
use aria_t.Jackpot.Tile.{range}
use mathlib.Core.List.{flat_map}
use native.Mathlib.Nat.{div-mul-le_self}

module _ (b_eff : List ℕ) (n_cols k : ℕ) (size : length b_eff ≡ n_cols * k) where
  packed :
      (lanes : ℕ) (out : List ℕ)
      → IsPacked lanes k b_eff (n_cols / lanes) (pack_b lanes b_eff n_cols k out)
  packed lanes out = pack_b-IsPacked lanes b_eff n_cols k size out

  -- Whatever the buffer held and whatever its length, after the packing into groups of `lanes`
  -- columns the `lanes * 4` bytes of group `grp` at step `kk` are the four bytes of each column of
  -- that group at that step, for every whole group and every whole step.
  pack_b-range :
      (lanes : ℕ) (out : List ℕ) (grp kk : ℕ)
      → grp < n_cols / lanes
      → kk < k / 4
      → range
          (pack_b lanes b_eff n_cols k out)
          ((grp * (k / 4) + kk) * (lanes * 4))
          ((grp * (k / 4) + kk) * (lanes * 4) + lanes * 4)
        ≡ flat_map (quad (kk * 4)) (columns lanes k b_eff grp)
  unfolding IsPacked
  pack_b-range lanes out = packed lanes out

  packed_16 : (out : List ℕ) → IsPacked 16 k b_eff (n_cols / 16) (pack_b_16 b_eff n_cols k out)
  unfolding pack_b_16
  packed_16 out = packed 16 out

  packed_8 : (out : List ℕ) → IsPacked 8 k b_eff (n_cols / 8) (pack_b_8 b_eff n_cols k out)
  unfolding pack_b_8
  packed_8 out = packed 8 out

  module _ (a_eff : List ℕ) (r : ℕ) (bytes : IsBytes a_eff) (pos : 0 < r) (quads : r % 4 ≡ 0)
      (out jackpot : List ℕ) where
    inside : (lanes : ℕ) → n_cols / lanes * lanes * k ≤ length b_eff
    inside lanes = omega (arith, size, mul-le-mul_right k (div-mul-le_self n_cols lanes))

    -- For two rows of the batch and four packed groups of 16 columns, with a positive rank of whole
    -- steps of four columns and a buffer of at least 128 cells, the two-row kernel returns the specified
    -- message of the two rows and the 64 columns.
    pub jackpot_tile_2x64_avx512-jackpot :
        (a0 a1 base : ℕ)
        → InBatch k a_eff a0
        → InBatch k a_eff a1
        → base + 4 ≤ n_cols / 16
        → 128 ≤ length jackpot
        → jackpot_tile_2x64_avx512 a_eff (pack_b_16 b_eff n_cols k out) a0 a1 base k r jackpot
          ≡ some (
              jackpot_of (strips k a_eff (a0 ∷ a1 ∷ [])) (strips k b_eff (upto (base * 16) 64)) k r)
    jackpot_tile_2x64_avx512-jackpot a0 a1 base in_0 in_1 groups_in room =
        jackpot_tile_2x64_avx512-walk a_eff b_eff (pack_b_16 b_eff n_cols k out) a0 a1 base k r
          (n_cols / 16) (packed_16 out) bytes pos quads in_0 in_1 groups_in (inside 16) jackpot

    -- For eight rows of the batch from `a0` on, four packed groups of 16 columns, a positive rank of
    -- whole steps of four columns and a buffer of at least 512 cells, the eight-row kernel returns the
    -- specified messages of its four pairs of rows.
    pub jackpot_tile_8x64_avx512-jackpots :
        (a0 base : ℕ)
        → (a0 + 8) * k ≤ length a_eff
        → base + 4 ≤ n_cols / 16
        → 512 ≤ length jackpot
        → jackpot_tile_8x64_avx512 a_eff (pack_b_16 b_eff n_cols k out) a0 base k r jackpot
          ≡ some (four_jackpots a_eff b_eff a0 (base * 16) k r)
    jackpot_tile_8x64_avx512-jackpots a0 base rows_in groups_in room =
        let below : (base + 4) * 16 ≤ n_cols / 16 * 16 = omega arith in
        jackpot_tile_8x64_avx512-four a_eff b_eff (pack_b_16 b_eff n_cols k out) a0 base k r
          (n_cols / 16) (packed_16 out) bytes pos quads rows_in groups_in
          (omega (arith, inside 16, mul-le-mul_right k below)) jackpot

    -- For eight rows of the batch from `a0` on, eight packed groups of 8 columns, a positive rank of
    -- whole steps of four columns and a buffer of at least 512 cells, the 256-bit kernel returns the
    -- specified messages of its four pairs of rows.
    pub jackpot_tile_8x64_avxvnni-jackpots :
        (a0 base : ℕ)
        → (a0 + 8) * k ≤ length a_eff
        → base + 8 ≤ n_cols / 8
        → 512 ≤ length jackpot
        → jackpot_tile_8x64_avxvnni a_eff (pack_b_8 b_eff n_cols k out) a0 base k r jackpot
          ≡ some (four_jackpots a_eff b_eff a0 (base * 8) k r)
    jackpot_tile_8x64_avxvnni-jackpots a0 base rows_in groups_in room =
        let below : (base + 8) * 8 ≤ n_cols / 8 * 8 = omega arith in
        jackpot_tile_8x64_avxvnni-four a_eff b_eff (pack_b_8 b_eff n_cols k out) a0 base k r
          (n_cols / 8) (packed_8 out) bytes pos quads rows_in groups_in
          (omega (arith, inside 8, mul-le-mul_right k below)) jackpot

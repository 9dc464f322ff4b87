-- ===== src/Grind/Mine.antt =====
-- The tiles of `try_mine_one_bounded` (src/official_grind.rs) in their order and the choice between
-- the fast path and the fallback, on noised matrices. The panel of the environment and the test of a
-- message are parameters.
pub mod Gather
pub mod Hits
pub mod Paths
use mathlib.Core.List.{flat_map}
use Prim.Native.Nat.{bit_and}
use aria_t.Base.{
  ℕ, zero, suc, ◌+◌, ◌*◌, ◌/◌, ◌%◌, List, [], ◌∷◌, ◌++◌, map, length, take, drop, get_or,
}
use aria_t.Base.{Bool, ◌&&◌, ◌||◌, not, ◌==◌, if◌then◌else◌, Option, none, some}
use aria_t.Base.Results.{Outcome, ok, ◌>>=◌}
use aria_t.Cpu.{Cpu}
use aria_t.Jackpot.Tile.{range, tile_jackpot_flat}
use aria_t.Microkernel.{copy_at, pack_b_16, pack_b_8}
use aria_t.Microkernel.Tile2.{jackpot_tile_2x64_avx512}
use aria_t.Microkernel.Tile8.{jackpot_tile_8x64_avx512, jackpot_tile_8x64_avxvnni}
use aria_t.Noise.{MmSlice, add_noise_into_fast}
use aria_t.Engine.{messages}
use aria_t.Grind.{Workspace, ensure, compute_commitment_hash}
use aria_t.Grind.Partition.{Pattern, threads_partition}
use aria_t.Grind.Search.{passes, panels}

-- A row of a flat matrix, `&m[i * k..i * k + k]`.
abbrev pub row : ℕ → List ℕ → ℕ → List ℕ
row k src i = range src (i * k) (i * k + k)

-- `for (t, rt) in row_tiles.iter().enumerate()`: the two rows of each tile, in tile order.
unfoldable pub tile_rows : ℕ → List ℕ → ℕ → List (List ℕ) → List ℕ → List ℕ
tile_rows k src t [] buf = buf
tile_rows k src t (rt ∷ tiles) buf = tile_rows k src (t + 1) tiles (
    copy_at (copy_at buf (2 * t * k) (row k src (get_or rt 0 0))) ((2 * t + 1) * k)
      (row k src (get_or rt 1 0)))

-- `for (j, &c) in b_cols.iter().enumerate()`, from row `at` of the buffer on.
unfoldable pub tile_cols : ℕ → List ℕ → ℕ → List ℕ → List ℕ → List ℕ
tile_cols k src at [] buf = buf
tile_cols k src at (c ∷ cols) buf =
    tile_cols k src (at + 1) cols (copy_at buf (at * k) (row k src c))

-- `for (ci, b_cols) in col_tiles.iter().enumerate()`
unfoldable pub all_cols : ℕ → ℕ → List ℕ → ℕ → List (List ℕ) → List ℕ → List ℕ
all_cols k tile_w src ci [] buf = buf
all_cols k tile_w src ci (cols ∷ tiles) buf =
    all_cols k tile_w src (ci + 1) tiles (tile_cols k src (ci * tile_w) cols buf)

-- The columns in the groups of the kernel that the host has.
unfoldable pub pack_cols : Bool → List ℕ → ℕ → ℕ → List ℕ → List ℕ
pack_cols avx512 cols total_cols k out =
    if avx512 then pack_b_16 cols total_cols k out else pack_b_8 cols total_cols k out

-- The buffers that the search writes, and the rows and columns of the tile that passed.
pub record Searched : Type 0 where
  pub a_tiled : List ℕ
  pub b_all : List ℕ
  pub b_packed : List ℕ
  pub hit : Option (List ℕ × List ℕ)

-- The tile at a position.
unfoldable pub chosen : List (List ℕ) → List (List ℕ) → Option (ℕ × ℕ) → Option (List ℕ × List ℕ)
chosen row_tiles col_tiles none = none
chosen row_tiles col_tiles (some (t, ci)) = some (get_or row_tiles t [], get_or col_tiles ci [])

-- An early return of a hit, or the rest of the loop.
unfoldable pub or_next :
    Option (List ℕ × List ℕ)
    → Outcome (Option (List ℕ × List ℕ))
    → Outcome (Option (List ℕ × List ℕ))
or_next (some hit) rest = ok (some hit)
or_next none rest = rest

module _ (cpu : Cpu) (pass : List ℕ → Bool) (k rank : ℕ) (a_noised b_noised_t : List ℕ) where
  -- The message of a tile by the per-cell function.
  unfoldable pub flat_message : (a_rows b_cols : List ℕ) → List ℕ
  flat_message a_rows b_cols =
      messages (tile_jackpot_flat cpu a_rows b_cols a_noised b_noised_t rank k)

  unfoldable pub fallback_cols : List ℕ → List (List ℕ) → Option (List ℕ × List ℕ)
  fallback_cols a_rows [] = none
  fallback_cols a_rows (b_cols ∷ tiles) =
      let rest = fallback_cols a_rows tiles in
      if pass (flat_message a_rows b_cols) then some (a_rows, b_cols) else rest

  unfoldable pub fallback :
      Outcome (List (List ℕ)) → List (List ℕ) → Outcome (Option (List ℕ × List ℕ))
  fallback col_partition [] = ok none
  fallback col_partition (a_rows ∷ tiles) = do
    col_tiles ← col_partition
    or_next (fallback_cols a_rows col_tiles) (fallback col_partition tiles)

  module _ (avx512 : Bool) (a_tiled b_packed scratch : List ℕ)
      (row_tiles col_tiles : List (List ℕ)) where
    -- Four tiles from row tile `t` on, and one tile.
    unfoldable pub four_tiles : ℕ → ℕ → List (List ℕ)
    four_tiles t ci =
        if avx512
        then messages (jackpot_tile_8x64_avx512 a_tiled b_packed (2 * t) (ci * 4) k rank scratch)
        else messages (jackpot_tile_8x64_avxvnni a_tiled b_packed (2 * t) (ci * 8) k rank scratch)

    unfoldable pub one_tile : ℕ → ℕ → List ℕ
    one_tile t ci =
        if avx512
        then messages
            (jackpot_tile_2x64_avx512 a_tiled b_packed (2 * t) (2 * t + 1) (ci * 4) k rank scratch)
        else flat_message (get_or row_tiles t []) (get_or col_tiles ci [])

  -- The fast path, with the buffers as the workspace had them.
  unfoldable pub fast_search :
      Bool → ℕ → ℕ → Workspace → (row_tiles col_tiles : List (List ℕ)) → Searched
  fast_search avx512 panel tile_w ws row_tiles col_tiles =
      let nt = length row_tiles in
      let a_tiled = tile_rows k a_noised 0 row_tiles ws.a_tiled in
      let total_cols = length col_tiles * tile_w in
      let b_all = all_cols k tile_w b_noised_t 0 col_tiles ws.b_all in
      let cols = take (total_cols * k) b_all in
      let b_packed = pack_cols avx512 cols total_cols k ws.b_packed in
      record {
        a_tiled = a_tiled;
        b_all = b_all;
        b_packed = b_packed;
        hit = chosen row_tiles col_tiles (
            panels pass (four_tiles avx512 a_tiled b_packed ws.scratch row_tiles col_tiles)
              (one_tile avx512 a_tiled b_packed ws.scratch row_tiles col_tiles) nt nt
              (length col_tiles) panel 0);
      }

  unfoldable pub fast_path :
      Bool → ℕ → (rows_pattern cols_pattern : Pattern) → ℕ → ℕ → Workspace → Outcome Searched
  fast_path avx512 panel rows_pattern cols_pattern m n ws = do
    row_tiles ← threads_partition rows_pattern m
    col_tiles ← threads_partition cols_pattern n
    ok (fast_search avx512 panel (length cols_pattern.to_list) ws row_tiles col_tiles)

  unfoldable pub slow_path :
      (rows_pattern cols_pattern : Pattern) → ℕ → ℕ → Workspace → Outcome Searched
  slow_path rows_pattern cols_pattern m n ws = do
    row_tiles ← threads_partition rows_pattern m
    hit ← fallback (threads_partition cols_pattern n) row_tiles
    ok record { a_tiled = ws.a_tiled; b_all = ws.b_all; b_packed = ws.b_packed; hit = hit }

  -- The choice between the fast path and the fallback.
  unfoldable pub search_tiles :
      ℕ → (rows_pattern cols_pattern : Pattern) → ℕ → ℕ → Workspace → Outcome Searched
  search_tiles panel rows_pattern cols_pattern m n ws =
      let tile_h = length rows_pattern.to_list in
      let tile_w = length cols_pattern.to_list in
      let avx512 = cpu.avx512vnni && cpu.avx512bw && cpu.avx512f in
      let avxvnni = not avx512 && cpu.avxvnni in
      if tile_h == 2 && tile_w == 64 && k % 4 == 0 && (avx512 || avxvnni)
      then fast_path avx512 panel rows_pattern cols_pattern m n ws
      else slow_path rows_pattern cols_pattern m n ws

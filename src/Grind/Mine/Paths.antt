-- ===== src/Grind/Mine/Paths.antt =====
-- Both paths of the search in `try_mine_one_bounded` (src/official_grind.rs), from the patterns of the
-- configuration on.
use aria_t.Base.{ℕ, zero, suc, ◌+◌, ◌*◌, ◌%◌, ◌≤◌, ◌<◌, ◌≡◌, refl, arith, List, [], ◌∷◌, map}
use aria_t.Base.{
  All, All-drop, length, drop, get_or, length-map, Bool, true, false, not, ◌&&◌, ◌||◌, ◌==◌, Option,
  none, some, inl, inr, Bool-cases, Option-cases,
}
use aria_t.Base.Words.{IsByte, IsBytes}
use aria_t.Base.Results.{ok}
use aria_t.Cpu.{Cpu}
use aria_t.Jackpot.Flat.{upto}
use aria_t.Jackpot.Tile.{tile_cells}
use aria_t.Jackpot.Rows.{take-append}
use aria_t.Jackpot.Tile.Walk.{InBatch}
use aria_t.Microkernel.Packing.{mul-le-mul_right}
use aria_t.Grind.{Workspace}
use aria_t.Grind.Buffers.{IsReady}
use aria_t.Grind.Partition.{Pattern, filter, is_multiple_of, threads_partition}
use aria_t.Grind.Mine.{
  Searched, fallback_cols, fallback, or_next, fast_search, fast_path, slow_path, search_tiles,
}
use aria_t.Grind.Mine.Gather.{
  flat, gathered, length-gathered-flat, all_cols-gathered, tile_rows-gathered,
}
use aria_t.Grind.Mine.Hits.{message, Decides, IsTile, flat_message-lem, panels-Decides}

-- What the consensus library promises of a pattern on a dimension: the period divides it, no tile
-- reaches past it, and the tiles have as many indices as it has.
pub record IsTiling (pattern : Pattern) (total : ℕ) : Type 0 where
  pub divides : is_multiple_of total pattern.period ≡ true
  pub inside :
      (offset : ℕ)
      → offset < total
      → pattern.offset_is_valid offset ≡ true
      → All (λ d. offset + d < total) pattern.to_list
  pub covers :
      length (filter pattern.offset_is_valid (upto 0 total)) * length pattern.to_list ≡ total

-- The tiles of a dimension that the pattern tiles.
unfoldable pub tiles_of : Pattern → ℕ → List (List ℕ)
tiles_of pattern total =
    map (λ offset. map (λ d. offset + d) pattern.to_list)
      (filter pattern.offset_is_valid (upto 0 total))

threads_partition-tiles_of :
    (pattern : Pattern) (total : ℕ)
    → IsTiling pattern total
    → threads_partition pattern total ≡ ok (tiles_of pattern total)
unfolding threads_partition tiles_of
threads_partition-tiles_of pattern total tiling = rw tiling.divides refl

module _ (pattern : Pattern) (k : ℕ) (buf : List ℕ) (total : ℕ)
    (size : length buf ≡ total * k) where
  offsets-InBatch :
      (offset : ℕ) (ds : List ℕ)
      → All (λ d. offset + d < total) ds
      → All (InBatch k buf) (map (λ d. offset + d) ds)
  offsets-InBatch offset [] h = tt
  offsets-InBatch offset (d ∷ ds) h =
      let up : offset + d + 1 ≤ total = omega arith in
      (omega (arith, size, mul-le-mul_right k up), offsets-InBatch offset ds h.1)

  tiles-IsTile :
      (n u : ℕ)
      → u + n ≡ total
      → IsTiling pattern total
      → All (IsTile (length pattern.to_list) k buf) (
          map
            (λ offset. map (λ d. offset + d) pattern.to_list)
            (filter pattern.offset_is_valid (upto u n)))
  unfolding filter upto
  tiles-IsTile zero u e tiling = tt
  tiles-IsTile (suc n) u e tiling = elim (Bool-cases (pattern.offset_is_valid u)) [
    | inl valid ↦ rw valid (
      (
        length-map (λ d. u + d) pattern.to_list,
        offsets-InBatch u pattern.to_list (tiling.inside u (omega arith) valid),
      ),
      tiles-IsTile n (u + 1) (omega arith) tiling,
    )
    | inr other ↦ rw other (tiles-IsTile n (u + 1) (omega arith) tiling)
  ]

  tiles_of-IsTile :
      IsTiling pattern total → All (IsTile (length pattern.to_list) k buf) (tiles_of pattern total)
  unfolding tiles_of
  tiles_of-IsTile tiling = tiles-IsTile total 0 (omega arith) tiling

module _ (cpu : Cpu) (pass : List ℕ → Bool) (k rank : ℕ) (a b : List ℕ) (bytes : IsBytes a)
    (pos : 0 < rank) where
  -- A column tile that fails before others, and a row tile before others.
  Decides-col :
      (rows cols : List ℕ) (tiles : List (List ℕ)) (hit : Option (List ℕ × List ℕ))
      → pass (message k rank a b rows cols) ≡ false
      → Decides pass k rank a b (rows ∷ []) tiles hit
      → Decides pass k rank a b (rows ∷ []) (cols ∷ tiles) hit
  unfolding Decides
  Decides-col rows cols tiles none e d = all
    where
      all :
          (t ci : ℕ)
          → t < 1
          → ci < suc (length tiles)
          → pass (message k rank a b (get_or (rows ∷ []) t []) (get_or (cols ∷ tiles) ci []))
            ≡ false
      all zero zero h c = e
      all zero (suc ci) h c = d 0 ci h (omega arith)
      all (suc t) ci h c = absurd (omega arith)
  Decides-col rows cols tiles (some (rows', cols')) e d =
      let (t, ci, h, c, row, col, good) = d in (t, suc ci, h, omega (arith, c), row, col, good)

  Decides-row :
      (rows : List ℕ) (row_tiles col_tiles : List (List ℕ)) (hit : Option (List ℕ × List ℕ))
      → Decides pass k rank a b (rows ∷ []) col_tiles none
      → Decides pass k rank a b row_tiles col_tiles hit
      → Decides pass k rank a b (rows ∷ row_tiles) col_tiles hit
  unfolding Decides
  Decides-row rows row_tiles col_tiles none first d = all
    where
      all :
          (t ci : ℕ)
          → t < suc (length row_tiles)
          → ci < length col_tiles
          → pass (message k rank a b (get_or (rows ∷ row_tiles) t []) (get_or col_tiles ci []))
            ≡ false
      all zero ci h c = first 0 ci (omega arith) c
      all (suc t) ci h c = d t ci (omega arith) c
  Decides-row rows row_tiles col_tiles (some (rows', cols')) first d =
      let (t, ci, h, c, row, col, good) = d in (suc t, ci, omega (arith, h), c, row, col, good)

  Decides-here :
      (rows : List ℕ) (row_tiles col_tiles : List (List ℕ)) (hit : List ℕ × List ℕ)
      → Decides pass k rank a b (rows ∷ []) col_tiles (some hit)
      → Decides pass k rank a b (rows ∷ row_tiles) col_tiles (some hit)
  unfolding Decides
  Decides-here rows row_tiles col_tiles (rows', cols') (zero, ci, h, c, row, col, good) =
      (0, ci, omega arith, c, row, col, good)
  Decides-here rows row_tiles col_tiles (rows', cols') (suc t, ci, h, c, row, col, good) =
      absurd (omega (arith, h))

  -- One row tile against the column tiles that are left.
  module _ (h w : ℕ) (small : h * w ≤ tile_cells) where
    fallback_cols-Decides :
        (a_rows : List ℕ) (tiles : List (List ℕ))
        → IsTile h k a a_rows
        → All (IsTile w k b) tiles
        → Decides pass k rank a b
            (a_rows ∷ [])
            tiles
            (fallback_cols cpu pass k rank a b a_rows tiles)
    unfolding fallback_cols Decides
    fallback_cols-Decides a_rows [] in_a in_b = λ t ci lt lt'. absurd (omega arith)
    fallback_cols-Decides a_rows (cols ∷ tiles) in_a in_b =
        let e = flat_message-lem cpu pass k rank a b bytes pos h w a_rows cols small in_a in_b.0 in
        elim (Bool-cases (pass (message k rank a b a_rows cols))) [
          | inl good ↦ rw (e, good) (0, 0, omega arith, omega arith, refl, refl, good)
          | inr bad ↦
              rw (e, bad)
                (Decides-col a_rows cols tiles (fallback_cols cpu pass k rank a b a_rows tiles) bad
                  (fallback_cols-Decides a_rows tiles in_a in_b.1))
        ]

    fallback-Decides :
        (row_tiles col_tiles : List (List ℕ))
        → All (IsTile h k a) row_tiles
        → All (IsTile w k b) col_tiles
        → (hit : Option (List ℕ × List ℕ)) × (fallback cpu pass k rank a b (ok col_tiles) row_tiles
            ≡ ok hit)
          × Decides pass k rank a b row_tiles col_tiles hit
    unfolding fallback or_next Decides
    fallback-Decides [] col_tiles in_a in_b = (none, refl, λ t ci lt lt'. absurd (omega arith))
    fallback-Decides (a_rows ∷ row_tiles) col_tiles in_a in_b =
        let here = fallback_cols-Decides a_rows col_tiles in_a.0 in_b in
        elim (Option-cases (fallback_cols cpu pass k rank a b a_rows col_tiles)) [
          | inl e ↦
              let (hit, run, d) = fallback-Decides row_tiles col_tiles in_a.1 in_b in
              (hit, rw e run, Decides-row a_rows row_tiles col_tiles hit (rw e at here) d)
          | inr (found, e) ↦
              (some found, rw e refl, Decides-here a_rows row_tiles col_tiles found (rw e at here))
        ]

  fast_search-Decides :
      (avx512 : Bool) (panel m n : ℕ) (ws : Workspace) (row_tiles col_tiles : List (List ℕ))
      → 0 < panel
      → rank % 4 ≡ 0
      → All (IsTile 2 k a) row_tiles
      → All (IsTile 64 k b) col_tiles
      → IsBytes ws.a_tiled
      → 512 ≤ length ws.scratch
      → Decides pass k rank a b row_tiles col_tiles
          (fast_search cpu pass k rank a b avx512 panel 64 ws row_tiles col_tiles).hit
  unfolding fast_search
  fast_search-Decides avx512 panel m n ws row_tiles col_tiles some_panel quads in_a in_b old cells =
      let rest = drop (length (flat row_tiles) * k) ws.a_tiled in
      let left = drop (length (flat col_tiles) * k) ws.b_all in
      let size : length (gathered k b (flat col_tiles)) ≡ length col_tiles * 64 * k =
        length-gathered-flat k b 64 col_tiles in_b in
      rw
        (
          tile_rows-gathered k a row_tiles ws.a_tiled in_a,
          all_cols-gathered k b 64 col_tiles ws.b_all in_b,
          take-append (length col_tiles * 64 * k) (gathered k b (flat col_tiles)) left size,
        )
        (panels-Decides cpu pass k rank a b bytes pos row_tiles col_tiles rest ws.scratch
          ws.b_packed quads in_a in_b (All-drop IsByte (length (flat row_tiles) * k) ws.a_tiled old)
          cells avx512 panel some_panel)

  -- The search returns, and what it returns decides the tiles of the patterns.
  abbrev Ends : ℕ → (rows_pattern cols_pattern : Pattern) → ℕ → ℕ → Workspace → Type 0
  Ends panel rows_pattern cols_pattern m n ws =
      (s : Searched) × (search_tiles cpu pass k rank a b panel rows_pattern cols_pattern m n ws
        ≡ ok s)
      × Decides pass k rank a b (tiles_of rows_pattern m) (tiles_of cols_pattern n) s.hit

  module _ (panel : ℕ) (rows_pattern cols_pattern : Pattern) (m n : ℕ) (ws : Workspace)
      (size_a : length a ≡ m * k) (size_b : length b ≡ n * k) (tiling_a : IsTiling rows_pattern m)
      (tiling_b : IsTiling cols_pattern n) where
    in_rows : All (IsTile (length rows_pattern.to_list) k a) (tiles_of rows_pattern m)
    in_rows = tiles_of-IsTile rows_pattern k a m size_a tiling_a

    in_cols : All (IsTile (length cols_pattern.to_list) k b) (tiles_of cols_pattern n)
    in_cols = tiles_of-IsTile cols_pattern k b n size_b tiling_b

    -- For patterns that tile the two dimensions, tiles of at most 256 cells, a rank of whole steps of
    -- four columns, noised matrices of bytes of the sizes of the batch and a workspace that is ready
    -- for it, the search returns on every host and with every positive panel. If it returns a tile
    -- then that is a tile of the patterns whose specified message passes the test of the bound, and
    -- if it returns none then the message of every tile of the patterns fails it.
    pub search_tiles-Decides :
        0 < panel
        → rank % 4 ≡ 0
        → length rows_pattern.to_list * length cols_pattern.to_list ≤ tile_cells
        → IsReady m n k ws
        → IsBytes ws.a_tiled
        → Ends panel rows_pattern cols_pattern m n ws
    unfolding search_tiles fast_path slow_path
    search_tiles-Decides some_panel quads small ready old =
        let rows_of = threads_partition-tiles_of rows_pattern m tiling_a in
        let cols_of = threads_partition-tiles_of cols_pattern n tiling_b in
        let tile_h = length rows_pattern.to_list in
        let tile_w = length cols_pattern.to_list in
        let avx512 = cpu.avx512vnni && cpu.avx512bw && cpu.avx512f in
        let vectors = avx512 || (not avx512 && cpu.avxvnni) in
        elim (Bool-cases (tile_h == 2 && tile_w == 64 && k % 4 == 0 && vectors)) [
          | inl e ↦
              let two : tile_h ≡ 2 = ground arith in
              let wide : tile_w ≡ 64 = ground arith in
              (
                fast_search cpu pass k rank a b avx512 panel 64 ws (tiles_of rows_pattern m)
                    (tiles_of cols_pattern n),
                rw (e, rows_of, cols_of, wide) refl,
                fast_search-Decides avx512 panel m n ws (tiles_of rows_pattern m)
                    (tiles_of cols_pattern n) some_panel quads (rw two at in_rows)
                    (rw wide at in_cols) old ready.cells,
              )
          | inr e ↦
              let (hit, run, decided) =
                fallback-Decides tile_h tile_w small (tiles_of rows_pattern m)
                  (tiles_of cols_pattern n) in_rows in_cols in
              (
                record {
                  a_tiled = ws.a_tiled;
                  b_all = ws.b_all;
                  b_packed = ws.b_packed;
                  hit = hit;
                },
                rw (e, rows_of, cols_of, run) refl,
                decided,
              )
        ]

-- ===== src/Grind/Mine/Gather.antt =====
-- The rows that `try_mine_one_bounded` (src/official_grind.rs) copies in tile order are the strips of
-- the tiles.
use mathlib.Core.List.{flat_map}
use aria_t.Base.{
  ℕ, zero, suc, ◌+◌, ◌-◌, ◌*◌, ◌<◌, ◌≡◌, refl, sym, ap, ap₂, ◌∙◌, arith, List, [], ◌∷◌, ◌++◌,
}
use aria_t.Base.Words.{IsByte, IsBytes}
use aria_t.Base.{
  All, All-append, All-take, All-drop, length, drop, get_or, length-append, length-take,
  length-drop, drop-drop,
}
use aria_t.Jackpot.Flat.{upto}
use aria_t.Jackpot.Rows.{append_assoc, take-append, drop-append}
use aria_t.Jackpot.Tile.{range}
use aria_t.Jackpot.Tile.Walk.{strip, strips, InBatch}
use aria_t.Microkernel.Writes.{copy_at-append}
use aria_t.Grind.Mine.{row, tile_rows, tile_cols, all_cols}

-- The indices of all tiles in a row.
unfoldable pub flat : List (List ℕ) → List ℕ
flat [] = []
flat (xs ∷ xss) = xs ++ flat xss

module _ (k : ℕ) (src : List ℕ) where
  row-strip : (i : ℕ) → row k src i ≡ strip k src i
  unfolding range strip
  row-strip i = let e : i * k + k - i * k ≡ k = omega arith in rw e refl

  length-strip : (i : ℕ) → InBatch k src i → length (strip k src i) ≡ k
  unfolding strip
  length-strip i h = omega (arith, length-take k (drop (i * k) src), length-drop (i * k) src)

  -- The strips of these indices, one after another.
  unfoldable pub gathered : List ℕ → List ℕ
  gathered idx = flat_map (strip k src) idx

  pub length-gathered :
      (idx : List ℕ) → All (InBatch k src) idx → length (gathered idx) ≡ length idx * k
  unfolding gathered flat_map
  length-gathered [] h = omega arith
  length-gathered (i ∷ idx) h = omega (
    arith,
    length-append (strip k src i) (flat_map (strip k src) idx),
    length-strip i h.0,
    length-gathered idx h.1,
  )

  gathered-append : (xs ys : List ℕ) → gathered (xs ++ ys) ≡ gathered xs ++ gathered ys
  unfolding gathered flat_map
  gathered-append [] ys = refl
  gathered-append (x ∷ xs) ys =
      rw (gathered-append xs ys) (sym (append_assoc (strip k src x) (gathered xs) (gathered ys)))

  -- The copies from row `at` on, behind what was copied before.
  pub tile_cols-gathered :
      (idx : List ℕ) (at : ℕ) (pre rest : List ℕ)
      → length pre ≡ at * k
      → All (InBatch k src) idx
      → tile_cols k src at idx (pre ++ rest) ≡ (pre ++ gathered idx) ++ drop (length idx * k) rest
  unfolding tile_cols gathered flat_map
  tile_cols-gathered [] at pre rest e h =
      let z : 0 * k ≡ 0 = omega arith in rw (z, append_assoc pre [] rest) refl
  tile_cols-gathered (i ∷ idx) at pre rest e h =
      let wide = length-strip i h.0 in
      let more : length idx * k + k ≡ suc (length idx) * k = omega arith in
      rw
        (
          row-strip i,
          copy_at-append pre rest (strip k src i) (at * k) e,
          wide,
          ← append_assoc pre (strip k src i) (flat_map (strip k src) idx),
          ← drop-drop (length idx * k) k (suc (length idx) * k) rest more,
        )
        (tile_cols-gathered idx (at + 1) (pre ++ strip k src i) (drop k rest)
          (omega (arith, length-append pre (strip k src i))) h.1)

  tile_cols-append :
      (xs ys : List ℕ) (at : ℕ) (buf : List ℕ)
      → tile_cols k src at (xs ++ ys) buf
        ≡ tile_cols k src (at + length xs) ys (tile_cols k src at xs buf)
  unfolding tile_cols
  tile_cols-append [] ys at buf = let z : at + 0 ≡ at = omega arith in rw z refl
  tile_cols-append (x ∷ xs) ys at buf =
      let e : at + 1 + length xs ≡ at + suc (length xs) = omega arith in
      rw (tile_cols-append xs ys (at + 1), e) refl

  -- Both gathers are one run over the indices of all tiles.
  pub all_cols-flat :
      (w ci : ℕ) (tiles : List (List ℕ)) (buf : List ℕ)
      → All (λ cols. length cols ≡ w) tiles
      → all_cols k w src ci tiles buf ≡ tile_cols k src (ci * w) (flat tiles) buf
  unfolding all_cols flat tile_cols
  all_cols-flat w ci [] buf h = refl
  all_cols-flat w ci (cols ∷ tiles) buf h =
      let e : (ci + 1) * w ≡ ci * w + length cols = omega (arith, h.0) in
      all_cols-flat w (ci + 1) tiles (tile_cols k src (ci * w) cols buf) h.1
      ∙ rw (e, tile_cols-append cols (flat tiles) (ci * w) buf) refl

  pub tile_rows-flat :
      (t : ℕ) (tiles : List (List ℕ)) (buf : List ℕ)
      → All (λ rows. length rows ≡ 2) tiles
      → tile_rows k src t tiles buf ≡ tile_cols k src (2 * t) (flat tiles) buf
  unfolding tile_rows flat tile_cols
  tile_rows-flat t [] buf h = refl
  tile_rows-flat t ([] ∷ tiles) buf h = absurd (omega (arith, h.0))
  tile_rows-flat t ((x ∷ []) ∷ tiles) buf h = absurd (omega (arith, h.0))
  tile_rows-flat t ((x ∷ y ∷ []) ∷ tiles) buf h =
      let e : 2 * (t + 1) ≡ 2 * t + 1 + 1 = omega arith in
      tile_rows-flat (t + 1) tiles _ h.1 ∙ rw e refl
  tile_rows-flat t ((x ∷ y ∷ z ∷ xs) ∷ tiles) buf h = absurd (omega (arith, h.0))

  strip-here :
      (pre xs rest : List ℕ) (u : ℕ)
      → length pre ≡ u * k
      → length xs ≡ k
      → strip k (pre ++ (xs ++ rest)) u ≡ xs
  unfolding strip
  strip-here pre xs rest u e wide =
      rw (drop-append (u * k) pre (xs ++ rest) e) (take-append k xs rest wide)

  -- Read back as strips, from row `u` on.
  strips-gathered :
      (idx : List ℕ) (u : ℕ) (pre rest : List ℕ)
      → length pre ≡ u * k
      → All (InBatch k src) idx
      → strips k (pre ++ (gathered idx ++ rest)) (upto u (length idx)) ≡ strips k src idx
  unfolding gathered flat_map upto
  strips-gathered [] u pre rest e h = refl
  strips-gathered (i ∷ idx) u pre rest e h =
      let wide = length-strip i h.0 in
      let tail = flat_map (strip k src) idx in
      let shape : (strip k src i ++ tail) ++ rest ≡ strip k src i ++ (tail ++ rest) =
        append_assoc (strip k src i) tail rest in
      let whole : pre ++ (strip k src i ++ (tail ++ rest))
          ≡ (pre ++ strip k src i) ++ (tail ++ rest) =
        sym (append_assoc pre (strip k src i) (tail ++ rest)) in
      let next =
        strips-gathered idx (u + 1) (pre ++ strip k src i) rest
          (omega (arith, length-append pre (strip k src i))) h.1 in
      let later = upto (u + 1) (length idx) in
      ap (λ (t : List ℕ). strips k (pre ++ t) (u ∷ later)) shape
      ∙ ap₂ ◌∷◌ (strip-here pre (strip k src i) (tail ++ rest) u e wide)
          (ap (λ (t : List ℕ). strips k t later) whole ∙ next)

  -- The strips of tile `t` of width `w`, among those of all tiles.
  pub strips-tile :
      (w : ℕ) (tiles : List (List ℕ)) (u t : ℕ) (pre rest : List ℕ)
      → length pre ≡ u * k
      → All (λ xs. (length xs ≡ w) × All (InBatch k src) xs) tiles
      → t < length tiles
      → strips k (pre ++ (gathered (flat tiles) ++ rest)) (upto (u + t * w) w)
        ≡ strips k src (get_or tiles t [])
  unfolding flat
  strips-tile w [] u t pre rest e h lt = absurd (omega arith)
  strips-tile w (xs ∷ tiles) u zero pre rest e h lt =
      let z : u + 0 * w ≡ u = omega arith in
      let shape : gathered (xs ++ flat tiles) ++ rest
          ≡ gathered xs ++ (gathered (flat tiles) ++ rest) =
        rw (gathered-append xs (flat tiles))
          (append_assoc (gathered xs) (gathered (flat tiles)) rest) in
      rw (z, shape, ← h.0.0) (strips-gathered xs u pre (gathered (flat tiles) ++ rest) e h.0.1)
  strips-tile w (xs ∷ tiles) u (suc t) pre rest e h lt =
      let at : u + suc t * w ≡ u + w + t * w = omega arith in
      let shape : pre ++ (gathered (xs ++ flat tiles) ++ rest)
          ≡ (pre ++ gathered xs) ++ (gathered (flat tiles) ++ rest) =
        rw (gathered-append xs (flat tiles)) (
          ap (◌++◌ pre) (append_assoc (gathered xs) (gathered (flat tiles)) rest)
          ∙ sym (append_assoc pre (gathered xs) (gathered (flat tiles) ++ rest))) in
      let wide : length xs * k ≡ w * k = ap (λ (n : ℕ). n * k) h.0.0 in
      rw (at, shape)
        (strips-tile w tiles (u + w) t (pre ++ gathered xs) rest
          (omega (arith, length-append pre (gathered xs), length-gathered xs h.0.1)) h.1
          (omega arith))

  -- The shapes of what is gathered from tiles of one width.
  flat-InBatch :
      (w : ℕ) (tiles : List (List ℕ))
      → All (λ xs. (length xs ≡ w) × All (InBatch k src) xs) tiles
      → All (InBatch k src) (flat tiles)
  unfolding flat
  flat-InBatch w [] h = tt
  flat-InBatch w (xs ∷ tiles) h =
      All-append (InBatch k src) xs (flat tiles) h.0.1 (flat-InBatch w tiles h.1)

  length-flat :
      (w : ℕ) (tiles : List (List ℕ))
      → All (λ xs. (length xs ≡ w) × All (InBatch k src) xs) tiles
      → length (flat tiles) ≡ length tiles * w
  unfolding flat
  length-flat w [] h = omega arith
  length-flat w (xs ∷ tiles) h =
      omega (arith, length-append xs (flat tiles), h.0.0, length-flat w tiles h.1)

  pub length-gathered-flat :
      (w : ℕ) (tiles : List (List ℕ))
      → All (λ xs. (length xs ≡ w) × All (InBatch k src) xs) tiles
      → length (gathered (flat tiles)) ≡ length tiles * w * k
  length-gathered-flat w tiles h =
      length-gathered (flat tiles) (flat-InBatch w tiles h)
      ∙ ap (λ (n : ℕ). n * k) (length-flat w tiles h)

  pub gathered-IsBytes : (idx : List ℕ) → IsBytes src → IsBytes (gathered idx)
  unfolding gathered flat_map strip
  gathered-IsBytes [] h = tt
  gathered-IsBytes (i ∷ idx) h =
      All-append IsByte (strip k src i) (gathered idx)
        (All-take IsByte k (drop (i * k) src) (All-drop IsByte (i * k) src h))
        (gathered-IsBytes idx h)

  pub all_cols-gathered :
      (w : ℕ) (tiles : List (List ℕ)) (buf : List ℕ)
      → All (λ xs. (length xs ≡ w) × All (InBatch k src) xs) tiles
      → all_cols k w src 0 tiles buf ≡ gathered (flat tiles) ++ drop (length (flat tiles) * k) buf
  all_cols-gathered w tiles buf h =
      all_cols-flat w 0 tiles buf (widths tiles h)
      ∙ tile_cols-gathered (flat tiles) (0 * w) [] buf (omega arith) (flat-InBatch w tiles h)
    where
      widths :
          (tiles : List (List ℕ))
          → All (λ xs. (length xs ≡ w) × All (InBatch k src) xs) tiles
          → All (λ cols. length cols ≡ w) tiles
      widths [] h = tt
      widths (xs ∷ tiles) h = (h.0.0, widths tiles h.1)

  pub tile_rows-gathered :
      (tiles : List (List ℕ)) (buf : List ℕ)
      → All (λ xs. (length xs ≡ 2) × All (InBatch k src) xs) tiles
      → tile_rows k src 0 tiles buf ≡ gathered (flat tiles) ++ drop (length (flat tiles) * k) buf
  tile_rows-gathered tiles buf h =
      tile_rows-flat 0 tiles buf (pairs tiles h)
      ∙ tile_cols-gathered (flat tiles) (2 * 0) [] buf (omega arith) (flat-InBatch 2 tiles h)
    where
      pairs :
          (tiles : List (List ℕ))
          → All (λ xs. (length xs ≡ 2) × All (InBatch k src) xs) tiles
          → All (λ rows. length rows ≡ 2) tiles
      pairs [] h = tt
      pairs (xs ∷ tiles) h = (h.0.0, pairs tiles h.1)

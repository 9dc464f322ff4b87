-- ===== src/Microkernel/Tile8/Tiles.antt =====
-- The eight-row kernels of src/microkernel.rs give the specified messages when their passes take
-- the tile buffer from one window of the columns to the next.
use aria_t.Base.{ℕ, ◌+◌, ◌-◌, ◌*◌, ◌/◌, ◌%◌, ◌≤◌, ◌<◌, ◌≡◌, ap, ◌∙◌, arith}
use aria_t.Base.{List, [], ◌∷◌, ◌++◌, map, length, drop, replicate, some}
use aria_t.Jackpot.{xor_fold, jackpot_of}
use aria_t.Jackpot.Flat.{upto}
use aria_t.Jackpot.Tile.{range}
use aria_t.Jackpot.Tile.Walk.{strips}
use aria_t.Microkernel.{for_each, copy_at}
use aria_t.Microkernel.Slots.{slots}
use aria_t.Microkernel.Tile8.{walk_tiles, empty_msgs}
use aria_t.Microkernel.Tile8.Walk.{walk_tiles-jackpots}
use aria_t.Microkernel.Tile8.Cells.{cells}
use aria_t.Microkernel.Tile8.Turns.{cells_start, fold_cells}

-- What the kernels return: for each of four tiles, the message of its two rows.
unfoldable pub four_jackpots : (a_eff b_eff : List ℕ) → (a0 col k r : ℕ) → List (List ℕ)
four_jackpots a_eff b_eff a0 col k r =
    map
      (λ t.
        jackpot_of (strips k a_eff ((a0 + t * 2) ∷ (a0 + (t * 2 + 1)) ∷ []))
          (strips k b_eff (upto col 64)) k r)
      (upto 0 4)

module _ (lanes groups : ℕ) (wide : groups * lanes ≡ 64)
    (divs : (q u : ℕ)
      → u < groups
      → ((q * groups + u) / groups ≡ q) × ((q * groups + u) % groups ≡ u))
    (a_eff b_eff : List ℕ) (a0 k base r : ℕ) (pos : 0 < r) (quads : r % 4 ≡ 0) (reduce : List ℕ → ℕ)
    (reduces : (p : List ℕ) → length p ≡ 128 → reduce p ≡ xor_fold 0 p) (count : ℕ)
    (pass : ℕ → ℕ → List ℕ → List ℕ)
    (passes : (l0 : ℕ)
      → l0 % 4 ≡ 0
      → l0 + r ≤ k
      → (rest : List ℕ)
      → for_each count 0
          (pass l0)
          (slots (cells lanes a_eff b_eff (λ i. a0 + i) k base groups l0) 0 (8 * groups) ++ rest)
        ≡ slots (cells lanes a_eff b_eff (λ i. a0 + i) k base groups (l0 + r)) 0 (8 * groups)
          ++ rest) where
  Holds : List ℕ → ℕ → List ℕ → Type 0
  Holds rest b jackpot =
      jackpot
      ≡ slots (cells lanes a_eff b_eff (λ i. a0 + i) k base groups (b * r)) 0 (8 * groups) ++ rest

  passes-Holds :
      (rest : List ℕ) (b : ℕ) (jackpot : List ℕ)
      → Holds rest b jackpot
      → (b + 1) * r ≤ k
      → Holds rest (b + 1) (for_each count 0 (pass ((b + 1) * r - r)) jackpot)
  unfolding Holds
  passes-Holds rest b jackpot holds room =
      let from : (b + 1) * r - r ≡ b * r = omega arith in
      let to : b * r + r ≡ (b + 1) * r = omega arith in
      let by_four : r ≡ r / 4 * 4 = omega arith in
      let whole : b * r % 4 ≡ 0 = omega (arith, ap (λ (t : ℕ). b * t) by_four) in
      rw (from, holds, ← to) (passes (b * r) whole (omega arith) rest)

  pub walk_tiles-four :
      (jackpot : List ℕ)
      → walk_tiles k r
          (λ ll. for_each count 0 (pass (ll - r)))
          reduce
          (k + 1)
          r
          0
          (copy_at jackpot 0 (replicate 512 0))
          empty_msgs
        ≡ some (four_jackpots a_eff b_eff a0 (base * lanes) k r)
  unfolding Holds four_jackpots
  walk_tiles-four jackpot =
      let rest = drop 512 jackpot in
      let start : 0 * r ≡ 0 = omega arith in
      walk_tiles-jackpots k r (λ ll. for_each count 0 (pass (ll - r))) reduce
        (λ t. strips k a_eff ((a0 + t * 2) ∷ (a0 + (t * 2 + 1)) ∷ []))
        (strips k b_eff (upto (base * lanes) 64)) (Holds rest) pos (passes-Holds rest)
        (λ b buf t holds room h.
          ap (λ (x : List ℕ). reduce (range x (t * 128) (t * 128 + 128))) holds
          ∙ fold_cells lanes groups wide divs a_eff b_eff (λ i. a0 + i) k base reduce reduces
              (b * r) t rest h)
        (copy_at jackpot 0 (replicate 512 0))
        (rw start (
          cells_start lanes groups wide divs a_eff b_eff (λ i. a0 + i) k base jackpot (8 * groups)
            512 (omega (arith, wide))))

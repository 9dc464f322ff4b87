-- ===== src/Jackpot/Pearl/Laws.antt =====
-- `compute_jackpot_pearl` (src/pearl_compute.rs) returns the jackpot of the effective strips.
use mathlib.Core.List.{flat_map}
use native.Mathlib.Nat.{mul-div_cancel}
use aria_t.Base.{ℕ, suc, ◌+◌, ◌-◌, ◌*◌, ◌/◌, ◌%◌, ◌≤◌, ◌<◌, ◌≡◌, refl, ap, ap₂, sym, ◌∙◌, arith}
use aria_t.Base.{List, [], ◌∷◌, map, length, get_elem?, get_or, replicate, some}
use aria_t.Jackpot.{PearlParams, xor_fold, cell, tile_at, jackpot_of, jackpot_size}
use aria_t.Jackpot.Blocks.{walk_blocks-jackpot}
use aria_t.Jackpot.Rows.{update_row-map, cell-step, cell-lt, cell-zero, map-const, xor_fold-append}
use aria_t.Jackpot.Effective.{IsSignal, IsNoise, AreStrips, eff_rows, eff_rows-get, length-eff_rows}
use aria_t.Jackpot.Pearl.{
  PearlNoise, mac_window, update_rows, xor_rows, gemm_block, compute_jackpot_pearl,
}
use aria_t.Jackpot.Pearl.Window.{mac_window-dot, mac_window-lt}

module _ {ℓ κ} {X : Type ℓ} {Y : Type κ} where
  update_rows-map :
      (f : ℕ → ℕ → ℕ → ℕ) (g g' : Y → X → ℕ) (rows : List Y) (cols : List X) (u : ℕ)
      → ((i j : ℕ) (a : Y) (b : X)
          → get_elem? rows i ≡ some a
          → get_elem? cols j ≡ some b
          → f (u + i) j (g a b) ≡ g' a b)
      → update_rows f u (map (λ a. map (g a) cols) rows) ≡ map (λ a. map (g' a) cols) rows
  unfolding update_rows
  update_rows-map f g g' [] cols u h = refl
  update_rows-map f g g' (a ∷ rows) cols u h =
      let here : u + 0 ≡ u = omega arith in
      ap₂ ◌∷◌
        (update_row-map (f u) (g a) (g' a) cols 0
          λ j b e. let z : 0 + j ≡ j = omega arith in rw (← z, here) at (h 0 j a b refl e))
        (update_rows-map f g g' rows cols (u + 1) λ i j c b e k.
          let shift : u + suc i ≡ u + 1 + i = omega arith in rw shift at (h (suc i) j c b e k))

xor_rows-tile :
    (acc n : ℕ) (rows cols : List (List ℕ))
    → xor_rows acc (map (λ a. map (cell n a) cols) rows) ≡ xor_fold acc (tile_at rows cols n)
unfolding xor_rows tile_at flat_map xor_fold
xor_rows-tile acc n [] cols = refl
xor_rows-tile acc n (a ∷ rows) cols =
    xor_rows-tile (xor_fold acc (map (cell n a) cols)) n rows cols
    ∙ sym (xor_fold-append acc (map (cell n a) cols) (tile_at rows cols n))

zero_tile :
    (rows cols : List (List ℕ))
    → replicate (length rows) (replicate (length cols) 0) ≡ map (λ a. map (cell 0 a) cols) rows
zero_tile [] cols = refl
zero_tile (a ∷ rows) cols =
    ap₂ ◌∷◌ (sym (map-const (cell 0 a) cols (cell-zero a))) (zero_tile rows cols)

module _ (params : PearlParams) (secret_a secret_b : List (List ℕ)) (noise : PearlNoise)
    (pos : 0 < params.r) (high : length secret_a ≡ params.h) (high' : length noise.a ≡ params.h)
    (wide : length secret_b ≡ params.w) (wide' : length noise.b ≡ params.w)
    (strips_a : AreStrips IsSignal params.k secret_a) (noise_a : AreStrips IsNoise params.k noise.a)
    (strips_b : AreStrips IsSignal params.k secret_b)
    (noise_b : AreStrips IsNoise params.k noise.b) where
  rows : List (List ℕ)
  rows = eff_rows secret_a noise.a

  cols : List (List ℕ)
  cols = eff_rows secret_b noise.b

  -- The tile after `b` blocks.
  Holds : ℕ → List (List ℕ) → Type 0
  Holds b tile = tile ≡ map (λ a. map (cell (b * params.r) a) cols) rows

  gemm_block-Holds :
      (b : ℕ) (tile : List (List ℕ))
      → Holds b tile
      → (b + 1) * params.r ≤ params.k
      → Holds (b + 1) (gemm_block params secret_a secret_b noise ((b + 1) * params.r) tile)
  unfolding Holds gemm_block rows cols
  gemm_block-Holds b tile holds room =
      let from : (b + 1) * params.r - params.r ≡ b * params.r = omega arith in
      let to : b * params.r + params.r ≡ (b + 1) * params.r = omega arith in
      rw (holds, from)
        (update_rows-map _ (cell (b * params.r)) (cell ((b + 1) * params.r))
          (eff_rows secret_a noise.a) (eff_rows secret_b noise.b) 0
          λ i j x y ex ey.
            let z : 0 + i ≡ i = omega arith in
            let px = eff_rows-get params.k secret_a noise.a i x strips_a noise_a ex in
            let py = eff_rows-get params.k secret_b noise.b j y strips_b noise_b ey in
            let sa = get_or secret_a i [] in
            let na = get_or noise.a i [] in
            let sb = get_or secret_b j [] in
            let nb = get_or noise.b j [] in
            let acc = cell (b * params.r) x y in
            let window : mac_window sa na sb nb params.r (b * params.r) acc
                ≡ cell ((b + 1) * params.r) x y =
              omega (
                arith,
                mac_window-dot params.k sa na sb nb x y px py params.r (b * params.r) acc
                    (omega arith),
                mac_window-lt params.k sa na sb nb x y px py params.r (b * params.r) acc
                    (cell-lt (b * params.r) x y),
                cell-step (b * params.r) params.r x y,
                ap (λ (t : ℕ). cell t x y) to,
              ) in
            rw z window)

  start : Holds 0 (replicate params.h (replicate params.w 0))
  unfolding Holds rows cols
  start =
      let z : 0 * params.r ≡ 0 = omega arith in
      let rows_of : length (eff_rows secret_a noise.a) ≡ params.h =
        length-eff_rows secret_a noise.a (high ∙ sym high') ∙ high in
      let cols_of : length (eff_rows secret_b noise.b) ≡ params.w =
        length-eff_rows secret_b noise.b (wide ∙ sym wide') ∙ wide in
      rw (z, ← rows_of, ← cols_of)
        (zero_tile (eff_rows secret_a noise.a) (eff_rows secret_b noise.b))

  folds :
      (b : ℕ) (tile : List (List ℕ))
      → Holds b tile
      → b * params.r ≤ params.k
      → xor_rows 0 tile ≡ xor_fold 0 (tile_at rows cols (b * params.r))
  unfolding Holds rows cols
  folds b tile holds room =
      rw holds
        (xor_rows-tile 0 (b * params.r) (eff_rows secret_a noise.a) (eff_rows secret_b noise.b))

  slots : (b : ℕ) → ((b + 1) * params.r / params.r - 1) % jackpot_size ≡ b % jackpot_size
  slots b = rw (mul-div_cancel (b + 1) pos) (omega arith)

  -- With strips of the shapes that the source asserts, entries from -64 to 63, noise from -64 to 64
  -- and a positive rank, the function returns the message of the dot products of the effective
  -- strips.
  pub compute_jackpot_pearl-jackpot :
      compute_jackpot_pearl params secret_a secret_b noise
      ≡ some (jackpot_of (eff_rows secret_a noise.a) (eff_rows secret_b noise.b) params.k params.r)
  unfolding compute_jackpot_pearl rows cols
  compute_jackpot_pearl-jackpot =
      walk_blocks-jackpot params.k params.r (gemm_block params secret_a secret_b noise) (xor_rows 0)
        _ (eff_rows secret_a noise.a) (eff_rows secret_b noise.b) Holds pos gemm_block-Holds folds
        slots _ start

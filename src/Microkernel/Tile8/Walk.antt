-- ===== src/Microkernel/Tile8/Walk.antt =====
-- The walk of the kernels of src/microkernel.rs that keep four tiles at once gives the message of
-- each, whenever the tiles are the specified ones after every block.
use native.Mathlib.Nat.{div-lt_iff_lt-mul, le-div_iff_mul-le, div-le_self}
use aria_t.Base.{ℕ, zero, suc, ◌+◌, ◌*◌, ◌/◌, ◌%◌, ◌≤◌, ◌<◌, ◌≡◌, refl, ap₂, arith}
use aria_t.Base.{List, ◌∷◌, map, some}
use aria_t.Base.{le→leb, lt→leb}
use aria_t.Jackpot.{xor_fold, stir, tile_at, jackpot_from, jackpot_of, jackpot_size, empty_msg}
use aria_t.Jackpot.Flat.{upto}
use aria_t.Jackpot.Tile.{range}
use aria_t.Microkernel.Tile8.{stir_tiles, walk_tiles, empty_msgs}

module _ (k r : ℕ) (update : ℕ → List ℕ → List ℕ) (reduce : List ℕ → ℕ) (rows : ℕ → List (List ℕ))
    (cols : List (List ℕ)) (Holds : ℕ → List ℕ → Type 0) (pos : 0 < r)
    (keeps : (b : ℕ) (t : List ℕ)
      → Holds b t
      → (b + 1) * r ≤ k
      → Holds (b + 1) (update ((b + 1) * r) t))
    (folds : (b : ℕ) (jackpot : List ℕ) (t : ℕ)
      → Holds b jackpot
      → b * r ≤ k
      → t < 4
      → reduce (range jackpot (t * 128) (t * 128 + 128))
        ≡ xor_fold 0 (tile_at (rows t) cols (b * r))) where
  stir_tiles-map :
      (b tid : ℕ) (jackpot : List ℕ)
      → Holds b jackpot
      → b * r ≤ k
      → (m t : ℕ) (msg : ℕ → List ℕ) → t + m ≤ 4
      → stir_tiles reduce tid t jackpot (map msg (upto t m))
        ≡ map (λ t. stir (msg t) tid (xor_fold 0 (tile_at (rows t) cols (b * r)))) (upto t m)
  unfolding stir_tiles upto
  stir_tiles-map b tid jackpot holds room zero t msg h = refl
  stir_tiles-map b tid jackpot holds room (suc m) t msg h =
      ap₂ ◌∷◌ (rw (folds b jackpot t holds room (omega arith)) refl)
        (stir_tiles-map b tid jackpot holds room m (t + 1) msg (omega arith))

  walk_tiles-from :
      (fuel n b : ℕ) (jackpot : List ℕ) (msg : ℕ → List ℕ)
      → n + b ≡ k / r
      → n < fuel
      → Holds b jackpot
      → walk_tiles k r update reduce fuel ((b + 1) * r) b jackpot (map msg (upto 0 4))
        ≡ some (map (λ t. jackpot_from (rows t) cols r n b (msg t)) (upto 0 4))
  unfolding walk_tiles jackpot_from
  walk_tiles-from zero n b jackpot msg e h holds = absurd (omega arith)
  walk_tiles-from (suc fuel) zero b jackpot msg e h holds =
      let past : k < (b + 1) * r = (div-lt_iff_lt-mul pos).0 (omega arith) in
      rw (lt→leb ((b + 1) * r) k past) refl
  walk_tiles-from (suc fuel) (suc n) b jackpot msg e h holds =
      let room : (b + 1) * r ≤ k = (le-div_iff_mul-le pos).0 (omega arith) in
      let next : (b + 1) * r + r ≡ (b + 1 + 1) * r = omega arith in
      let kept = keeps b jackpot holds room in
      rw
        (
          le→leb ((b + 1) * r) k room,
          next,
          stir_tiles-map (b + 1) (b % jackpot_size) (update ((b + 1) * r) jackpot) kept room 4 0 msg
              (omega arith),
        )
        (walk_tiles-from fuel n (b + 1) (update ((b + 1) * r) jackpot)
          (λ t. stir (msg t) (b % jackpot_size) (xor_fold 0 (tile_at (rows t) cols ((b + 1) * r))))
          (omega arith) (omega arith) kept)

  pub walk_tiles-jackpots :
      (jackpot : List ℕ)
      → Holds 0 jackpot
      → walk_tiles k r update reduce (k + 1) r 0 jackpot empty_msgs
        ≡ some (map (λ t. jackpot_of (rows t) cols k r) (upto 0 4))
  unfolding jackpot_of empty_msgs upto
  walk_tiles-jackpots jackpot holds =
      let first : (0 + 1) * r ≡ r = omega arith in
      rw first at (
        walk_tiles-from (k + 1) (k / r) 0 jackpot (λ t. empty_msg) (omega arith)
          (omega (arith, div-le_self k r)) holds)

-- ===== src/Jackpot/Blocks.antt =====
-- The walk over the rank-blocks ends within its rounds, and its message is the specified one
-- whenever the tile is the specified one after every block.
use native.Mathlib.Nat.{div-lt_iff_lt-mul, le-div_iff_mul-le, div-le_self}
use aria_t.Base.{ℕ, zero, suc, ◌+◌, ◌*◌, ◌/◌, ◌%◌, ◌≤◌, ◌<◌, ◌≡◌, refl, arith}
use aria_t.Base.{List, some}
use aria_t.Base.{le→leb, lt→leb}
use aria_t.Jackpot.{
  walk_blocks, xor_fold, tile_at, jackpot_from, jackpot_of, jackpot_size, empty_msg,
}

module _ {ℓ κ} {T : Type ℓ} (k r : ℕ) (update : ℕ → T → T) (fold : T → ℕ) (slot : ℕ → ℕ → ℕ)
    (rows cols : List (List ℕ)) (Holds : ℕ → T → Type κ) (pos : 0 < r)
    (keeps : (b : ℕ) (t : T) → Holds b t → (b + 1) * r ≤ k → Holds (b + 1) (update ((b + 1) * r) t))
    (folds : (b : ℕ) (t : T)
      → Holds b t
      → (b * r) ≤ k
      → fold t ≡ xor_fold 0 (tile_at rows cols (b * r)))
    (slots : (b : ℕ) → slot ((b + 1) * r) b ≡ b % jackpot_size) where
  walk_blocks-from :
      (fuel n b : ℕ) (t : T) (msg : List ℕ)
      → n + b ≡ k / r
      → n < fuel
      → Holds b t
      → walk_blocks k r update fold slot fuel ((b + 1) * r) b t msg
        ≡ some (jackpot_from rows cols r n b msg)
  unfolding walk_blocks jackpot_from
  walk_blocks-from zero n b t msg e h holds = absurd (omega arith)
  walk_blocks-from (suc fuel) zero b t msg e h holds =
      let past : k < (b + 1) * r = (div-lt_iff_lt-mul pos).0 (omega arith) in
      rw (lt→leb ((b + 1) * r) k past) refl
  walk_blocks-from (suc fuel) (suc n) b t msg e h holds =
      let room : (b + 1) * r ≤ k = (le-div_iff_mul-le pos).0 (omega arith) in
      let next : (b + 1) * r + r ≡ (b + 1 + 1) * r = omega arith in
      let kept = keeps b t holds room in
      rw
        (
          le→leb ((b + 1) * r) k room,
          next,
          slots b,
          folds (b + 1) (update ((b + 1) * r) t) kept room,
        )
        (walk_blocks-from fuel n (b + 1) (update ((b + 1) * r) t) _ (omega arith) (omega arith)
          kept)

  pub walk_blocks-jackpot :
      (t : T)
      → Holds 0 t
      → walk_blocks k r update fold slot (k + 1) r 0 t empty_msg ≡ some (jackpot_of rows cols k r)
  unfolding jackpot_of
  walk_blocks-jackpot t holds =
      let first : (0 + 1) * r ≡ r = omega arith in
      rw first at (
        walk_blocks-from (k + 1) (k / r) 0 t empty_msg (omega arith)
          (omega (arith, div-le_self k r)) holds)

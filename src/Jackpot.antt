-- ===== src/Jackpot.antt =====
-- The jackpot of a tile, as the four pure implementations of the repository share it: the walk
-- along k in rank-blocks, the XOR fold of the tile and the stir into the 16-word message.
pub mod Blocks
pub mod Rows
pub mod Effective
pub mod Pearl
pub mod Tile
pub mod Flat
use Prim.Native.Nat.{bit_xor}
use aria_t.Base.{
  ℕ, zero, suc, ◌+◌, ◌-◌, ◌*◌, ◌/◌, ◌%◌, ◌<◌, List, [], ◌∷◌, ◌++◌, map, length, get_or,
}
use aria_t.Base.{Bool, Option, none, some, replicate, set, take, drop, leb, if◌then◌else◌}
use aria_t.Base.Words.{u32, rotate_left}
use aria_t.Vnni.Sums.{dot}
use mathlib.Core.List.{flat_map}

abbrev pub jackpot_size : ℕ
jackpot_size = 16

abbrev pub lrot_per_tile : ℕ
lrot_per_tile = 13

pub record PearlParams : Type 0 where
  pub h : ℕ
  pub w : ℕ
  pub k : ℕ
  pub r : ℕ

-- `for x in cells { xored ^= x }`
unfoldable pub xor_fold : ℕ → List ℕ → ℕ
xor_fold acc [] = acc
xor_fold acc (x ∷ cells) = xor_fold (bit_xor acc x) cells

-- `msg[tid] = msg[tid].rotate_left(13) ^ xored`
pub stir : List ℕ → ℕ → ℕ → List ℕ
stir msg tid xored = set msg tid (bit_xor (rotate_left (get_or msg tid 0) lrot_per_tile) xored)

abbrev pub empty_msg : List ℕ
empty_msg = replicate jackpot_size 0

-- `while ll <= k`, on a state `T` for the tile; `none` means that the rounds given ran out.
module _ {ℓ} {T : Type ℓ} (k r : ℕ) (update : ℕ → T → T) (fold : T → ℕ) (slot : ℕ → ℕ → ℕ) where
  pub walk_blocks : ℕ → ℕ → ℕ → T → List ℕ → Option (List ℕ)
  walk_blocks zero ll blk tile msg = none
  walk_blocks (suc fuel) ll blk tile msg =
      let tile' = update ll tile in
      let rest = walk_blocks fuel (ll + r) (blk + 1) tile' (stir msg (slot ll blk) (fold tile')) in
      if leb ll k then rest else some msg

-- `for (v, cell) in row { *cell = f(v, *cell) }`
pub update_row : (ℕ → ℕ → ℕ) → ℕ → List ℕ → List ℕ
update_row f v [] = []
update_row f v (c ∷ cells) = f v c ∷ update_row f (v + 1) cells

-- The rows `u` to `u + n - 1` of a flat tile, `w` cells each: `tile[u * w + v] = f(u, v, …)`.
pub update_flat : (ℕ → ℕ → ℕ → ℕ) → ℕ → ℕ → ℕ → List ℕ → List ℕ
update_flat f w u zero tile = tile
update_flat f w u (suc n) tile =
    update_row (f u) 0 (take w tile) ++ update_flat f w (u + 1) n (drop w tile)

-- What the implementations compute: the cell of two rows after `n` columns, the tile in row-major
-- order, and the message after the blocks from `b` on.
unfoldable pub cell : ℕ → List ℕ → List ℕ → ℕ
cell n a b = u32 (dot (take n a) (take n b))

unfoldable pub tile_at : List (List ℕ) → List (List ℕ) → ℕ → List ℕ
tile_at rows cols n = flat_map (λ a. map (cell n a) cols) rows

unfoldable pub jackpot_from : List (List ℕ) → List (List ℕ) → ℕ → ℕ → ℕ → List ℕ → List ℕ
jackpot_from rows cols r zero b msg = msg
jackpot_from rows cols r (suc n) b msg =
    jackpot_from rows cols r n (b + 1)
      (stir msg (b % jackpot_size) (xor_fold 0 (tile_at rows cols ((b + 1) * r))))

unfoldable pub jackpot_of : List (List ℕ) → List (List ℕ) → ℕ → ℕ → List ℕ
jackpot_of rows cols k r = jackpot_from rows cols r (k / r) 0 empty_msg

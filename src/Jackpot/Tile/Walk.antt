-- ===== src/Jackpot/Tile/Walk.antt =====
-- The walk of `mac_tile` over the blocks, for any dot product of byte strings, gives the jackpot
-- of the selected strips.
use aria_t.Base.{ℕ, zero, suc, ◌+◌, ◌-◌, ◌*◌, ◌%◌, ◌≤◌, ◌<◌, ◌≡◌, refl, ap, ap₂, sym, ◌∙◌, arith}
use aria_t.Base.{List, [], ◌∷◌, ◌++◌, map, length, get_elem?, get_or, take, drop, replicate, some}
use aria_t.Base.{All, drop-drop, length-take, length-drop, All-take, All-drop, length-map}
use aria_t.Base.Words.{u32, IsByte, IsBytes}
use aria_t.Vnni.Sums.{dot}
use aria_t.Jackpot.{walk_blocks, xor_fold, cell, tile_at, jackpot_of, jackpot_size, empty_msg}
use aria_t.Jackpot.Blocks.{walk_blocks-jackpot}
use aria_t.Jackpot.Rows.{update_flat-map, cell-step, tile_at-zero, length-tile_at}
use aria_t.Jackpot.Tile.{range, mac_tile}

-- The strip of row `i` in a flat batch of rows of `k`, and the strips of a selection.
unfoldable pub strip : ℕ → List ℕ → ℕ → List ℕ
strip k buf i = take k (drop (i * k) buf)

abbrev pub strips : ℕ → List ℕ → List ℕ → List (List ℕ)
strips k buf idx = map (strip k buf) idx

-- Row `i` is inside the batch.
abbrev pub InBatch : ℕ → List ℕ → ℕ → Type 0
InBatch k buf i = (i + 1) * k ≤ length buf

pub take-drop-take :
    (l r k : ℕ) (xs : List ℕ) → l + r ≤ k → take r (drop l (take k xs)) ≡ take r (drop l xs)
take-drop-take l zero k xs h = refl
take-drop-take zero (suc r) zero xs h = absurd (omega arith)
take-drop-take (suc l) (suc r) zero xs h = absurd (omega arith)
take-drop-take zero (suc r) (suc k) [] h = refl
take-drop-take (suc l) (suc r) (suc k) [] h = refl
take-drop-take zero (suc r) (suc k) (x ∷ xs) h =
    ap (◌∷◌ x) (take-drop-take zero r k xs (omega arith))
take-drop-take (suc l) (suc r) (suc k) (x ∷ xs) h = take-drop-take l (suc r) k xs (omega arith)

-- The index that a selected strip comes from.
strips-get :
    (k : ℕ) (buf idx : List ℕ) (u : ℕ) (a : List ℕ)
    → All (InBatch k buf) idx
    → get_elem? (strips k buf idx) u ≡ some a
    → (a ≡ strip k buf (get_or idx u 0)) × InBatch k buf (get_or idx u 0)
strips-get k buf [] u a h e = absurd (cc)
strips-get k buf (i ∷ idx) zero a h e = (cc, h.0)
strips-get k buf (i ∷ idx) (suc u) a h e = strips-get k buf idx u a h.1 e

module _ (k r : ℕ) (buf : List ℕ) where
  range-strip :
      (i b : ℕ)
      → (b + 1) * r ≤ k
      → range buf (i * k + ((b + 1) * r - r)) (i * k + (b + 1) * r)
        ≡ take r (drop (b * r) (strip k buf i))
  unfolding range strip
  range-strip i b room =
      let wide : i * k + (b + 1) * r - (i * k + ((b + 1) * r - r)) ≡ r = omega arith in
      let from : b * r + i * k ≡ i * k + ((b + 1) * r - r) = omega arith in
      rw
        (
          wide,
          take-drop-take (b * r) r k (drop (i * k) buf) (omega arith),
          drop-drop (b * r) (i * k) (i * k + ((b + 1) * r - r)) buf from,
        )
        refl

  length-range :
      (i b : ℕ)
      → (b + 1) * r ≤ k
      → InBatch k buf i
      → length (range buf (i * k + ((b + 1) * r - r)) (i * k + (b + 1) * r)) ≡ r
  unfolding range
  length-range i b room inside = omega (
    arith,
    length-take (i * k + (b + 1) * r - (i * k + ((b + 1) * r - r)))
        (drop (i * k + ((b + 1) * r - r)) buf),
    length-drop (i * k + ((b + 1) * r - r)) buf,
  )

range-IsBytes : (buf : List ℕ) (from to : ℕ) → IsBytes buf → IsBytes (range buf from to)
unfolding range
range-IsBytes buf from to h =
    All-take IsByte (to - from) (drop from buf) (All-drop IsByte from buf h)

module _ (dot8 : List ℕ → List ℕ → ℕ)
    (dots : (x y : List ℕ) → length x ≡ length y → IsBytes x → dot8 x y ≡ u32 (dot x y))
    (a_eff b_eff a_idx b_idx : List ℕ) (k r : ℕ) (pos : 0 < r) (bytes : IsBytes a_eff)
    (inside_a : All (InBatch k a_eff) a_idx) (inside_b : All (InBatch k b_eff) b_idx)
    (rest : List ℕ) where
  rows : List (List ℕ)
  rows = strips k a_eff a_idx

  cols : List (List ℕ)
  cols = strips k b_eff b_idx

  Holds : ℕ → List ℕ → Type 0
  Holds b tile = tile ≡ tile_at rows cols (b * r) ++ rest

  mac_tile-Holds :
      (b : ℕ) (tile : List ℕ)
      → Holds b tile
      → (b + 1) * r ≤ k
      → Holds (b + 1) (mac_tile dot8 a_eff b_eff a_idx b_idx k r ((b + 1) * r) tile)
  unfolding Holds mac_tile rows cols tile_at
  mac_tile-Holds b tile holds room =
      let to : b * r + r ≡ (b + 1) * r = omega arith in
      let high = length-map (strip k a_eff) a_idx in
      let wide = length-map (strip k b_eff) b_idx in
      rw (holds, ← high, ← wide)
        (update_flat-map rest _ (cell (b * r)) (cell ((b + 1) * r)) (strips k a_eff a_idx)
          (strips k b_eff b_idx) 0
          λ i j x y ex ey.
            let z : 0 + i ≡ i = omega arith in
            let px = strips-get k a_eff a_idx i x inside_a ex in
            let py = strips-get k b_eff b_idx j y inside_b ey in
            let ai = get_or a_idx i 0 in
            let bj = get_or b_idx j 0 in
            let ra = range a_eff (ai * k + ((b + 1) * r - r)) (ai * k + (b + 1) * r) in
            let rb = range b_eff (bj * k + ((b + 1) * r - r)) (bj * k + (b + 1) * r) in
            let one =
              dots ra rb
                (length-range k r a_eff ai b room px.1
                  ∙ sym (length-range k r b_eff bj b room py.1))
                (range-IsBytes a_eff _ _ bytes) in
            rw
              (
                z,
                one,
                range-strip k r a_eff ai b room,
                range-strip k r b_eff bj b room,
                ← px.0,
                ← py.0,
                cell-step (b * r) r x y,
                to,
              )
              refl)

  start : Holds 0 (replicate (length a_idx * length b_idx) 0 ++ rest)
  unfolding Holds rows cols
  start =
      let z : 0 * r ≡ 0 = omega arith in
      rw
        (
          z,
          tile_at-zero (strips k a_eff a_idx) (strips k b_eff b_idx),
          length-map (strip k a_eff) a_idx,
          length-map (strip k b_eff) b_idx,
        )
        refl

  module _ (fold : List ℕ → ℕ)
      (tile_fold : (xs : List ℕ)
        → length xs ≡ length a_idx * length b_idx
        → fold (xs ++ rest) ≡ xor_fold 0 xs) where
    folds :
        (b : ℕ) (tile : List ℕ)
        → Holds b tile
        → b * r ≤ k
        → fold tile ≡ xor_fold 0 (tile_at rows cols (b * r))
    unfolding Holds rows cols
    folds b tile holds room =
        let xs = tile_at (strips k a_eff a_idx) (strips k b_eff b_idx) (b * r) in
        let size : length xs ≡ length a_idx * length b_idx =
          length-tile_at (b * r) (strips k a_eff a_idx) (strips k b_eff b_idx)
          ∙ ap₂ ◌*◌ (length-map (strip k a_eff) a_idx) (length-map (strip k b_eff) b_idx) in
        rw (holds, tile_fold xs size) refl

    pub mac_tile-jackpot :
        (slot : ℕ → ℕ → ℕ)
        → ((b : ℕ) → slot ((b + 1) * r) b ≡ b % jackpot_size)
        → walk_blocks k r
            (mac_tile dot8 a_eff b_eff a_idx b_idx k r)
            fold
            slot
            (k + 1)
            r
            0
            (replicate (length a_idx * length b_idx) 0 ++ rest)
            empty_msg
          ≡ some (jackpot_of (strips k a_eff a_idx) (strips k b_eff b_idx) k r)
    unfolding rows cols
    mac_tile-jackpot slot slots =
        walk_blocks-jackpot k r (mac_tile dot8 a_eff b_eff a_idx b_idx k r) fold slot
          (strips k a_eff a_idx) (strips k b_eff b_idx) Holds pos mac_tile-Holds folds slots _ start

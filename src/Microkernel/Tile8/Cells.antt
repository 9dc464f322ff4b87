-- ===== src/Microkernel/Tile8/Cells.antt =====
-- The slots of a tile buffer of src/microkernel.rs in the terms of the specified tiles: the slots
-- row by row, the groups of 64 columns in each row, two rows a tile.
use mathlib.Core.List.{flat_map, map-append}
use aria_t.Base.{
  ℕ, zero, suc, ◌+◌, ◌-◌, ◌*◌, ◌/◌, ◌%◌, ◌≤◌, ◌<◌, ◌≡◌, refl, ap, ap₂, sym, ◌∙◌, arith,
}
use aria_t.Base.{List, [], ◌∷◌, ◌++◌, map, length, replicate, length-map, length-append}
use aria_t.Jackpot.{cell, tile_at}
use aria_t.Jackpot.Flat.{upto}
use aria_t.Jackpot.Flat.Fill.{joined}
use aria_t.Jackpot.Flat.Laws.{append-nil}
use aria_t.Jackpot.Rows.{append_assoc, take-append, drop-append, replicate-append}
use aria_t.Jackpot.Tile.{range}
use aria_t.Jackpot.Tile.Walk.{strip, strips}
use aria_t.Microkernel.Packing.{columns}
use aria_t.Microkernel.Rounds.{length-columns}
use aria_t.Microkernel.Slots.{slots}

upto-append : (m u n k : ℕ) → m + n ≡ k → upto u k ≡ upto u m ++ upto (u + m) n
unfolding upto
upto-append zero u n k e =
    let e' : k ≡ n = omega arith in let z : u + 0 ≡ u = omega arith in rw (e', z) refl
upto-append (suc m) u n zero e = absurd (omega arith)
upto-append (suc m) u n (suc k) e =
    let next : u + 1 + m ≡ u + suc m = omega arith in
    ap (◌∷◌ u) (rw next at (upto-append m (u + 1) n k (omega arith)))

joined-append : (xs ys : List (List ℕ)) → joined (xs ++ ys) ≡ joined xs ++ joined ys
unfolding joined
joined-append [] ys = refl
joined-append (x ∷ xs) ys =
    ap (λ (t : List ℕ). x ++ t) (joined-append xs ys) ∙ sym (append_assoc x (joined xs) (joined ys))

pub slots-append :
    (s : ℕ → List ℕ) (u m n k : ℕ) → m + n ≡ k → slots s u k ≡ slots s u m ++ slots s (u + m) n
unfolding slots
slots-append s u m n k e =
    rw (upto-append m u n k e, map-append s (upto u m) (upto (u + m) n))
      (joined-append (map s (upto u m)) (map s (upto (u + m) n)))

module _ (lanes : ℕ) where
  pub length-slots :
      (s : ℕ → List ℕ) (u n : ℕ)
      → ((j : ℕ) → length (s j) ≡ lanes)
      → length (slots s u n) ≡ n * lanes
  unfolding slots joined upto
  length-slots s u zero wide = omega arith
  length-slots s u (suc n) wide = omega (
    arith,
    length-append (s u) (joined (map s (upto (u + 1) n))),
    wide u,
    length-slots s (u + 1) n wide,
  )

  pub slots_zero :
      (s : ℕ → List ℕ) (u n : ℕ)
      → ((j : ℕ) → s j ≡ replicate lanes 0)
      → slots s u n ≡ replicate (n * lanes) 0
  unfolding slots joined upto
  slots_zero s u zero zeros = let z : 0 * lanes ≡ 0 = omega arith in rw z refl
  slots_zero s u (suc n) zeros =
      ap₂ ◌++◌ (zeros u) (slots_zero s (u + 1) n zeros)
      ∙ replicate-append lanes (n * lanes) (suc n * lanes) 0 (omega arith)

  -- The slots from `u` on, out of all.
  pub range-slots :
      (s : ℕ → List ℕ) (rest : List ℕ) (u n k from to : ℕ)
      → ((j : ℕ) → length (s j) ≡ lanes)
      → u + n ≤ k
      → from ≡ u * lanes
      → to ≡ from + n * lanes
      → range (slots s 0 k ++ rest) from to ≡ slots s u n
  unfolding range
  range-slots s rest u n k from to wide h at until =
      let z : 0 + u ≡ u = omega arith in
      let size : to - from ≡ n * lanes = omega arith in
      let post = slots s (u + n) (k - (u + n)) in
      let later = slots-append s u n (k - (u + n)) (k - u) (omega arith) in
      let all : slots s 0 k ++ rest ≡ slots s 0 u ++ (slots s u n ++ (post ++ rest)) =
        rw
          (
            slots-append s 0 u (k - u) k (omega arith),
            z,
            later,
            append_assoc (slots s 0 u) (slots s u n ++ post) rest,
            append_assoc (slots s u n) post rest,
          )
          refl in
      rw
        (
          all,
          size,
          at,
          drop-append (u * lanes) (slots s 0 u) (slots s u n ++ (post ++ rest))
              (length-slots s 0 u wide),
        )
        (take-append (n * lanes) (slots s u n) (post ++ rest) (length-slots s u n wide))

  module _ (a_eff b_eff : List ℕ) (row : ℕ → ℕ) (k base groups n : ℕ) where
    -- The cells of a row, `groups` slots a row, after `n` columns.
    unfoldable pub cells : ℕ → List ℕ
    cells i =
        map (cell n (strip k a_eff (row (i / groups)))) (columns lanes k b_eff (base + i % groups))

    pub length-cells : (i : ℕ) → length (cells i) ≡ lanes
    unfolding cells
    length-cells i =
        length-map _ (columns lanes k b_eff (base + i % groups))
        ∙ length-columns lanes k b_eff (base + i % groups)

    row_columns :
        (f : List ℕ → ℕ) (u m : ℕ)
        → slots (λ g. map f (columns lanes k b_eff (base + g))) u m
          ≡ map f (strips k b_eff (upto ((base + u) * lanes) (m * lanes)))
    unfolding slots joined upto columns
    row_columns f u zero = let z : 0 * lanes ≡ 0 = omega arith in rw z refl
    row_columns f u (suc m) =
        let from = (base + u) * lanes in
        let next : from + lanes ≡ (base + (u + 1)) * lanes = omega arith in
        let strip_of = strip k b_eff in
        rw
          (
            upto-append lanes from (m * lanes) (suc m * lanes) (omega arith),
            next,
            map-append strip_of (upto from lanes) (upto ((base + (u + 1)) * lanes) (m * lanes)),
            map-append f (map strip_of (upto from lanes))
                (map strip_of (upto ((base + (u + 1)) * lanes) (m * lanes))),
          )
          (ap (λ (t : List ℕ). map f (map strip_of (upto from lanes)) ++ t)
            (row_columns f (u + 1) m))

    module _
        (divs : (q u : ℕ)
          → u < groups
          → ((q * groups + u) / groups ≡ q) × ((q * groups + u) % groups ≡ u)) where
      row_cells :
          (q u m : ℕ)
          → u + m ≤ groups
          → slots cells (q * groups + u) m
            ≡ slots
                (λ g. map (cell n (strip k a_eff (row q))) (columns lanes k b_eff (base + g)))
                u
                m
      unfolding slots joined upto cells
      row_cells q u zero h = refl
      row_cells q u (suc m) h =
          let at = divs q u (omega arith) in
          let next : q * groups + u + 1 ≡ q * groups + (u + 1) = omega arith in
          rw (at.0, at.1, next)
            (ap
              (λ (t : List ℕ).
                map (cell n (strip k a_eff (row q))) (columns lanes k b_eff (base + u)) ++ t)
              (row_cells q (u + 1) m (omega arith)))

      row_slots :
          (q : ℕ)
          → slots cells (q * groups) groups
            ≡ map
                (cell n (strip k a_eff (row q)))
                (strips k b_eff (upto (base * lanes) (groups * lanes)))
      row_slots q =
          let z : q * groups + 0 ≡ q * groups = omega arith in
          let z' : base + 0 ≡ base = omega arith in
          rw z at (row_cells q 0 groups (omega arith))
          ∙ rw z' at (row_columns (cell n (strip k a_eff (row q))) 0 groups)

      -- Two rows of slots, the cells of one tile.
      pub tile_slots :
          (t : ℕ)
          → slots cells (t * (groups + groups)) (groups + groups)
            ≡ tile_at
                (strips k a_eff ((row (t * 2)) ∷ (row (t * 2 + 1)) ∷ []))
                (strips k b_eff (upto (base * lanes) (groups * lanes)))
                n
      unfolding tile_at flat_map
      tile_slots t =
          let low : t * (groups + groups) ≡ t * 2 * groups = omega arith in
          let high : t * 2 * groups + groups ≡ (t * 2 + 1) * groups = omega arith in
          slots-append cells (t * (groups + groups)) groups groups (groups + groups) refl
          ∙ rw (low, high, row_slots (t * 2), row_slots (t * 2 + 1))
              (ap
                (λ (x : List ℕ).
                  map (cell n (strip k a_eff (row (t * 2))))
                    (strips k b_eff (upto (base * lanes) (groups * lanes)))
                  ++ x)
                (sym (
                  append-nil (
                    map (cell n (strip k a_eff (row (t * 2 + 1))))
                      (strips k b_eff (upto (base * lanes) (groups * lanes)))))))

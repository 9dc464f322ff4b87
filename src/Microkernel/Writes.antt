-- ===== src/Microkernel/Writes.antt =====
-- A counting loop that writes one piece after another into a buffer, and the piece that a read at
-- a multiple of their width gives back.
use mathlib.Core.List.{flat_map}
use aria_t.Base.{ℕ, zero, suc, ◌+◌, ◌*◌, ◌≤◌, ◌<◌, ◌≡◌, refl, sym, arith}
use aria_t.Base.{List, [], ◌++◌, length, drop, length-append, length-drop, drop-drop}
use aria_t.Jackpot.Flat.{upto}
use aria_t.Jackpot.Rows.{append_assoc, take-append, drop-append}
use aria_t.Microkernel.{for_each, copy_at}

pub copy_at-append :
    (pre rest xs : List ℕ) (at : ℕ)
    → length pre ≡ at
    → copy_at (pre ++ rest) at xs ≡ (pre ++ xs) ++ drop (length xs) rest
unfolding copy_at
copy_at-append pre rest xs at e =
    let swap : length xs + at ≡ at + length xs = omega arith in
    rw
      (
        take-append at pre rest e,
        ← drop-drop (length xs) at (at + length xs) (pre ++ rest) swap,
        drop-append at pre rest e,
      )
      (sym (append_assoc pre xs (drop (length xs) rest)))

module _ (w : ℕ) (piece : ℕ → List ℕ) where
  -- Below `n`, round `i` of the loop writes its piece at `base + i * w`.
  unfoldable pub Writes : ℕ → ℕ → (ℕ → List ℕ → List ℕ) → Type 0
  Writes base n body =
      (i : ℕ) (pre rest : List ℕ)
      → i < n
      → length pre ≡ base + i * w
      → w ≤ length rest
      → body i (pre ++ rest) ≡ (pre ++ piece i) ++ drop w rest

  -- The first `n` pieces have the width.
  unfoldable pub Wide : ℕ → Type 0
  Wide n = (i : ℕ) → i < n → length (piece i) ≡ w

  unfoldable pub pieces : ℕ → ℕ → List ℕ
  pieces i n = flat_map piece (upto i n)

  pub length-pieces : (n i m : ℕ) → i + m ≤ n → Wide n → length (pieces i m) ≡ m * w
  unfolding Wide pieces flat_map upto
  length-pieces n i zero h wide = omega arith
  length-pieces n i (suc m) h wide = omega (
    arith,
    length-append (piece i) (flat_map piece (upto (i + 1) m)),
    wide i (omega arith),
    length-pieces n (i + 1) m (omega arith) wide,
  )

  pub for_each-Writes :
      (base n : ℕ) (body : ℕ → List ℕ → List ℕ)
      → Writes base n body
      → Wide n
      → (m i : ℕ) (pre rest : List ℕ) → i + m ≡ n
      → length pre ≡ base + i * w
      → m * w ≤ length rest
      → for_each m i body (pre ++ rest) ≡ (pre ++ pieces i m) ++ drop (m * w) rest
  unfolding for_each Writes Wide pieces flat_map upto
  for_each-Writes base n body writes wide zero i pre rest e at room =
      let none_left : 0 * w ≡ 0 = omega arith in rw (none_left, append_assoc pre [] rest) refl
  for_each-Writes base n body writes wide (suc m) i pre rest e at room =
      let more : m * w + w ≡ suc m * w = omega arith in
      let tail = flat_map piece (upto (i + 1) m) in
      rw
        (
          writes i pre rest (omega arith) at (omega arith),
          ← append_assoc pre (piece i) tail,
          ← drop-drop (m * w) w (suc m * w) rest more,
        )
        (for_each-Writes base n body writes wide m (i + 1) (pre ++ piece i) (drop w rest)
          (omega arith) (omega (arith, length-append pre (piece i), wide i (omega arith)))
          (omega (arith, length-drop w rest)))

  pub drop-pieces :
      (n : ℕ)
      → Wide n
      → (g i m : ℕ) (rest : List ℕ) → i + m ≤ n
      → g < m
      → (tail : List ℕ) × (drop (g * w) (pieces i m ++ rest) ≡ piece (i + g) ++ tail)
  unfolding Wide pieces flat_map upto
  drop-pieces n wide g i zero rest h lt = absurd (omega arith)
  drop-pieces n wide zero i (suc m) rest h lt =
      let start : 0 * w ≡ 0 = omega arith in
      let here : i + 0 ≡ i = omega arith in
      (
        flat_map piece (upto (i + 1) m) ++ rest,
        rw (start, here) (append_assoc (piece i) (flat_map piece (upto (i + 1) m)) rest),
      )
  drop-pieces n wide (suc g) i (suc m) rest h lt =
      let next = drop-pieces n wide g (i + 1) m rest (omega arith) (omega arith) in
      let shift : i + 1 + g ≡ i + suc g = omega arith in
      let more : g * w + w ≡ suc g * w = omega arith in
      let tail = flat_map piece (upto (i + 1) m) in
      (
        next.0,
        rw
            (
              append_assoc (piece i) tail rest,
              ← drop-drop (g * w) w (suc g * w) (piece i ++ (tail ++ rest)) more,
              drop-append w (piece i) (tail ++ rest) (wide i (omega arith)),
              ← shift,
            )
            next.1,
      )

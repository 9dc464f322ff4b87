-- ===== src/Noise/Sweeps.antt =====
-- The loops of src/fast_noise.rs end, and store for every byte of the output what one byte of the
-- difference gives.
use aria_t.Base.{ℕ, zero, suc, ◌+◌, ◌-◌, ◌^◌, ◌≤◌, ◌≡◌, refl, ap, sym, ◌∙◌, arith}
use aria_t.Base.{
  List, [], ◌∷◌, ◌++◌, length, get_or, take, drop, All, true, false, ltb, leb, Bool-cases, inl, inr,
  leb→le, lt→ltb, length-append, length-take, length-drop, drop-drop, drop-get, All-take, All-drop,
}
use aria_t.Base.Words.{u8, IsBytes}
use aria_t.Jackpot.Rows.{append_assoc, drop-append}
use aria_t.Jackpot.Tile.{range}
use aria_t.Microkernel.{copy_at}
use aria_t.Microkernel.Writes.{copy_at-append}
use aria_t.Noise.{permutex2var_epi8, sub_epi8, gather_loop, byte_loop, perm_128}
use aria_t.Noise.Rows.{
  IsIndex, diffs, zip, zip-split, permutex-get, sub_epi8-diffs, length-diffs, length-zip,
  difference, set-append, get_or-append, get_or-lt,
}

module _ (vec : List ℕ → List ℕ → List ℕ) (one : ℕ → ℕ → ℕ)
    (vecs : (xs ys : List ℕ) → length xs ≡ length ys → vec xs ys ≡ zip one xs ys)
    (row first second : List ℕ) (bytes : IsBytes row) (in_first : All IsIndex first)
    (in_second : All IsIndex second) where
  Long : ℕ → List ℕ → Type 0
  Long j rest = (length first ≡ j + length rest) × (length second ≡ j + length rest)

  -- What the bytes from `j` on become.
  done : ℕ → List ℕ → List ℕ
  done j rest = zip one rest (diffs row (drop j first) (drop j second))

  byte_loop-done :
      (fuel j : ℕ) (pre rest : List ℕ)
      → length pre ≡ j
      → length rest ≤ fuel
      → Long j rest
      → byte_loop vec one row first second fuel j (pre ++ rest) ≡ pre ++ done j rest
  unfolding byte_loop done zip diffs Long
  byte_loop-done zero j pre [] e h long = refl
  byte_loop-done zero j pre (x ∷ rest) e h long = absurd (omega arith)
  byte_loop-done (suc fuel) j pre [] e h long =
      let size : length (pre ++ []) ≡ j = omega (arith, length-append pre [], e) in
      let stop : ltb j (length (pre ++ [])) ≡ false = ground (arith, size) in rw stop refl
  byte_loop-done (suc fuel) j pre (x ∷ rest) e h long =
      let size = length-append pre (x ∷ rest) in
      let more : ltb j (length (pre ++ x ∷ rest)) ≡ true =
        lt→ltb j (length (pre ++ x ∷ rest)) (omega (arith, size)) in
      let f = get_or first j 0 in
      let s = get_or second j 0 in
      let next : j + 1 ≡ suc j = omega arith in
      let from_first : drop j first ≡ f ∷ drop (j + 1) first =
        rw next (drop-get j first 0 (omega (arith, long.0))) in
      let from_second : drop j second ≡ s ∷ drop (j + 1) second =
        rw next (drop-get j second 0 (omega (arith, long.1))) in
      let v = one x (u8 (get_or row f 0 + 2 ^ 8 - get_or row s 0)) in
      let later =
        byte_loop-done fuel (j + 1) (pre ++ v ∷ []) rest (omega (arith, length-append pre (v ∷ [])))
          (omega arith) (omega (arith, long.0), omega (arith, long.1)) in
      rw
        (
          more,
          get_or-append pre rest x j e,
          difference (get_or row f 0) (get_or row s 0) (get_or-lt row f bytes)
              (get_or-lt row s bytes),
          set-append pre rest x v j e,
          from_first,
          from_second,
        )
        (ap (byte_loop vec one row first second fuel (j + 1)) (sym (append_assoc pre (v ∷ []) rest))
          ∙ later
          ∙ append_assoc pre (v ∷ []) (done (j + 1) rest))

  -- One round of the vector loop.
  module _ (j : ℕ) (pre rest : List ℕ) (e : length pre ≡ j) (long : Long j rest)
      (wide : 64 ≤ length rest) where
    gathered : List ℕ
    gathered = diffs row (take 64 (drop j first)) (take 64 (drop j second))

    length-gathered : length gathered ≡ 64
    unfolding gathered Long
    length-gathered =
        let l = length-take 64 (drop j first) in
        let m = length-take 64 (drop j second) in
        let long_f = length-drop j first in
        let long_s = length-drop j second in
        omega (
          arith,
          length-diffs row (take 64 (drop j first)) (take 64 (drop j second))
              (omega (arith, l, m, long_f, long_s, long.0, long.1)),
          l,
          long_f,
          long.0,
        )

    length-stored : length (zip one (take 64 rest) gathered) ≡ 64
    length-stored =
        let cur = length-take 64 rest in
        omega
          (arith, length-zip one (take 64 rest) gathered (omega (arith, cur, length-gathered)), cur)

    stored :
        copy_at (pre ++ rest) j (
          vec (range (pre ++ rest) j (j + 64)) (
            sub_epi8
              (permutex2var_epi8 (range row 0 64) (range first j (j + 64)) (range row 64 128))
              (permutex2var_epi8 (range row 0 64) (range second j (j + 64)) (range row 64 128))))
        ≡ (pre ++ zip one (take 64 rest) gathered) ++ drop 64 rest
    unfolding range gathered
    stored =
        let sixty : j + 64 - j ≡ 64 = omega arith in
        let xs = take 64 (drop j first) in
        let ys = take 64 (drop j second) in
        let cur : length (take 64 rest) ≡ length (diffs row xs ys) =
          omega (arith, length-take 64 rest, length-gathered) in
        let pos =
          permutex-get row xs
            (All-take IsIndex 64 (drop j first) (All-drop IsIndex j first in_first)) in
        let neg =
          permutex-get row ys
            (All-take IsIndex 64 (drop j second) (All-drop IsIndex j second in_second)) in
        rw
          (
            sixty,
            drop-append j pre rest e,
            pos,
            neg,
            sub_epi8-diffs row xs ys,
            vecs (take 64 rest) (diffs row xs ys) cur,
          )
          (rw length-stored at
            (copy_at-append pre rest (zip one (take 64 rest) (diffs row xs ys)) j e))

    stored-done :
        (pre ++ zip one (take 64 rest) gathered) ++ done (j + 64) (drop 64 rest)
        ≡ pre ++ done j rest
    unfolding done gathered Long
    stored-done =
        let at : 64 + j ≡ j + 64 = omega arith in
        let f : length (drop j first) ≡ length rest = omega (arith, length-drop j first, long.0) in
        let s : length (drop j second) ≡ length rest =
          omega (arith, length-drop j second, long.1) in
        rw
          (
            ← drop-drop 64 j (j + 64) first at,
            ← drop-drop 64 j (j + 64) second at,
            append_assoc pre
                (zip one (take 64 rest)
                  (diffs row (take 64 (drop j first)) (take 64 (drop j second))))
                (zip one (drop 64 rest)
                  (diffs row (drop 64 (drop j first)) (drop 64 (drop j second)))),
            zip-split one row 64 rest (drop j first) (drop j second) f s,
          )
          refl

  -- The vector loop, then the bytes that fill no vector.
  gather_loop-done :
      (fuel k j : ℕ) (pre rest : List ℕ)
      → length pre ≡ j
      → length rest ≤ k
      → Long j rest
      → byte_loop vec one row first second k
          (gather_loop vec one row first second fuel (record { at = j; out = pre ++ rest })).at
          (gather_loop vec one row first second fuel (record { at = j; out = pre ++ rest })).out
        ≡ pre ++ done j rest
  unfolding gather_loop Long
  gather_loop-done zero k j pre rest e h long = byte_loop-done k j pre rest e h long
  gather_loop-done (suc fuel) k j pre rest e h long =
      elim (Bool-cases (leb (j + 64) (length (pre ++ rest)))) [
        | inr few ↦ rw few (byte_loop-done k j pre rest e h long)
        | inl more ↦
            let room : j + 64 ≤ length (pre ++ rest) = leb→le _ _ more in
            let size = length-append pre rest in
            let wide : 64 ≤ length rest = omega (arith, size, room) in
            let new = zip one (take 64 rest) (gathered j pre rest e long wide) in
            let later =
              gather_loop-done fuel k (j + 64) (pre ++ new) (drop 64 rest)
                (omega (arith, length-append pre new, length-stored j pre rest e long wide))
                (omega (arith, length-drop 64 rest))
                (
                  omega (arith, wide, long.0, length-drop 64 rest),
                  omega (arith, wide, long.1, length-drop 64 rest),
                ) in
            rw (more, stored j pre rest e long wide) (later ∙ stored-done j pre rest e long wide)
      ]

  -- The whole kernel.
  pub perm_128-zip :
      (out : List ℕ)
      → length first ≡ length out
      → length second ≡ length out
      → perm_128 vec one row first second out ≡ zip one out (diffs row first second)
  unfolding perm_128 Long done
  perm_128-zip out e l =
      gather_loop-done (length out) (length out) 0 [] out refl (omega arith)
        (omega arith, omega arith)

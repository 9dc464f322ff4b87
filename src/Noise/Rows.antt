-- ===== src/Noise/Rows.antt =====
-- Both kernels of src/fast_noise.rs against the differences of a row's bytes, one by one.
use aria_t.Base.{ℕ, zero, suc, ◌+◌, ◌-◌, ◌%◌, ◌^◌, ◌<◌, ◌≡◌, refl, ap, ap₂, ◌∙◌, arith}
use aria_t.Base.{
  List, [], ◌∷◌, ◌++◌, map, length, get_or, set, take, drop, All, ltb, Bool-cases, inl, inr, ltb→lt,
  ltb→ge,
}
use aria_t.Base.Words.{u8, i8_to_i32, wrapping_sub, IsBytes}
use aria_t.Jackpot.Tile.{range}
use aria_t.Noise.{permutex2var_epi8, sub_epi8}

get_or-take : (n i : ℕ) (xs : List ℕ) → i < n → get_or (take n xs) i 0 ≡ get_or xs i 0
get_or-take zero i xs h = absurd (omega arith)
get_or-take (suc n) i [] h = refl
get_or-take (suc n) zero (x ∷ xs) h = refl
get_or-take (suc n) (suc i) (x ∷ xs) h = get_or-take n i xs (omega arith)

pub get_or-drop : (n i k : ℕ) (xs : List ℕ) → n + i ≡ k → get_or (drop n xs) i 0 ≡ get_or xs k 0
get_or-drop zero i k xs e = let e' : i ≡ k = omega arith in ap (λ (t : ℕ). get_or xs t 0) e'
get_or-drop (suc n) i k [] e = refl
get_or-drop (suc n) i zero (x ∷ xs) e = absurd (omega arith)
get_or-drop (suc n) i (suc k) (x ∷ xs) e = get_or-drop n i k xs (omega arith)

pub get_or-lt : (xs : List ℕ) (i : ℕ) → IsBytes xs → get_or xs i 0 < 256
get_or-lt [] i h = omega arith
get_or-lt (x ∷ xs) zero h = h.0
get_or-lt (x ∷ xs) (suc i) h = get_or-lt xs i h.1

-- Below 128 the two registers together are the row.
abbrev pub IsIndex : ℕ → Type 0
IsIndex i = i < 128

pub permutex-get :
    (row idx : List ℕ)
    → All IsIndex idx
    → permutex2var_epi8 (range row 0 64) idx (range row 64 128) ≡ map (λ i. get_or row i 0) idx
unfolding permutex2var_epi8 range
permutex-get row [] h = refl
permutex-get row (i ∷ idx) h = elim (Bool-cases (ltb (i % 128) 64)) [
  | inl low ↦
      let at : i % 64 ≡ i = omega (arith, h.0, ltb→lt (i % 128) 64 low) in
      rw (low, at)
        (ap₂ ◌∷◌ (get_or-take 64 i row (omega (arith, h.0, ltb→lt (i % 128) 64 low)))
          (permutex-get row idx h.1))
  | inr high ↦
      let at : 64 + i % 64 ≡ i = omega (arith, h.0, ltb→ge (i % 128) 64 high) in
      rw high (
        ap₂ ◌∷◌
          (get_or-take 64 (i % 64) (drop 64 row) (omega arith) ∙ get_or-drop 64 (i % 64) i row at)
          (permutex-get row idx h.1))
]

-- `row[first[j]] - row[second[j]]`, for each `j`.
unfoldable pub diffs : List ℕ → List ℕ → List ℕ → List ℕ
diffs row (x ∷ first) (y ∷ second) =
    u8 (get_or row x 0 + 2 ^ 8 - get_or row y 0) ∷ diffs row first second
diffs row _ _ = []

pub sub_epi8-diffs :
    (row first second : List ℕ)
    → sub_epi8 (map (λ i. get_or row i 0) first) (map (λ i. get_or row i 0) second)
      ≡ diffs row first second
unfolding sub_epi8 diffs
sub_epi8-diffs row [] second = refl
sub_epi8-diffs row (x ∷ first) [] = refl
sub_epi8-diffs row (x ∷ first) (y ∷ second) = rw (sub_epi8-diffs row first second) refl

pub length-diffs :
    (row first second : List ℕ)
    → length first ≡ length second
    → length (diffs row first second) ≡ length first
unfolding diffs
length-diffs row [] second e = refl
length-diffs row (x ∷ first) [] e = absurd (omega arith)
length-diffs row (x ∷ first) (y ∷ second) e = ap suc (length-diffs row first second (omega arith))

-- The difference of the extended bytes, cut to a byte.
pub difference :
    (x y : ℕ)
    → x < 256
    → y < 256
    → u8 (wrapping_sub (i8_to_i32 x) (i8_to_i32 y)) ≡ u8 (x + 2 ^ 8 - y)
unfolding i8_to_i32
difference x y h l = elim (Bool-cases (ltb x 128)) [
  | inl low ↦ elim (Bool-cases (ltb y 128)) [
    | inl low' ↦ rw (low, low') (omega arith)
    | inr high' ↦ rw (low, high') (omega arith)
  ]
  | inr high ↦ elim (Bool-cases (ltb y 128)) [
    | inl low' ↦ rw (high, low') (omega arith)
    | inr high' ↦ rw (high, high') (omega arith)
  ]
]

unfoldable pub zip : (ℕ → ℕ → ℕ) → List ℕ → List ℕ → List ℕ
zip op (x ∷ xs) (y ∷ ys) = op x y ∷ zip op xs ys
zip op _ _ = []

pub length-zip :
    (op : ℕ → ℕ → ℕ) (xs ys : List ℕ) → length xs ≡ length ys → length (zip op xs ys) ≡ length xs
unfolding zip
length-zip op [] ys e = refl
length-zip op (x ∷ xs) [] e = absurd (omega arith)
length-zip op (x ∷ xs) (y ∷ ys) e = ap suc (length-zip op xs ys (omega arith))

module _ (op : ℕ → ℕ → ℕ) (row : List ℕ) where
  pub zip-split :
      (n : ℕ) (xs first second : List ℕ)
      → length first ≡ length xs
      → length second ≡ length xs
      → zip op (take n xs) (diffs row (take n first) (take n second))
          ++ zip op (drop n xs) (diffs row (drop n first) (drop n second))
        ≡ zip op xs (diffs row first second)
  unfolding zip diffs
  zip-split zero xs first second e l = refl
  zip-split (suc n) [] [] [] e l = refl
  zip-split (suc n) [] (x ∷ first) second e l = absurd (omega arith)
  zip-split (suc n) [] [] (x ∷ second) e l = absurd (omega arith)
  zip-split (suc n) (x ∷ xs) [] second e l = absurd (omega arith)
  zip-split (suc n) (x ∷ xs) (f ∷ first) [] e l = absurd (omega arith)
  zip-split (suc n) (x ∷ xs) (f ∷ first) (s ∷ second) e l =
      ap (◌∷◌ (op x (u8 (get_or row f 0 + 2 ^ 8 - get_or row s 0))))
        (zip-split n xs first second (omega arith) (omega arith))

pub set-append :
    (pre rest : List ℕ) (x v j : ℕ) → length pre ≡ j → set (pre ++ x ∷ rest) j v ≡ pre ++ v ∷ rest
set-append [] rest x v zero e = refl
set-append [] rest x v (suc j) e = absurd (omega arith)
set-append (p ∷ pre) rest x v zero e = absurd (omega arith)
set-append (p ∷ pre) rest x v (suc j) e = ap (◌∷◌ p) (set-append pre rest x v j (omega arith))

pub get_or-append :
    (pre rest : List ℕ) (x j : ℕ) → length pre ≡ j → get_or (pre ++ x ∷ rest) j 0 ≡ x
get_or-append [] rest x zero e = refl
get_or-append [] rest x (suc j) e = absurd (omega arith)
get_or-append (p ∷ pre) rest x zero e = absurd (omega arith)
get_or-append (p ∷ pre) rest x (suc j) e = get_or-append pre rest x j (omega arith)

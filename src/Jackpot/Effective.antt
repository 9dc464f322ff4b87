-- ===== src/Jackpot/Effective.antt =====
-- The effective strips: secret plus noise, byte by byte, as wrapping 8-bit sums. A secret value
-- is from -64 to 63, as every signal source of the repository draws it, and a noise value from -64
-- to 64; of two values that are both 64 the 8-bit sum would wrap.
use aria_t.Base.{ℕ, zero, suc, ◌+◌, ◌≤◌, ◌<◌, ◌≡◌, ◌⊎◌, refl, ap, arith}
use aria_t.Base.{List, [], ◌∷◌, length, get_elem?, get_or, All, some}
use aria_t.Base.Words.{u8, u32, i8_to_i32, IsBytes}

-- `sa[l].wrapping_add(na[l])` along a row, and row by row.
unfoldable pub eff_row : List ℕ → List ℕ → List ℕ
eff_row (x ∷ s) (y ∷ n) = u8 (x + y) ∷ eff_row s n
eff_row _ _ = []

unfoldable pub eff_rows : List (List ℕ) → List (List ℕ) → List (List ℕ)
eff_rows (s ∷ secret) (n ∷ noise) = eff_row s n ∷ eff_rows secret noise
eff_rows _ _ = []

-- The bit patterns of -64 to 63, and of -64 to 64.
abbrev pub IsSignal : ℕ → Type 0
IsSignal x = (x < 64) ⊎ ((192 ≤ x) × (x < 256))

abbrev pub IsNoise : ℕ → Type 0
IsNoise x = (x ≤ 64) ⊎ ((192 ≤ x) × (x < 256))

-- Rows of `k` such values.
abbrev pub IsStrip : (ℕ → Type 0) → ℕ → List ℕ → Type 0
IsStrip P k row = (length row ≡ k) × All P row

abbrev pub AreStrips : (ℕ → Type 0) → ℕ → List (List ℕ) → Type 0
AreStrips P k rows = All (IsStrip P k) rows

pub i8-sum :
    (x y : ℕ) → IsSignal x → IsNoise y → i8_to_i32 (u8 (x + y)) ≡ u32 (i8_to_i32 x + i8_to_i32 y)
unfolding i8_to_i32
i8-sum x y hx hy = ground arith

pub length-eff_row : (s n : List ℕ) → length s ≡ length n → length (eff_row s n) ≡ length s
unfolding eff_row
length-eff_row [] n e = refl
length-eff_row (x ∷ s) [] e = absurd (omega arith)
length-eff_row (x ∷ s) (y ∷ n) e = ap suc (length-eff_row s n (omega arith))

pub eff_row-IsBytes : (s n : List ℕ) → IsBytes (eff_row s n)
unfolding eff_row
eff_row-IsBytes [] n = tt
eff_row-IsBytes (x ∷ s) [] = tt
eff_row-IsBytes (x ∷ s) (y ∷ n) = (omega arith, eff_row-IsBytes s n)

pub eff_row-get :
    (s n : List ℕ) (l : ℕ)
    → length s ≡ length n
    → All IsSignal s
    → All IsNoise n
    → i8_to_i32 (get_or (eff_row s n) l 0)
      ≡ u32 (i8_to_i32 (get_or s l 0) + i8_to_i32 (get_or n l 0))
unfolding eff_row
eff_row-get [] [] l e hs hn = unfold i8_to_i32 in refl
eff_row-get [] (y ∷ n) l e hs hn = absurd (omega arith)
eff_row-get (x ∷ s) [] l e hs hn = absurd (omega arith)
eff_row-get (x ∷ s) (y ∷ n) zero e hs hn = i8-sum x y hs.0 hn.0
eff_row-get (x ∷ s) (y ∷ n) (suc l) e hs hn = eff_row-get s n l (omega arith) hs.1 hn.1

-- Which rows an effective row comes from.
pub record IsPair (k : ℕ) (a s n : List ℕ) : Type 0 where
  pub sum_of : a ≡ eff_row s n
  pub secret : IsStrip IsSignal k s
  pub noise : IsStrip IsNoise k n

pub eff_rows-get :
    (k : ℕ) (ss ns : List (List ℕ)) (u : ℕ) (a : List ℕ)
    → AreStrips IsSignal k ss
    → AreStrips IsNoise k ns
    → get_elem? (eff_rows ss ns) u ≡ some a
    → IsPair k a (get_or ss u []) (get_or ns u [])
unfolding eff_rows
eff_rows-get k [] ns u a hs hn e = absurd (cc)
eff_rows-get k (s ∷ ss) [] u a hs hn e = absurd (cc)
eff_rows-get k (s ∷ ss) (n ∷ ns) zero a hs hn e = record {
  sum_of = cc;
  secret = hs.0;
  noise = hn.0;
}
eff_rows-get k (s ∷ ss) (n ∷ ns) (suc u) a hs hn e = eff_rows-get k ss ns u a hs.1 hn.1 e

pub length-eff_rows :
    (ss ns : List (List ℕ)) → length ss ≡ length ns → length (eff_rows ss ns) ≡ length ss
unfolding eff_rows
length-eff_rows [] ns e = refl
length-eff_rows (s ∷ ss) [] e = absurd (omega arith)
length-eff_rows (s ∷ ss) (n ∷ ns) e = ap suc (length-eff_rows ss ns (omega arith))

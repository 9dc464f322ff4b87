-- ===== src/Microkernel/Pieces.antt =====
-- One window of the columns in the kernels of src/microkernel.rs: the lanes of the products and of
-- the bias after a number of steps of four columns, and the store that takes the cells past it.
use mathlib.Core.List.{flat_map}
use aria_t.Base.{ℕ, zero, suc, ◌+◌, ◌*◌, ◌≤◌, ◌≡◌, refl, sym, ◌∙◌, arith}
use aria_t.Base.{List, [], ◌∷◌, map, length, take, drop, replicate, All}
use aria_t.Base.{length-take, length-drop, All-take, All-drop, drop-drop}
use aria_t.Base.Words.{u32, IsByte, IsBytes}
use aria_t.Vnni.{dpbusd, xor_bias}
use aria_t.Vnni.Sums.{dot, dot_u8, sum_i8, dot_u8-xor_bias, length-xor_bias}
use aria_t.Jackpot.{cell}
use aria_t.Jackpot.Rows.{dot-take, cell-step, take-nil}
use aria_t.Microkernel.{broadcast, store_group}
use aria_t.Microkernel.Lanes.{
  dpbusd-map, xor_bias-broadcast, replicate-broadcast, dot_u8-ones_4, map-ext, map-same,
  store_group-map,
}

unfoldable pub quad : ℕ → List ℕ → List ℕ
quad at c = take 4 (drop at c)

-- A lane of the products, of bytes that the bias made unsigned, and of the bias, over the `n`
-- columns from `l0` on.
unfoldable pub prod : ℕ → ℕ → List ℕ → List ℕ → ℕ
prod l0 n a c =
    u32 (dot (take n (drop l0 a)) (take n (drop l0 c)) + 128 * sum_i8 (take n (drop l0 c)))

unfoldable pub bias : ℕ → ℕ → List ℕ → ℕ
bias l0 n c = u32 (sum_i8 (take n (drop l0 c)))

sum_i8-take :
    (n r k : ℕ) (c : List ℕ)
    → n + r ≡ k
    → sum_i8 (take k c) ≡ sum_i8 (take n c) + sum_i8 (take r (drop n c))
unfolding sum_i8
sum_i8-take zero r k c e = let e' : r ≡ k = omega arith in rw e' (omega arith)
sum_i8-take (suc n) r zero c e = absurd (omega arith)
sum_i8-take (suc n) r (suc k) [] e = rw (take-nil r) refl
sum_i8-take (suc n) r (suc k) (y ∷ c) e = omega (arith, sum_i8-take n r k c (omega arith))

length-quad : (at : ℕ) (c : List ℕ) → at + 4 ≤ length c → length (quad at c) ≡ 4
unfolding quad
length-quad at c h = omega (arith, length-take 4 (drop at c), length-drop at c)

module _ (l0 n : ℕ) where
  pub prod-step :
      (a c : List ℕ)
      → IsBytes a
      → length a ≡ length c
      → l0 + n + 4 ≤ length c
      → u32 (prod l0 n a c + dot_u8 (xor_bias (quad (l0 + n) a)) (quad (l0 + n) c))
        ≡ prod l0 (n + 4) a c
  unfolding prod quad
  prod-step a c bytes same room =
      let at : n + l0 ≡ l0 + n = omega arith in
      let qa = take 4 (drop (l0 + n) a) in
      let qc = take 4 (drop (l0 + n) c) in
      let la = length-quad (l0 + n) a (omega arith) in
      let lc = length-quad (l0 + n) c room in
      let flip =
        dot_u8-xor_bias qa qc
          (All-take IsByte 4 (drop (l0 + n) a) (All-drop IsByte (l0 + n) a bytes)) (la ∙ sym lc) in
      let dots =
        rw (drop-drop n l0 (l0 + n) a at, drop-drop n l0 (l0 + n) c at) at
          (dot-take n 4 (n + 4) (drop l0 a) (drop l0 c) refl) in
      let sums = rw (drop-drop n l0 (l0 + n) c at) at (sum_i8-take n 4 (n + 4) (drop l0 c) refl) in
      omega (arith, flip, dots, sums)

  pub bias-step :
      (c : List ℕ)
      → l0 + n + 4 ≤ length c
      → u32 (bias l0 n c + dot_u8 (1 ∷ 1 ∷ 1 ∷ 1 ∷ []) (quad (l0 + n) c)) ≡ bias l0 (n + 4) c
  unfolding bias quad
  bias-step c room =
      let at : n + l0 ≡ l0 + n = omega arith in
      let ones = dot_u8-ones_4 (take 4 (drop (l0 + n) c)) (length-quad (l0 + n) c room) in
      let sums = rw (drop-drop n l0 (l0 + n) c at) at (sum_i8-take n 4 (n + 4) (drop l0 c) refl) in
      omega (arith, ones, sums)

-- The store takes the cells of a row from `l0` columns to `l0 + r`.
pub store_group-cell :
    (l0 r : ℕ) (a : List ℕ) (cols : List (List ℕ))
    → store_group (map (cell l0 a) cols) (map (prod l0 r a) cols) (map (bias l0 r) cols)
      ≡ map (cell (l0 + r) a) cols
unfolding prod bias
store_group-cell l0 r a cols =
    store_group-map (cell l0 a) (prod l0 r a) (bias l0 r) cols
    ∙ map-same _ (cell (l0 + r) a) cols λ c. omega (arith, cell-step l0 r a c)

-- Strips of `k` bytes.
abbrev pub IsStrip : ℕ → List ℕ → Type 0
IsStrip k c = length c ≡ k

module _ (k l0 n : ℕ) (room : l0 + n + 4 ≤ k) where
  quads_long :
      (cols : List (List ℕ)) → All (IsStrip k) cols → All (λ c. length (quad (l0 + n) c) ≡ 4) cols
  quads_long [] h = tt
  quads_long (c ∷ cols) h = (length-quad (l0 + n) c (omega (arith, h.0)), quads_long cols h.1)

  module _ (cols : List (List ℕ)) (long : All (IsStrip k) cols) where
    pub dpbusd-prod :
        (f : List ℕ → ℕ) (g : List ℕ → ℕ) (a : List ℕ)
        → IsStrip k a
        → ((c : List ℕ)
            → IsStrip k c
            → u32 (f c + dot_u8 (xor_bias (quad (l0 + n) a)) (quad (l0 + n) c)) ≡ g c)
        → dpbusd
            (map f cols)
            (xor_bias (broadcast (length cols) (quad (l0 + n) a)))
            (flat_map (quad (l0 + n)) cols)
          ≡ map g cols
    dpbusd-prod f g a la step =
        rw (xor_bias-broadcast (length cols) (quad (l0 + n) a)) (
          dpbusd-map (quad (l0 + n)) f (xor_bias (quad (l0 + n) a)) cols
            (length-xor_bias (quad (l0 + n) a) ∙ length-quad (l0 + n) a (omega arith))
            (quads_long cols long))
        ∙ map-ext _ g (IsStrip k) cols long step

    pub dpbusd-bias :
        dpbusd
          (map (bias l0 n) cols)
          (replicate (length cols * 4) 1)
          (flat_map (quad (l0 + n)) cols)
        ≡ map (bias l0 (n + 4)) cols
    dpbusd-bias =
        rw (replicate-broadcast (length cols)) (
          dpbusd-map (quad (l0 + n)) (bias l0 n) (1 ∷ 1 ∷ 1 ∷ 1 ∷ []) cols refl
            (quads_long cols long))
        ∙ map-ext _ (bias l0 (n + 4)) (IsStrip k) cols long λ c h. bias-step l0 n c (omega arith)

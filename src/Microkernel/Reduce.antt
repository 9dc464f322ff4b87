-- ===== src/Microkernel/Reduce.antt =====
-- `xor_reduce_128` and `xor_reduce_128_avx2` of src/microkernel.rs against the fold, cell by cell,
-- of the scalar paths.
use Prim.Native.Nat.{bit_xor, bit_xor-bitwise}
use aria_t.Base.{ℕ, zero, suc, ◌+◌, ◌-◌, ◌*◌, ◌≤◌, ◌≡◌, refl, ap, sym, ◌∙◌, arith}
use aria_t.Base.{
  List, [], ◌∷◌, ◌++◌, length, take, drop, length-take, length-drop, take-append-drop,
}
use aria_t.Base.Xor.{xor_comm, xor_assoc}
use aria_t.Jackpot.{xor_fold}
use aria_t.Jackpot.Rows.{xor_fold-append, take-nil}
use aria_t.Jackpot.Tile.{range}
use aria_t.Microkernel.{
  for_each, xor_lanes, xor_scalars, xor_halves, xor_reduce_128, xor_reduce_128_avx2,
}

xor_zero : (a : ℕ) → bit_xor 0 a ≡ a
xor_zero a = simp bit_xor-bitwise (omega arith)

xor_medial :
    (a b x y : ℕ) → bit_xor (bit_xor a b) (bit_xor x y) ≡ bit_xor (bit_xor a x) (bit_xor b y)
xor_medial a b x y =
    xor_assoc a b (bit_xor x y)
    ∙ ap (bit_xor a)
        (sym (xor_assoc b x y) ∙ ap (λ (t : ℕ). bit_xor t y) (xor_comm b x) ∙ xor_assoc x b y)
    ∙ sym (xor_assoc a x (bit_xor b y))

xor_fold-xor : (a b : ℕ) (xs : List ℕ) → xor_fold (bit_xor a b) xs ≡ bit_xor a (xor_fold b xs)
unfolding xor_fold
xor_fold-xor a b [] = refl
xor_fold-xor a b (x ∷ xs) =
    ap (λ (t : ℕ). xor_fold t xs) (xor_assoc a b x) ∙ xor_fold-xor a (bit_xor b x) xs

xor_fold-lanes :
    (a b : ℕ) (u v : List ℕ)
    → length u ≡ length v
    → xor_fold (bit_xor a b) (xor_lanes u v) ≡ bit_xor (xor_fold a u) (xor_fold b v)
unfolding xor_fold xor_lanes
xor_fold-lanes a b [] [] e = refl
xor_fold-lanes a b [] (y ∷ v) e = absurd (omega arith)
xor_fold-lanes a b (x ∷ u) [] e = absurd (omega arith)
xor_fold-lanes a b (x ∷ u) (y ∷ v) e =
    ap (λ (t : ℕ). xor_fold t (xor_lanes u v)) (xor_medial a b x y)
    ∙ xor_fold-lanes (bit_xor a x) (bit_xor b y) u v (omega arith)

length-xor_lanes : (u v : List ℕ) → length u ≡ length v → length (xor_lanes u v) ≡ length u
unfolding xor_lanes
length-xor_lanes [] v e = refl
length-xor_lanes (x ∷ u) [] e = absurd (omega arith)
length-xor_lanes (x ∷ u) (y ∷ v) e = ap suc (length-xor_lanes u v (omega arith))

-- One register onto another is their cells one after the other.
fold-xor_lanes :
    (u v : List ℕ) → length u ≡ length v → xor_fold 0 (xor_lanes u v) ≡ xor_fold 0 (u ++ v)
fold-xor_lanes u v e =
    xor_fold-lanes 0 0 u v e
    ∙ sym (xor_fold-xor (xor_fold 0 u) 0 v)
    ∙ ap (λ (t : ℕ). xor_fold t v) (xor_comm (xor_fold 0 u) 0 ∙ xor_zero (xor_fold 0 u))
    ∙ sym (xor_fold-append 0 u v)

pub take_split : (m n k : ℕ) (p : List ℕ) → m + n ≡ k → take k p ≡ take m p ++ take n (drop m p)
take_split zero n k p e = let e' : n ≡ k = omega arith in rw e' refl
take_split (suc m) n zero p e = absurd (omega arith)
take_split (suc m) n (suc k) [] e = sym (take-nil n)
take_split (suc m) n (suc k) (x ∷ p) e = ap (◌∷◌ x) (take_split m n k p (omega arith))

module _ (w : ℕ) (p : List ℕ) where
  fold_loop :
      (n i : ℕ) (v : List ℕ)
      → (i + n) * w ≤ length p
      → length v ≡ w
      → xor_fold 0 v ≡ xor_fold 0 (take (i * w) p)
      → (length (for_each n i (λ i v. xor_lanes v (range p (i * w) (i * w + w))) v) ≡ w)
        × (xor_fold 0 (for_each n i (λ i v. xor_lanes v (range p (i * w) (i * w + w))) v)
            ≡ xor_fold 0 (take ((i + n) * w) p))
  unfolding for_each range
  fold_loop zero i v room size same = let e : i + 0 ≡ i = omega arith in (size, rw e same)
  fold_loop (suc n) i v room size same =
      let next : i + 1 + n ≡ i + suc n = omega arith in
      let at : i * w + w ≡ (i + 1) * w = omega arith in
      let one : i * w + w - i * w ≡ w = omega arith in
      let most : (i + 1) * w ≤ (i + suc n) * w = omega arith in
      let part = range p (i * w) (i * w + w) in
      let wide : length v ≡ length part =
        omega
          (arith, size, length-take (i * w + w - i * w) (drop (i * w) p), length-drop (i * w) p) in
      let read : xor_fold 0 (xor_lanes v part) ≡ xor_fold 0 (take ((i + 1) * w) p) =
        fold-xor_lanes v part wide
        ∙ xor_fold-append 0 v part
        ∙ rw (one, same) (sym (xor_fold-append 0 (take (i * w) p) (take w (drop (i * w) p))))
        ∙ ap (xor_fold 0) (sym (take_split (i * w) w ((i + 1) * w) p at)) in
      let rest =
        fold_loop n (i + 1) (xor_lanes v part) (rw next room) (length-xor_lanes v part wide ∙ size)
          read in
      rw next at rest

fold-xor_halves :
    (n : ℕ) (v : List ℕ)
    → length v ≡ n + n
    → (length (xor_halves n v) ≡ n) × (xor_fold 0 (xor_halves n v) ≡ xor_fold 0 v)
unfolding xor_halves
fold-xor_halves n v e =
    let low : length (take n v) ≡ n = omega (arith, length-take n v) in
    let high : length (drop n v) ≡ n = omega (arith, length-drop n v) in
    (
      length-xor_lanes (take n v) (drop n v) (low ∙ sym high) ∙ low,
      fold-xor_lanes (take n v) (drop n v) (low ∙ sym high)
          ∙ ap (xor_fold 0) (take-append-drop n v),
    )

fold-xor_scalars : (v : List ℕ) → length v ≡ 4 → xor_scalars v ≡ xor_fold 0 v
unfolding xor_scalars xor_fold
fold-xor_scalars [] e = absurd (omega arith)
fold-xor_scalars (a ∷ []) e = absurd (omega arith)
fold-xor_scalars (a ∷ b ∷ []) e = absurd (omega arith)
fold-xor_scalars (a ∷ b ∷ c ∷ []) e = absurd (omega arith)
fold-xor_scalars (a ∷ b ∷ c ∷ d ∷ x ∷ v) e = absurd (omega arith)
fold-xor_scalars (a ∷ b ∷ c ∷ d ∷ []) e = rw (xor_zero a) refl

take_full : (n : ℕ) (p : List ℕ) → length p ≡ n → take n p ≡ p
take_full n [] e = take-nil n
take_full zero (x ∷ p) e = absurd (omega arith)
take_full (suc n) (x ∷ p) e = ap (◌∷◌ x) (take_full n p (omega arith))

pub xor_reduce_128-fold : (p : List ℕ) → 128 ≤ length p → xor_reduce_128 p ≡ xor_fold 0 (take 128 p)
unfolding xor_reduce_128 range
xor_reduce_128-fold p e =
    let all = fold_loop 16 p 7 1 (take 16 p) (omega arith) (omega (arith, length-take 16 p)) refl in
    let eight = fold-xor_halves 8 _ all.0 in
    let four = fold-xor_halves 4 _ eight.0 in fold-xor_scalars _ four.0 ∙ four.1 ∙ eight.1 ∙ all.1

pub xor_reduce_128_avx2-fold :
    (p : List ℕ) → 128 ≤ length p → xor_reduce_128_avx2 p ≡ xor_fold 0 (take 128 p)
unfolding xor_reduce_128_avx2 range
xor_reduce_128_avx2-fold p e =
    let all = fold_loop 8 p 15 1 (take 8 p) (omega arith) (omega (arith, length-take 8 p)) refl in
    let four = fold-xor_halves 4 _ all.0 in fold-xor_scalars _ four.0 ∙ four.1 ∙ all.1

pub xor_reduce_128-full : (p : List ℕ) → length p ≡ 128 → xor_reduce_128 p ≡ xor_fold 0 p
xor_reduce_128-full p e = xor_reduce_128-fold p (omega arith) ∙ ap (xor_fold 0) (take_full 128 p e)

pub xor_reduce_128_avx2-full : (p : List ℕ) → length p ≡ 128 → xor_reduce_128_avx2 p ≡ xor_fold 0 p
xor_reduce_128_avx2-full p e =
    xor_reduce_128_avx2-fold p (omega arith) ∙ ap (xor_fold 0) (take_full 128 p e)

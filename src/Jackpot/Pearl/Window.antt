-- ===== src/Jackpot/Pearl/Window.antt =====
-- The inner loop of `compute_jackpot_pearl` (src/pearl_compute.rs) is the dot product of the
-- effective strips over the window.
use native.Mathlib.Numerals.{add-one}
use aria_t.Base.{ℕ, zero, suc, ◌+◌, ◌*◌, ◌^◌, ◌≤◌, ◌<◌, ◌≡◌, refl, ap, sym, ◌∙◌, arith}
use aria_t.Base.{List, length, get_or, take, drop, drop-get}
use aria_t.Base.Words.{u32, i8_to_i32, wrapping_add, wrapping_mul}
use aria_t.Vnni.Sums.{dot}
use aria_t.Jackpot.Effective.{eff_row-get, length-eff_row, IsPair}
use aria_t.Jackpot.Pearl.{mac_window}

window-suc :
    (n l : ℕ) (a b : List ℕ)
    → l < length a
    → l < length b
    → dot (take (suc n) (drop l a)) (take (suc n) (drop l b))
      ≡ i8_to_i32 (get_or a l 0) * i8_to_i32 (get_or b l 0)
        + dot (take n (drop (l + 1) a)) (take n (drop (l + 1) b))
unfolding dot
window-suc n l a b ha hb = rw (add-one, drop-get l a 0 ha, drop-get l b 0 hb) refl

module _ (k : ℕ) (sa na sb nb a b : List ℕ) (pa : IsPair k a sa na) (pb : IsPair k b sb nb) where
  long_a : length a ≡ k
  long_a = ap length pa.sum_of ∙ length-eff_row sa na (pa.secret.0 ∙ sym pa.noise.0) ∙ pa.secret.0

  long_b : length b ≡ k
  long_b = ap length pb.sum_of ∙ length-eff_row sb nb (pb.secret.0 ∙ sym pb.noise.0) ∙ pb.secret.0

  at_a :
      (l : ℕ)
      → i8_to_i32 (get_or a l 0) ≡ u32 (i8_to_i32 (get_or sa l 0) + i8_to_i32 (get_or na l 0))
  at_a l =
      rw (pa.sum_of) (eff_row-get sa na l (pa.secret.0 ∙ sym pa.noise.0) pa.secret.1 pa.noise.1)

  at_b :
      (l : ℕ)
      → i8_to_i32 (get_or b l 0) ≡ u32 (i8_to_i32 (get_or sb l 0) + i8_to_i32 (get_or nb l 0))
  at_b l =
      rw (pb.sum_of) (eff_row-get sb nb l (pb.secret.0 ∙ sym pb.noise.0) pb.secret.1 pb.noise.1)

  pub mac_window-dot :
      (n l acc : ℕ)
      → l + n ≤ k
      → u32 (mac_window sa na sb nb n l acc)
        ≡ u32 (acc + dot (take n (drop l a)) (take n (drop l b)))
  unfolding mac_window
  mac_window-dot zero l acc h = unfold dot in omega arith
  mac_window-dot (suc n) l acc h =
      let x = i8_to_i32 (get_or a l 0) in
      let y = i8_to_i32 (get_or b l 0) in
      let ih = mac_window-dot n (l + 1) (wrapping_add acc (wrapping_mul x y)) (omega arith) in
      rw (← at_a l, ← at_b l)
        (omega (arith, ih, window-suc n l a b (omega (arith, long_a)) (omega (arith, long_b))))

  pub mac_window-lt : (n l acc : ℕ) → acc < 2 ^ 32 → mac_window sa na sb nb n l acc < 2 ^ 32
  unfolding mac_window
  mac_window-lt zero l acc h = h
  mac_window-lt (suc n) l acc h = mac_window-lt n (l + 1) _ (omega arith)

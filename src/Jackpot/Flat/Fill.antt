-- ===== src/Jackpot/Flat/Fill.antt =====
-- The flat buffers that `compute_jackpot_flat` (src/pearl_compute.rs) fills are the effective
-- strips one after another.
use aria_t.Base.{ℕ, zero, suc, ◌+◌, ◌*◌, ◌≡◌, refl, ap, ap₂, sym, ◌∙◌, arith}
use aria_t.Base.{
  List, [], ◌∷◌, ◌++◌, length, get_or, take, drop, All, drop-get, drop_all, length-take,
  length-drop,
}
use aria_t.Base.{length-append}
use aria_t.Jackpot.Effective.{AreStrips, IsSignal, IsNoise, eff_row, eff_rows}
use aria_t.Jackpot.Rows.{take-append, drop-append, append_assoc}
use aria_t.Jackpot.Tile.Walk.{strip, strips}
use aria_t.Jackpot.Flat.{fill_row, fill_rows, upto}

-- The rows one after another.
unfoldable pub joined : List (List ℕ) → List ℕ
joined [] = []
joined (row ∷ rows) = row ++ joined rows

fill_row-eff_row :
    (dst s n : List ℕ) (l : ℕ)
    → length s ≡ l + length dst
    → length n ≡ l + length dst
    → fill_row dst s n l ≡ eff_row (drop l s) (drop l n)
unfolding fill_row eff_row
fill_row-eff_row [] s n l hs hn = rw (drop_all l s (omega arith)) refl
fill_row-eff_row (old ∷ dst) s n l hs hn =
    let next : l + 1 ≡ suc l = omega arith in
    let tail = fill_row-eff_row dst s n (l + 1) (omega arith) (omega arith) in
    let gs = rw (← next) at (drop-get l s 0 (omega arith)) in
    let gn = rw (← next) at (drop-get l n 0 (omega arith)) in rw (gs, gn, tail) refl

module _ (k : ℕ) where
  pub fill_rows-joined :
      (h u : ℕ) (buf : List ℕ) (secret noise : List (List ℕ))
      → length buf ≡ h * k
      → length secret ≡ u + h
      → length noise ≡ u + h
      → AreStrips IsSignal k (drop u secret)
      → AreStrips IsNoise k (drop u noise)
      → fill_rows k u h buf secret noise ≡ joined (eff_rows (drop u secret) (drop u noise))
  unfolding fill_rows joined eff_rows
  fill_rows-joined zero u [] secret noise e hs hn ps pn = rw (drop_all u secret (omega arith)) refl
  fill_rows-joined zero u (x ∷ buf) secret noise e hs hn ps pn = absurd (omega arith)
  fill_rows-joined (suc h) u buf secret noise e hs hn ps pn =
      let next : u + 1 ≡ suc u = omega arith in
      let gs : drop u secret ≡ get_or secret u [] ∷ drop (u + 1) secret =
        rw (← next) at (drop-get u secret [] (omega arith)) in
      let gn : drop u noise ≡ get_or noise u [] ∷ drop (u + 1) noise =
        rw (← next) at (drop-get u noise [] (omega arith)) in
      let qs : AreStrips IsSignal k (get_or secret u [] ∷ drop (u + 1) secret) = rw gs at ps in
      let qn : AreStrips IsNoise k (get_or noise u [] ∷ drop (u + 1) noise) = rw gn at pn in
      let size : length (take k buf) ≡ k = omega (arith, length-take k buf) in
      let row =
        fill_row-eff_row (take k buf) (get_or secret u []) (get_or noise u []) 0
          (omega (arith, qs.0.0)) (omega (arith, qn.0.0)) in
      let others =
        fill_rows-joined h (u + 1) (drop k buf) secret noise (omega (arith, length-drop k buf))
          (omega arith) (omega arith) qs.1 qn.1 in
      rw (gs, gn, row, others) refl

  pub strips-joined :
      (rows : List (List ℕ)) (u : ℕ) (pre : List ℕ)
      → length pre ≡ u * k
      → All (λ row. length row ≡ k) rows
      → strips k (pre ++ joined rows) (upto u (length rows)) ≡ rows
  unfolding upto joined strip
  strips-joined [] u pre e h = refl
  strips-joined (row ∷ rows) u pre e h =
      ap₂ ◌∷◌
        (rw (drop-append (u * k) pre (row ++ joined rows) e) (take-append k row (joined rows) h.0))
        (ap (λ (t : List ℕ). strips k t (upto (u + 1) (length rows)))
            (sym (append_assoc pre row (joined rows)))
          ∙ (strips-joined rows (u + 1) (pre ++ row) (omega (arith, length-append pre row, h.0))
              h.1))

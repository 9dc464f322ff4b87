-- ===== src/Microkernel/Rounds.antt =====
-- The rounds of the kernels of src/microkernel.rs on the packed columns: each takes the registers of
-- a group four columns further.
use mathlib.Core.List.{flat_map}
use aria_t.Base.{ℕ, ◌+◌, ◌*◌, ◌/◌, ◌%◌, ◌≤◌, ◌<◌, ◌≡◌, refl, ap₂, sym, ◌∙◌, arith}
use aria_t.Base.{List, [], ◌∷◌, map, length, drop, All, length-map}
use aria_t.Base.{length-take, length-drop, All-take, All-drop}
use aria_t.Base.Words.{u32, IsByte, IsBytes}
use aria_t.Vnni.{dpbusd, xor_bias}
use aria_t.Vnni.Sums.{dot_u8}
use aria_t.Jackpot.Flat.{upto}
use aria_t.Jackpot.Flat.Laws.{length-upto}
use aria_t.Jackpot.Tile.Walk.{strip, InBatch}
use aria_t.Microkernel.{grp_off, b_vec, a_vec, mac_rows, mac_bias, broadcast}
use aria_t.Microkernel.Pieces.{quad, prod, bias, IsStrip, prod-step, dpbusd-prod, dpbusd-bias}
use aria_t.Microkernel.Packing.{columns, IsPacked, quad-range}

pub strip-IsStrip : (k : ℕ) (buf : List ℕ) (i : ℕ) → InBatch k buf i → IsStrip k (strip k buf i)
unfolding strip
strip-IsStrip k buf i inside =
    omega (arith, inside, length-take k (drop (i * k) buf), length-drop (i * k) buf)

pub strip-IsBytes : (k : ℕ) (buf : List ℕ) (i : ℕ) → IsBytes buf → IsBytes (strip k buf i)
unfolding strip
strip-IsBytes k buf i h = All-take IsByte k (drop (i * k) buf) (All-drop IsByte (i * k) buf h)

pub length-columns : (lanes k : ℕ) (b : List ℕ) (grp : ℕ) → length (columns lanes k b grp) ≡ lanes
unfolding columns
length-columns lanes k b grp =
    length-map (strip k b) (upto (grp * lanes) lanes) ∙ length-upto (grp * lanes) lanes

module _ (lanes : ℕ) (a_eff b_eff packed : List ℕ) (k l0 groups grp : ℕ)
    (is_packed : IsPacked lanes k b_eff groups packed) (below : grp < groups) (whole : l0 % 4 ≡ 0)
    (bytes : IsBytes a_eff) (long : All (IsStrip k) (columns lanes k b_eff grp)) (kk : ℕ)
    (room : l0 + kk * 4 + 4 ≤ k) where
  b_vec-columns :
      b_vec lanes a_eff packed k l0 grp kk
      ≡ flat_map (quad (l0 + kk * 4)) (columns lanes k b_eff grp)
  unfolding b_vec grp_off IsPacked
  b_vec-columns =
      let at : grp * (k / 4 * (lanes * 4)) + l0 / 4 * (lanes * 4) + kk * (lanes * 4)
          ≡ (grp * (k / 4) + (l0 / 4 + kk)) * (lanes * 4) =
        omega arith in
      let step : (l0 / 4 + kk) * 4 ≡ l0 + kk * 4 = omega arith in
      rw (at, ← step) (is_packed grp (l0 / 4 + kk) below (omega arith))

  a_vec-quad :
      (row : ℕ)
      → a_vec lanes a_eff packed k l0 row kk
        ≡ xor_bias (broadcast lanes (quad (l0 + kk * 4) (strip k a_eff row)))
  unfolding a_vec
  a_vec-quad row = rw (quad-range k a_eff row (l0 + kk * 4) room) refl

  -- The lanes of one row, whatever sums its columns' lanes hold.
  pub dpbusd-row :
      (row : ℕ) (f g : List ℕ → ℕ)
      → InBatch k a_eff row
      → ((c : List ℕ)
          → IsStrip k c
          → u32 (
              f c
              + dot_u8 (xor_bias (quad (l0 + kk * 4) (strip k a_eff row))) (quad (l0 + kk * 4) c))
            ≡ g c)
      → dpbusd
          (map f (columns lanes k b_eff grp))
          (a_vec lanes a_eff packed k l0 row kk)
          (b_vec lanes a_eff packed k l0 grp kk)
        ≡ map g (columns lanes k b_eff grp)
  dpbusd-row row f g inside step =
      rw (a_vec-quad row, b_vec-columns)
        (rw (length-columns lanes k b_eff grp) at (
          dpbusd-prod k l0 (kk * 4) room (columns lanes k b_eff grp) long f g (strip k a_eff row)
            (strip-IsStrip k a_eff row inside) step))

  pub mac_bias-step :
      mac_bias lanes a_eff packed k l0 grp kk (map (bias l0 (kk * 4)) (columns lanes k b_eff grp))
      ≡ map (bias l0 (kk * 4 + 4)) (columns lanes k b_eff grp)
  unfolding mac_bias
  mac_bias-step = rw (b_vec-columns) (
      rw (length-columns lanes k b_eff grp) at
        (dpbusd-bias k l0 (kk * 4) room (columns lanes k b_eff grp) long))

  pub mac_rows-map :
      (f g : List ℕ → List ℕ → ℕ) (rows : List ℕ)
      → All (InBatch k a_eff) rows
      → ((a c : List ℕ)
          → IsBytes a
          → IsStrip k a
          → IsStrip k c
          → u32 (f a c + dot_u8 (xor_bias (quad (l0 + kk * 4) a)) (quad (l0 + kk * 4) c)) ≡ g a c)
      → mac_rows lanes a_eff packed k l0 rows grp kk
          (map (λ row. map (f (strip k a_eff row)) (columns lanes k b_eff grp)) rows)
        ≡ map (λ row. map (g (strip k a_eff row)) (columns lanes k b_eff grp)) rows
  unfolding mac_rows
  mac_rows-map f g [] h step = refl
  mac_rows-map f g (row ∷ rows) h step =
      ap₂ ◌∷◌
        (dpbusd-row row (f (strip k a_eff row)) (g (strip k a_eff row)) h.0 (λ c hc.
          step (strip k a_eff row) c (strip-IsBytes k a_eff row bytes)
            (strip-IsStrip k a_eff row h.0) hc))
        (mac_rows-map f g rows h.1 step)

  pub mac_rows-prod :
      (rows : List ℕ)
      → All (InBatch k a_eff) rows
      → mac_rows lanes a_eff packed k l0 rows grp kk
          (map (λ row. map (prod l0 (kk * 4) (strip k a_eff row)) (columns lanes k b_eff grp)) rows)
        ≡ map
            (λ row. map (prod l0 (kk * 4 + 4) (strip k a_eff row)) (columns lanes k b_eff grp))
            rows
  mac_rows-prod rows h =
      mac_rows-map (prod l0 (kk * 4)) (prod l0 (kk * 4 + 4)) rows h
        λ a c ba la lc. prod-step l0 (kk * 4) a c ba (la ∙ sym lc) (omega arith)

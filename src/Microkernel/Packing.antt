-- ===== src/Microkernel/Packing.antt =====
-- The packed columns of src/microkernel.rs: four bytes of each column of a group, the groups and
-- the steps of four columns in the order in which the kernels read them.
use mathlib.Core.List.{flat_map}
use native.Mathlib.Nat.{mul-le-mul_left, mul-le-mul, div-mul-le_self}
use aria_t.Base.{ℕ, zero, suc, ◌+◌, ◌-◌, ◌*◌, ◌/◌, ◌≤◌, ◌<◌, ◌≡◌, refl, ap, ap₂, sym, ◌∙◌, arith}
use aria_t.Base.{List, [], ◌++◌, map, length, drop, resize}
use aria_t.Base.{
  ==_iff, ◌==◌, Bool-cases, inl, inr, length-resize, drop-drop, length-take, length-drop,
}
use aria_t.Jackpot.Flat.{upto}
use aria_t.Jackpot.Rows.{take-append}
use aria_t.Jackpot.Tile.{range}
use aria_t.Jackpot.Tile.Walk.{strip, take-drop-take}
use aria_t.Microkernel.{for_each, pack_quad, pack_b}
use aria_t.Microkernel.Pieces.{quad}
use aria_t.Microkernel.Writes.{
  copy_at-append, Writes, Wide, pieces, length-pieces, for_each-Writes, drop-pieces,
}

-- The columns of a group.
unfoldable pub columns : ℕ → ℕ → List ℕ → ℕ → List (List ℕ)
columns lanes k b grp = map (strip k b) (upto (grp * lanes) lanes)

-- Every read of `lanes * 4` bytes is of the columns of one group, at one step.
unfoldable pub IsPacked : ℕ → ℕ → List ℕ → ℕ → List ℕ → Type 0
IsPacked lanes k b groups packed =
    (grp kk : ℕ)
    → grp < groups
    → kk < k / 4
    → range packed ((grp * (k / 4) + kk) * (lanes * 4))
        ((grp * (k / 4) + kk) * (lanes * 4) + lanes * 4)
      ≡ flat_map (quad (kk * 4)) (columns lanes k b grp)

pub mul-le-mul_right : {m n : ℕ} (k : ℕ) → m ≤ n → m * k ≤ n * k
mul-le-mul_right k h = mul-le-mul h (omega arith)

pieces-columns :
    (f : ℕ → List ℕ) (g : List ℕ → List ℕ) (s : ℕ → List ℕ) (from u n : ℕ)
    → ((j : ℕ) → f j ≡ g (s (from + j)))
    → flat_map f (upto u n) ≡ flat_map g (map s (upto (from + u) n))
unfolding upto flat_map
pieces-columns f g s from u zero same = refl
pieces-columns f g s from u (suc n) same =
    let next : from + (u + 1) ≡ from + u + 1 = omega arith in
    ap₂ ◌++◌ (same u) (rw next at (pieces-columns f g s from (u + 1) n same))

pub quad-range :
    (k : ℕ) (b : List ℕ) (i at : ℕ)
    → at + 4 ≤ k
    → range b (i * k + at) (i * k + at + 4) ≡ quad at (strip k b i)
unfolding range quad strip
quad-range k b i at h =
    let four : i * k + at + 4 - (i * k + at) ≡ 4 = omega arith in
    let from : at + i * k ≡ i * k + at = omega arith in
    rw (four, take-drop-take at 4 k (drop (i * k) b) h, drop-drop at (i * k) (i * k + at) b from)
      refl

module _ (lanes : ℕ) (b : List ℕ) (n_cols k : ℕ) (size : length b ≡ n_cols * k) where
  -- What the inner loop, the loop over the steps and the loop over the groups write.
  quad_of : ℕ → ℕ → ℕ → List ℕ
  quad_of g kk j = range b ((g * lanes + j) * k + kk * 4) ((g * lanes + j) * k + kk * 4 + 4)

  step_of : ℕ → ℕ → List ℕ
  step_of g kk = pieces 4 (quad_of g kk) 0 lanes

  group_of : ℕ → List ℕ
  group_of g = pieces (lanes * 4) (step_of g) 0 (k / 4)

  module _ (g : ℕ) (below : g < n_cols / lanes) where
    inside : (j : ℕ) → j < lanes → (g * lanes + j + 1) * k ≤ length b
    inside j h =
        let some_group : g + 1 ≤ n_cols / lanes = omega arith in
        let most : (g + 1) * lanes ≤ n_cols / lanes * lanes = mul-le-mul_right lanes some_group in
        let col : g * lanes + j + 1 ≤ n_cols = omega (arith, div-mul-le_self n_cols lanes) in
        omega (arith, mul-le-mul_right k col)

    quad_of-Wide : (kk : ℕ) → kk < k / 4 → Wide 4 (quad_of g kk) lanes
    unfolding quad_of Wide range
    quad_of-Wide kk hk j h =
        let at = (g * lanes + j) * k + kk * 4 in
        omega (arith, inside j h, length-take (at + 4 - at) (drop at b), length-drop at b)

    pack_quad-Writes :
        (kk : ℕ)
        → kk < k / 4
        → Writes 4
            (quad_of g kk)
            ((g * (k / 4) + kk) * (lanes * 4))
            lanes
            (pack_quad lanes b n_cols k g kk)
    unfolding pack_quad Writes quad_of Wide
    pack_quad-Writes kk hk j pre rest h at room =
        rw (quad_of-Wide kk hk j h) at
          (copy_at-append pre rest (quad_of g kk j) ((g * (k / 4) + kk) * (lanes * 4) + j * 4) at)

    step_of-Wide : Wide (lanes * 4) (step_of g) (k / 4)
    unfolding Wide step_of
    step_of-Wide kk hk =
        length-pieces 4 (quad_of g kk) lanes 0 lanes (omega arith) (quad_of-Wide kk hk)

    steps-Writes :
        Writes
          (lanes * 4)
          (step_of g)
          (g * (k / 4 * (lanes * 4)))
          (k / 4)
          (λ kk. for_each lanes 0 (pack_quad lanes b n_cols k g kk))
    unfolding Writes step_of
    steps-Writes kk pre rest hk at room =
        for_each-Writes 4 (quad_of g kk) ((g * (k / 4) + kk) * (lanes * 4)) lanes
          (pack_quad lanes b n_cols k g kk) (pack_quad-Writes kk hk) (quad_of-Wide kk hk) lanes 0
          pre rest (omega arith) (omega arith) room

  group_of-Wide : Wide (k / 4 * (lanes * 4)) group_of (n_cols / lanes)
  unfolding Wide group_of
  group_of-Wide g below =
      length-pieces (lanes * 4) (step_of g) (k / 4) 0 (k / 4) (omega arith) (step_of-Wide g below)

  groups-Writes :
      Writes
        (k / 4 * (lanes * 4))
        group_of
        0
        (n_cols / lanes)
        (λ g. for_each (k / 4) 0 (λ kk. for_each lanes 0 (pack_quad lanes b n_cols k g kk)))
  unfolding Writes group_of
  groups-Writes g pre rest below at room =
      for_each-Writes (lanes * 4) (step_of g) (g * (k / 4 * (lanes * 4))) (k / 4)
        (λ kk. for_each lanes 0 (pack_quad lanes b n_cols k g kk)) (steps-Writes g below)
        (step_of-Wide g below) (k / 4) 0 pre rest (omega arith) (omega arith) room

  fits : n_cols / lanes * (k / 4 * (lanes * 4)) ≤ n_cols * k
  fits =
      let cols = mul-le-mul_right (k / 4 * 4) (div-mul-le_self n_cols lanes) in
      let quads : k / 4 * 4 ≤ k = omega arith in
      let bytes = mul-le-mul_left n_cols quads in omega (arith, cols, bytes)

  step_of-columns :
      (g kk : ℕ) → kk < k / 4 → step_of g kk ≡ flat_map (quad (kk * 4)) (columns lanes k b g)
  unfolding step_of quad_of columns pieces
  step_of-columns g kk hk =
      let start : g * lanes + 0 ≡ g * lanes = omega arith in
      rw start at (
        pieces-columns (quad_of g kk) (quad (kk * 4)) (strip k b) (g * lanes) 0 lanes
          (λ j. quad-range k b (g * lanes + j) (kk * 4) (omega arith)))

  module _ (out : List ℕ) (full : length out ≡ n_cols * k) where
    loops-IsPacked : IsPacked lanes k b (n_cols / lanes) (
        for_each
          (n_cols / lanes)
          0
          (λ g. for_each (k / 4) 0 (λ kk. for_each lanes 0 (pack_quad lanes b n_cols k g kk)))
          out)
    unfolding IsPacked range group_of pieces Wide
    loops-IsPacked grp kk below hk =
        let w1 = k / 4 * (lanes * 4) in
        let w2 = lanes * 4 in
        let at = (grp * (k / 4) + kk) * (lanes * 4) in
        let whole =
          for_each-Writes w1 group_of 0 (n_cols / lanes)
            (λ g. for_each (k / 4) 0 (λ kk. for_each lanes 0 (pack_quad lanes b n_cols k g kk)))
            groups-Writes group_of-Wide (n_cols / lanes) 0 [] out (omega arith) (omega arith)
            (omega (arith, fits)) in
        let rest = drop (n_cols / lanes * w1) out in
        let group =
          drop-pieces w1 group_of (n_cols / lanes) group_of-Wide grp 0 (n_cols / lanes) rest
            (omega arith) below in
        let step =
          drop-pieces w2 (step_of grp) (k / 4) (step_of-Wide grp below) kk 0 (k / 4) group.0
            (omega arith) hk in
        let wide : at + w2 - at ≡ w2 = omega arith in
        let to : kk * w2 + grp * w1 ≡ at = omega arith in
        let first : 0 + kk ≡ kk = omega arith in
        let this : 0 + grp ≡ grp = omega arith in
        let packed = pieces w1 group_of 0 (n_cols / lanes) ++ rest in
        let found : drop at packed ≡ step_of grp kk ++ step.0 =
          sym (drop-drop (kk * w2) (grp * w1) at packed to)
          ∙ ap (drop (kk * w2)) (rw this at group.1)
          ∙ rw first at step.1 in
        rw (whole, wide, found)
          (take-append w2 (step_of grp kk) step.0 (step_of-Wide grp below kk hk))
        ∙ step_of-columns grp kk hk

  pub pack_b-IsPacked :
      (out : List ℕ) → IsPacked lanes k b (n_cols / lanes) (pack_b lanes b n_cols k out)
  unfolding pack_b
  pack_b-IsPacked out = elim (Bool-cases (length out == n_cols * k)) [
    | inl same ↦ rw same (loops-IsPacked out ((==_iff (length out) (n_cols * k)).0 same))
    | inr other ↦
        rw other (loops-IsPacked (resize (n_cols * k) out) (length-resize (n_cols * k) out))
  ]

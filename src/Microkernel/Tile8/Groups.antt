-- ===== src/Microkernel/Tile8/Groups.antt =====
-- The registers that the eight-row kernels of src/microkernel.rs hold for a group of columns, round
-- by round.
use aria_t.Base.{ℕ, zero, suc, ◌+◌, ◌*◌, ◌/◌, ◌%◌, ◌≤◌, ◌<◌, ◌≡◌, refl, ap, ◌∙◌, arith}
use aria_t.Base.{List, map, replicate, All}
use aria_t.Base.Words.{IsBytes}
use aria_t.Vnni.Sums.{dot, sum_i8}
use aria_t.Jackpot.Flat.{upto}
use aria_t.Jackpot.Rows.{map-const}
use aria_t.Jackpot.Tile.Walk.{strip, InBatch}
use aria_t.Microkernel.{for_each}
use aria_t.Microkernel.Pieces.{prod, bias, IsStrip}
use aria_t.Microkernel.Packing.{columns, IsPacked}
use aria_t.Microkernel.Rounds.{length-columns, mac_rows-prod, mac_bias-step}
use aria_t.Microkernel.Tile8.{Group, rows_8, empty_group, group_round}

-- The registers of a group after `n` columns of the window.
unfoldable pub group_at : (lanes : ℕ) → (a_eff b_eff : List ℕ) → (a0 k l0 grp n : ℕ) → Group
group_at lanes a_eff b_eff a0 k l0 grp n = record {
  accs = map (λ row. map (prod l0 n (strip k a_eff row)) (columns lanes k b_eff grp)) (rows_8 a0);
  s = map (bias l0 n) (columns lanes k b_eff grp);
}

module _ (lanes : ℕ) (a_eff b_eff packed : List ℕ) (a0 k l0 groups grp : ℕ)
    (is_packed : IsPacked lanes k b_eff groups packed) (below : grp < groups) (whole : l0 % 4 ≡ 0)
    (bytes : IsBytes a_eff) (inside : All (InBatch k a_eff) (rows_8 a0))
    (long : All (IsStrip k) (columns lanes k b_eff grp)) where
  held : ℕ → Group
  held n = group_at lanes a_eff b_eff a0 k l0 grp n

  group_round-step :
      (kk : ℕ)
      → l0 + kk * 4 + 4 ≤ k
      → group_round lanes a_eff packed a0 k l0 grp kk (held (kk * 4)) ≡ held (kk * 4 + 4)
  unfolding group_round group_at held
  group_round-step kk room =
      rw
        (
          mac_rows-prod lanes a_eff b_eff packed k l0 groups grp is_packed below whole bytes long kk
              room (rows_8 a0) inside,
          mac_bias-step lanes a_eff b_eff packed k l0 groups grp is_packed below whole bytes long kk
              room,
        )
        refl

  group_rounds :
      (n kk : ℕ)
      → l0 + (kk + n) * 4 ≤ k
      → for_each n kk (group_round lanes a_eff packed a0 k l0 grp) (held (kk * 4))
        ≡ held ((kk + n) * 4)
  unfolding for_each
  group_rounds zero kk room = let z : kk + 0 ≡ kk = omega arith in rw z refl
  group_rounds (suc n) kk room =
      let next : kk + 1 + n ≡ kk + suc n = omega arith in
      let here : kk * 4 + 4 ≡ (kk + 1) * 4 = omega arith in
      let one = group_round-step kk (omega arith) in
      ap (for_each n (kk + 1) (group_round lanes a_eff packed a0 k l0 grp)) (one ∙ ap held here)
      ∙ rw next at (group_rounds n (kk + 1) (rw next room))

  -- Before the first round.
  held-zero : held 0 ≡ empty_group lanes
  unfolding held group_at empty_group prod bias rows_8 upto dot sum_i8
  held-zero =
      let wide = length-columns lanes k b_eff grp in
      let zeros : (f : List ℕ → ℕ)
          → ((c : List ℕ) → f c ≡ 0)
          → map f (columns lanes k b_eff grp) ≡ replicate lanes 0 =
        λ f z. rw wide at (map-const f (columns lanes k b_eff grp) z) in
      rw (zeros (bias l0 0) (λ c. refl)) refl

  -- All the rounds of a window.
  pub group_window :
      (r : ℕ)
      → r % 4 ≡ 0
      → l0 + r ≤ k
      → for_each (r / 4) 0 (group_round lanes a_eff packed a0 k l0 grp) (empty_group lanes)
        ≡ group_at lanes a_eff b_eff a0 k l0 grp r
  unfolding held
  group_window r quads room =
      let none : 0 * 4 ≡ 0 = omega arith in
      let all : (0 + r / 4) * 4 ≡ r = omega arith in
      rw (none, all, held-zero) at (group_rounds (r / 4) 0 (omega arith))

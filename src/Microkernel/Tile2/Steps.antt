-- ===== src/Microkernel/Tile2/Steps.antt =====
-- The even and the odd steps of `jackpot_tile_2x64_avx512` (src/microkernel.rs): whatever the two
-- halves hold, together they are the products of the columns walked.
use aria_t.Base.{ℕ, zero, suc, ◌+◌, ◌*◌, ◌/◌, ◌%◌, ◌≤◌, ◌<◌, ◌≡◌, refl, ap, ap₂, sym, ◌∙◌, arith}
use aria_t.Base.{List, [], ◌∷◌, map, All, Bool-cases, inl, inr, ltb, ltb→lt, ltb→ge}
use aria_t.Base.Words.{u32, IsBytes}
use aria_t.Vnni.{xor_bias}
use aria_t.Vnni.Sums.{dot, dot_u8, sum_i8}
use aria_t.Jackpot.Flat.{upto}
use aria_t.Jackpot.Tile.Walk.{strip, InBatch}
use aria_t.Microkernel.Pieces.{quad, prod, bias, IsStrip, prod-step}
use aria_t.Microkernel.Packing.{columns, IsPacked}
use aria_t.Jackpot.Rows.{map-const}
use aria_t.Microkernel.Rounds.{length-columns, mac_rows-map, mac_bias-step}
use aria_t.Microkernel.Tile2.{Halves, empty_halves, even_step, odd_step, on_groups, pair_loop}

on_groups-map :
    (f : ℕ → Halves → Halves) (s t : ℕ → Halves) (u n : ℕ)
    → ((g : ℕ) → u ≤ g → g < u + n → f g (s g) ≡ t g)
    → on_groups f u (map s (upto u n)) ≡ map t (upto u n)
unfolding on_groups upto
on_groups-map f s t u zero h = refl
on_groups-map f s t u (suc n) h =
    ap₂ ◌∷◌ (h u (omega arith) (omega arith))
      (on_groups-map f s t (u + 1) n λ g from to. h g (omega arith) (omega arith))

-- One step of four columns more.
plus : (List ℕ → List ℕ → ℕ) → ℕ → List ℕ → List ℕ → ℕ
plus f at a c = u32 (f a c + dot_u8 (xor_bias (quad at a)) (quad at c))

-- The registers of a group when the halves hold `f` and `g` for a row and a column.
unfoldable pub halves_at :
    (a_eff b_eff rows : List ℕ) → (k l0 n : ℕ) → (f g : List ℕ → List ℕ → ℕ) → ℕ → Halves
halves_at a_eff b_eff rows k l0 n f g grp = record {
  lo = map (λ row. map (f (strip k a_eff row)) (columns 16 k b_eff grp)) rows;
  hi = map (λ row. map (g (strip k a_eff row)) (columns 16 k b_eff grp)) rows;
  s = map (bias l0 n) (columns 16 k b_eff grp);
}

-- The halves add up to the products over the window's first `n` columns.
unfoldable pub AddUp : ℕ → ℕ → ℕ → (f g : List ℕ → List ℕ → ℕ) → Type 0
AddUp k l0 n f g =
    (a c : List ℕ) → IsBytes a → IsStrip k a → IsStrip k c → u32 (f a c + g a c) ≡ prod l0 n a c

-- What the loop leaves for the four groups from `base` on.
unfoldable pub Walked : (a_eff b_eff rows : List ℕ) → (k l0 r base : ℕ) → List Halves → Type 0
Walked a_eff b_eff rows k l0 r base hs =
    (f : List ℕ → List ℕ → ℕ) × (g : List ℕ → List ℕ → ℕ) × (AddUp k l0 r f g)
    × (hs ≡ map (halves_at a_eff b_eff rows k l0 r f g) (upto base 4))

-- Halves of zeros.
unfoldable pub none : List ℕ → List ℕ → ℕ
none a c = 0

empty_halves-none :
    (a_eff b_eff : List ℕ) (a0 a1 k l0 grp : ℕ)
    → empty_halves ≡ halves_at a_eff b_eff (a0 ∷ a1 ∷ []) k l0 0 none none grp
unfolding halves_at empty_halves none bias sum_i8
empty_halves-none a_eff b_eff a0 a1 k l0 grp =
    let zeros = map-const (λ c. 0) (columns 16 k b_eff grp) (λ c. refl) in
    rw (zeros, length-columns 16 k b_eff grp) refl

pub four_empty :
    (a_eff b_eff : List ℕ) (a0 a1 k l0 base : ℕ)
    → map (halves_at a_eff b_eff (a0 ∷ a1 ∷ []) k l0 0 none none) (upto base 4)
      ≡ empty_halves ∷ empty_halves ∷ empty_halves ∷ empty_halves ∷ []
unfolding upto
four_empty a_eff b_eff a0 a1 k l0 base =
    let one : (grp : ℕ) → halves_at a_eff b_eff (a0 ∷ a1 ∷ []) k l0 0 none none grp ≡ empty_halves =
      λ grp. sym (empty_halves-none a_eff b_eff a0 a1 k l0 grp) in
    ap₂ ◌∷◌ (one base) (
      ap₂ ◌∷◌ (one (base + 1))
        (ap₂ (λ x y. x ∷ y ∷ []) (one (base + 1 + 1)) (one (base + 1 + 1 + 1))))

module _ (a_eff b_eff packed rows : List ℕ) (k l0 r base groups : ℕ)
    (is_packed : IsPacked 16 k b_eff groups packed) (bytes : IsBytes a_eff)
    (inside : All (InBatch k a_eff) rows) (whole : l0 % 4 ≡ 0) (quads : r % 4 ≡ 0)
    (room : l0 + r ≤ k) (groups_in : base + 4 ≤ groups)
    (long : (g : ℕ) → g < groups → All (IsStrip k) (columns 16 k b_eff g)) where
  held : ℕ → (f g : List ℕ → List ℕ → ℕ) → List Halves
  held n f g = map (halves_at a_eff b_eff rows k l0 n f g) (upto base 4)

  module _ (f g : List ℕ → List ℕ → ℕ) (kk : ℕ) (more : kk < r / 4) where
    even_step-held :
        on_groups (even_step a_eff packed rows k r l0 kk) base (held (kk * 4) f g)
        ≡ held (kk * 4 + 4) (plus f (l0 + kk * 4)) g
    unfolding held even_step halves_at plus
    even_step-held =
        on_groups-map (even_step a_eff packed rows k r l0 kk)
          (halves_at a_eff b_eff rows k l0 (kk * 4) f g)
          (halves_at a_eff b_eff rows k l0 (kk * 4 + 4) (plus f (l0 + kk * 4)) g) base 4
          λ grp from to.
            let at : l0 + kk * 4 + 4 ≤ k = omega arith in
            let below : grp < groups = omega arith in
            rw
              (
                mac_rows-map 16 a_eff b_eff packed k l0 groups grp is_packed below whole bytes
                    (long grp below) kk at f (plus f (l0 + kk * 4)) rows inside
                    (λ a c ba la lc. refl),
                mac_bias-step 16 a_eff b_eff packed k l0 groups grp is_packed below whole bytes
                    (long grp below) kk at,
              )
              refl

    odd_step-held :
        on_groups (odd_step a_eff packed rows k r l0 kk) base (held (kk * 4) f g)
        ≡ held (kk * 4 + 4) f (plus g (l0 + kk * 4))
    unfolding held odd_step halves_at plus
    odd_step-held =
        on_groups-map (odd_step a_eff packed rows k r l0 kk)
          (halves_at a_eff b_eff rows k l0 (kk * 4) f g)
          (halves_at a_eff b_eff rows k l0 (kk * 4 + 4) f (plus g (l0 + kk * 4))) base 4
          λ grp from to.
            let at : l0 + kk * 4 + 4 ≤ k = omega arith in
            let below : grp < groups = omega arith in
            rw
              (
                mac_rows-map 16 a_eff b_eff packed k l0 groups grp is_packed below whole bytes
                    (long grp below) kk at g (plus g (l0 + kk * 4)) rows inside
                    (λ a c ba la lc. refl),
                mac_bias-step 16 a_eff b_eff packed k l0 groups grp is_packed below whole bytes
                    (long grp below) kk at,
              )
              refl

    even_step-AddUp : AddUp k l0 (kk * 4) f g → AddUp k l0 (kk * 4 + 4) (plus f (l0 + kk * 4)) g
    unfolding AddUp plus
    even_step-AddUp sums a c ba la lc =
        omega
          (arith, sums a c ba la lc, prod-step l0 (kk * 4) a c ba (la ∙ sym lc) (omega (arith, lc)))

    odd_step-AddUp : AddUp k l0 (kk * 4) f g → AddUp k l0 (kk * 4 + 4) f (plus g (l0 + kk * 4))
    unfolding AddUp plus
    odd_step-AddUp sums a c ba la lc =
        omega
          (arith, sums a c ba la lc, prod-step l0 (kk * 4) a c ba (la ∙ sym lc) (omega (arith, lc)))

  pair_loop-Walked :
      (fuel kk : ℕ) (f g : List ℕ → List ℕ → ℕ)
      → kk ≤ r / 4
      → r / 4 ≤ kk + fuel
      → AddUp k l0 (kk * 4) f g
      → Walked a_eff b_eff rows k l0 r base
          (pair_loop a_eff packed rows k r l0 fuel base kk (held (kk * 4) f g))
  unfolding pair_loop Walked held
  pair_loop-Walked zero kk f g h enough sums =
      let all : kk * 4 ≡ r = omega arith in (f, g, rw all at sums, ap (λ (n : ℕ). held n f g) all)
  pair_loop-Walked (suc fuel) kk f g h enough sums = elim (Bool-cases (ltb (kk + 1) (r / 4))) [
    | inl two ↦
        let more = ltb→lt (kk + 1) (r / 4) two in
        let next : kk * 4 + 4 ≡ (kk + 1) * 4 = omega arith in
        let after : (kk + 1) * 4 + 4 ≡ (kk + 2) * 4 = omega arith in
        let f' = plus f (l0 + kk * 4) in
        let g' = plus g (l0 + (kk + 1) * 4) in
        let one = even_step-held f g kk (omega arith) ∙ ap (λ (n : ℕ). held n f' g) next in
        let both =
          ap (on_groups (odd_step a_eff packed rows k r l0 (kk + 1)) base) one
          ∙ odd_step-held f' g (kk + 1) more
          ∙ ap (λ (n : ℕ). held n f' g') after in
        let sums' : AddUp k l0 ((kk + 1) * 4) f' g =
          rw next at (even_step-AddUp f g kk (omega arith) sums) in
        let sums'' : AddUp k l0 ((kk + 2) * 4) f' g' =
          rw after at (odd_step-AddUp f' g (kk + 1) more sums') in
        rw (two, both) (pair_loop-Walked fuel (kk + 2) f' g' (omega arith) (omega arith) sums'')
    | inr last ↦
        let near = ltb→ge (kk + 1) (r / 4) last in
        elim (Bool-cases (ltb kk (r / 4))) [
          | inl odd ↦
              let more = ltb→lt kk (r / 4) odd in
              let all : kk * 4 + 4 ≡ r = omega arith in
              let f' = plus f (l0 + kk * 4) in
              rw (last, odd)
                (
                  f',
                  g,
                  rw all at (even_step-AddUp f g kk more sums),
                  even_step-held f g kk more ∙ ap (λ (n : ℕ). held n f' g) all,
                )
          | inr done ↦
              let all : kk * 4 ≡ r = omega (arith, ltb→ge kk (r / 4) done) in
              rw (last, done) (f, g, rw all at sums, ap (λ (n : ℕ). held n f g) all)
        ]
  ]

  none-AddUp : AddUp k l0 0 none none
  unfolding AddUp none prod dot sum_i8
  none-AddUp a c ba la lc = refl

  -- From registers of zeros on.
  pub pair_loop-window : Walked a_eff b_eff rows k l0 r base (
      pair_loop a_eff packed rows k r l0
        (r / 4 + 1)
        base
        0
        (map (halves_at a_eff b_eff rows k l0 0 none none) (upto base 4)))
  unfolding held
  pair_loop-window = pair_loop-Walked (r / 4 + 1) 0 none none (omega arith) (omega arith) none-AddUp

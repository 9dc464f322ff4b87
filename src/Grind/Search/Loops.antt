-- ===== src/Grind/Search/Loops.antt =====
-- The panelled search of `try_mine_one_bounded` (src/official_grind.rs) misses no tile: it ends with
-- a tile that passes, or every tile of the batch fails.
use aria_t.Base.{
  ℕ, zero, suc, ◌+◌, ◌≤◌, ◌<◌, ◌≡◌, arith, List, [], ◌∷◌, Option, none, some, Bool, true, false,
  ltb, leb, if◌then◌else◌, min, Bool-cases, Option-cases, inl, inr, ltb→lt, ltb→ge, leb→le, ◌==◌,
  ==_iff,
}
use aria_t.Grind.Search.{
  Walk, found, reached, first_hit, four_rows, single_rows, after_four, panel_columns, panels,
}

-- What a search over positions `lo` to `hi - 1` says.
unfoldable pub Swept : (ℕ → Bool) → ℕ → ℕ → Option ℕ → Type 0
Swept P lo hi none = (t : ℕ) → lo ≤ t → t < hi → P t ≡ false
Swept P lo hi (some t) = (lo ≤ t) × (t < hi) × (P t ≡ true)

-- And a search over row tiles `lo` to `hi - 1` and column tiles `c` to `d - 1`.
unfoldable pub SweptAll : (ℕ → ℕ → Bool) → ℕ → ℕ → ℕ → ℕ → Option (ℕ × ℕ) → Type 0
SweptAll P lo hi c d none = (t ci : ℕ) → lo ≤ t → t < hi → c ≤ ci → ci < d → P t ci ≡ false
SweptAll P lo hi c d (some (t, ci)) = (lo ≤ t) × (t < hi) × (c ≤ ci) × (ci < d) × (P t ci ≡ true)

-- Where the loop over four tiles at a time stopped.
unfoldable pub SweptFour : (ℕ → Bool) → ℕ → ℕ → Walk → Type 0
SweptFour P lo hi (found t) = (lo ≤ t) × (t < hi) × (P t ≡ true)
SweptFour P lo hi (reached t) = (lo ≤ t) × ((u : ℕ) → lo ≤ u → u < t → P u ≡ false)

module _ (P : ℕ → Bool) where
  -- A part without a hit before another part.
  Swept-after :
      (lo mid hi : ℕ) (r : Option ℕ)
      → lo ≤ mid
      → ((t : ℕ) → lo ≤ t → t < mid → P t ≡ false)
      → Swept P mid hi r
      → Swept P lo hi r
  unfolding Swept
  Swept-after lo mid hi none le before swept = λ t from to. elim (Bool-cases (ltb t mid)) [
    | inl e ↦ before t from (ltb→lt t mid e)
    | inr e ↦ swept t (ltb→ge t mid e) to
  ]
  Swept-after lo mid hi (some t) le before swept = (omega (arith, swept.0), swept.1, swept.2)

  one_step :
      (t hi : ℕ) (rest : Option ℕ)
      → t < hi
      → Swept P (t + 1) hi rest
      → Swept P t hi (if P t then some t else rest)
  unfolding Swept
  one_step t hi rest h swept = elim (Bool-cases (P t)) [
    | inl e ↦ rw e (omega arith, h, e)
    | inr e ↦ rw e (
        Swept-after t (t + 1) hi rest (omega arith)
          (λ u from to. let s : u ≡ t = omega arith in rw s e) swept)
  ]

  nothing : (t hi : ℕ) → hi ≤ t → Swept P t hi none
  unfolding Swept
  nothing t hi h u from to = absurd (omega arith)

  SweptFour-after :
      (lo mid hi : ℕ) (w : Walk)
      → lo ≤ mid
      → ((t : ℕ) → lo ≤ t → t < mid → P t ≡ false)
      → SweptFour P mid hi w
      → SweptFour P lo hi w
  unfolding SweptFour
  SweptFour-after lo mid hi (found t) le before swept = (omega (arith, swept.0), swept.1, swept.2)
  SweptFour-after lo mid hi (reached t) le before swept = (
    omega (arith, swept.0),
    λ u from to. elim (Bool-cases (ltb u mid)) [
      | inl e ↦ before u from (ltb→lt u mid e)
      | inr e ↦ swept.1 u (ltb→ge u mid e) to
    ],
  )

-- The same over the column tiles.
module _ (P : ℕ → ℕ → Bool) where
  SweptAll-column :
      (lo hi c d : ℕ) (r : Option (ℕ × ℕ))
      → c < d
      → ((t : ℕ) → lo ≤ t → t < hi → P t c ≡ false)
      → SweptAll P lo hi (c + 1) d r
      → SweptAll P lo hi c d r
  unfolding SweptAll
  SweptAll-column lo hi c d none h first swept = λ t ci from to left right.
      elim (Bool-cases (ci == c)) [
        | inl e ↦ let s : ci ≡ c = (==_iff ci c).0 e in rw s (first t from to)
        | inr e ↦ swept t ci from to (ground arith) right
      ]
  SweptAll-column lo hi c d (some (t, ci)) h first swept =
      (swept.0, swept.1, omega (arith, swept.2), swept.3, swept.4)

  SweptAll-panel :
      (lo mid hi d : ℕ) (r : Option (ℕ × ℕ))
      → lo ≤ mid
      → SweptAll P lo mid 0 d none
      → SweptAll P mid hi 0 d r
      → SweptAll P lo hi 0 d r
  unfolding SweptAll
  SweptAll-panel lo mid hi d none le first swept = λ t ci from to left right.
      elim (Bool-cases (ltb t mid)) [
        | inl e ↦ first t ci from (ltb→lt t mid e) left right
        | inr e ↦ swept t ci (ltb→ge t mid e) to left right
      ]
  SweptAll-panel lo mid hi d (some (t, ci)) le first swept =
      (omega (arith, swept.0), swept.1, swept.2, swept.3, swept.4)

module _ (pass : List ℕ → Bool) (four : ℕ → ℕ → List (List ℕ)) (single msg : ℕ → ℕ → List ℕ)
    (nt nc : ℕ)
    (four-msg : (t ci : ℕ)
      → t + 4 ≤ nt
      → ci < nc
      → four t ci ≡ msg t ci ∷ msg (t + 1) ci ∷ msg (t + 2) ci ∷ msg (t + 3) ci ∷ [])
    (single-msg : (t ci : ℕ) → t < nt → ci < nc → single t ci ≡ msg t ci) where
  abbrev P : ℕ → ℕ → Bool
  P t ci = pass (msg t ci)

  first_hit-Swept :
      (ci t : ℕ)
      → t + 4 ≤ nt
      → ci < nc
      → Swept (λ t. P t ci) t (t + 4) (first_hit pass (four t ci) t)
  unfolding first_hit
  first_hit-Swept ci t h c =
      let Q = λ (u : ℕ). P u ci in
      let e2 : t + 2 ≡ t + 1 + 1 = omega arith in
      let e3 : t + 3 ≡ t + 1 + 1 + 1 = omega arith in
      let e4 : t + 4 ≡ t + 1 + 1 + 1 + 1 = omega arith in
      rw (four-msg t ci h c, e2, e3, e4)
        (one_step Q t _ _ (omega arith) (
          one_step Q (t + 1) _ _ (omega arith) (
            one_step Q (t + 1 + 1) _ _ (omega arith)
              (one_step Q (t + 1 + 1 + 1) _ _ (omega arith) (nothing Q _ _ (omega arith))))))

  four_rows-Swept :
      (fuel p1 ci t : ℕ)
      → p1 ≤ nt
      → ci < nc
      → SweptFour (λ t. P t ci) t p1 (four_rows pass four single fuel p1 ci t)
  unfolding four_rows SweptFour Swept
  four_rows-Swept zero p1 ci t h c = (omega arith, λ u from to. absurd (omega arith))
  four_rows-Swept (suc fuel) p1 ci t h c = elim (Bool-cases (leb (t + 4) p1)) [
    | inl e ↦
        let le = leb→le (t + 4) p1 e in
        let swept = first_hit-Swept ci t (omega (arith, le)) c in
        elim (Option-cases (first_hit pass (four t ci) t)) [
          | inl e' ↦
              rw (e, e')
                (SweptFour-after (λ t. P t ci) t (t + 4) p1 _ (omega arith) (rw e' at swept)
                  (four_rows-Swept fuel p1 ci (t + 4) h c))
          | inr (t', e') ↦
              let hit = rw e' at swept in rw (e, e') (hit.0, omega (arith, hit.1, le), hit.2)
        ]
    | inr e ↦ rw e (omega arith, λ u from to. absurd (omega arith))
  ]

  single_rows-Swept :
      (fuel p1 ci t : ℕ)
      → p1 ≤ nt
      → ci < nc
      → p1 ≤ t + fuel
      → Swept (λ t. P t ci) t p1 (single_rows pass four single fuel p1 ci t)
  unfolding single_rows
  single_rows-Swept zero p1 ci t h c enough = nothing (λ t. P t ci) t p1 (omega arith)
  single_rows-Swept (suc fuel) p1 ci t h c enough = elim (Bool-cases (ltb t p1)) [
    | inl e ↦
        let lt = ltb→lt t p1 e in
        rw (e, single-msg t ci (omega (arith, lt)) c)
          (one_step (λ t. P t ci) t p1 _ lt
            (single_rows-Swept fuel p1 ci (t + 1) h c (omega arith)))
    | inr e ↦ let ge = ltb→ge t p1 e in rw e (nothing (λ t. P t ci) t p1 ge)
  ]

  after_four-Swept :
      (p0 p1 ci : ℕ) (w : Walk)
      → p1 ≤ nt
      → ci < nc
      → SweptFour (λ t. P t ci) p0 p1 w
      → Swept (λ t. P t ci) p0 p1 (after_four pass four single p1 ci w)
  unfolding after_four SweptFour Swept
  after_four-Swept p0 p1 ci (found t) h c swept = swept
  after_four-Swept p0 p1 ci (reached t) h c swept =
      Swept-after (λ t. P t ci) p0 t p1 (single_rows pass four single p1 p1 ci t) swept.0 swept.1
        (single_rows-Swept p1 p1 ci t h c (omega arith))

  panel_columns-Swept :
      (left p0 p1 ci : ℕ)
      → p1 ≤ nt
      → ci + left ≡ nc
      → SweptAll P p0 p1 ci nc (panel_columns pass four single left p0 p1 ci)
  unfolding panel_columns SweptAll Swept
  panel_columns-Swept zero p0 p1 ci h e = λ t ci' from to left right. absurd (omega arith)
  panel_columns-Swept (suc left) p0 p1 ci h e =
      let w = four_rows pass four single p1 p1 ci p0 in
      let swept =
        after_four-Swept p0 p1 ci w h (omega arith) (four_rows-Swept p1 p1 ci p0 h (omega arith)) in
      elim (Option-cases (after_four pass four single p1 ci w)) [
        | inl e' ↦
            rw (panel_columns, e')
              (SweptAll-column P p0 p1 ci nc (panel_columns pass four single left p0 p1 (ci + 1))
                (omega arith) (rw e' at swept)
                (panel_columns-Swept left p0 p1 (ci + 1) h (omega arith)))
        | inr (t, e') ↦
            let hit = rw e' at swept in
            rw (panel_columns, e') (hit.0, hit.1, omega arith, omega arith, hit.2)
      ]

  panels-Swept :
      (panel : ℕ)
      → 0 < panel
      → (fuel p0 : ℕ) → nt ≤ p0 + fuel
      → SweptAll P p0 nt 0 nc (panels pass four single fuel nt nc panel p0)
  unfolding panels SweptAll
  panels-Swept panel pos zero p0 enough = λ t ci from to left right. absurd (omega arith)
  panels-Swept panel pos (suc fuel) p0 enough =
      let p1 = min (p0 + panel) nt in
      elim (Bool-cases (ltb p0 nt)) [
        | inl e ↦
            let lt = ltb→lt p0 nt e in
            let swept = panel_columns-Swept nc p0 p1 0 (omega arith) (omega arith) in
            elim (Option-cases (panel_columns pass four single nc p0 p1 0)) [
              | inl e' ↦
                  rw (e, e')
                    (SweptAll-panel P p0 p1 nt nc (panels pass four single fuel nt nc panel p1)
                      (omega (arith, lt)) (rw e' at swept)
                      (panels-Swept panel pos fuel p1 (omega (arith, lt))))
              | inr ((t, ci), e') ↦
                  let hit = rw e' at swept in
                  rw (e, e') (hit.0, omega (arith, hit.1), hit.2, hit.3, hit.4)
            ]
        | inr e ↦
            let ge = ltb→ge p0 nt e in rw e (λ t ci from to left right. absurd (omega (arith, ge)))
      ]

  -- The whole search.
  pub panels-SweptAll :
      (panel : ℕ) → 0 < panel → SweptAll P 0 nt 0 nc (panels pass four single nt nt nc panel 0)
  panels-SweptAll panel pos = panels-Swept panel pos nt 0 (omega arith)

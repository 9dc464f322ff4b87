-- ===== src/Grind/Search.antt =====
-- The search of one attempt for a tile below the bound, `try_mine_one_bounded` of
-- src/official_grind.rs: the panels of the fast path and the two loops of the fallback, for any
-- functions that give the messages of four tiles and of one. A tile is a position among the row
-- tiles and one among the column tiles.
pub mod Loops
use aria_t.Base.{
  ℕ, zero, suc, ◌+◌, List, [], ◌∷◌, Option, none, some, Bool, ltb, leb, if◌then◌else◌, min,
}
use aria_t.Target.Compare.{le_leq}

-- Where the loop over four tiles at a time stopped: at a hit, or at the first tile it left over.
pub data Walk : Type 0 where
  found : ℕ → Walk
  reached : ℕ → Walk

-- `le_leq(&compute_jackpot_hash(msg, a_noise_seed), bound_le)`
unfoldable pub passes : (List ℕ → List ℕ → List ℕ) → (a_noise_seed bound_le msg : List ℕ) → Bool
passes compute_jackpot_hash a_noise_seed bound_le msg =
    le_leq (compute_jackpot_hash msg a_noise_seed) bound_le

module _ (pass : List ℕ → Bool) where
  -- `for (tt, msg) in msgs.iter().enumerate()`
  unfoldable pub first_hit : List (List ℕ) → ℕ → Option ℕ
  first_hit [] t = none
  first_hit (msg ∷ msgs) t = let rest = first_hit msgs (t + 1) in if pass msg then some t else rest

  module _ (four : ℕ → ℕ → List (List ℕ)) (single : ℕ → ℕ → List ℕ) where
    -- `while t + 4 <= p1`
    unfoldable pub four_rows : ℕ → ℕ → ℕ → ℕ → Walk
    four_rows zero p1 ci t = reached t
    four_rows (suc fuel) p1 ci t =
        let next : Walk = elim (first_hit (four t ci) t) [
          | some t' ↦ found t'
          | none ↦ four_rows fuel p1 ci (t + 4)
        ] in
        if leb (t + 4) p1 then next else reached t

    -- `while t < p1`
    unfoldable pub single_rows : ℕ → ℕ → ℕ → ℕ → Option ℕ
    single_rows zero p1 ci t = none
    single_rows (suc fuel) p1 ci t =
        let rest = single_rows fuel p1 ci (t + 1) in
        let next = if pass (single t ci) then some t else rest in if ltb t p1 then next else none

    unfoldable pub after_four : ℕ → ℕ → Walk → Option ℕ
    after_four p1 ci (found t) = some t
    after_four p1 ci (reached t) = single_rows p1 p1 ci t

    -- `for (ci, b_cols) in col_tiles.iter().enumerate()`, with the column tiles left.
    unfoldable pub panel_columns : ℕ → ℕ → ℕ → ℕ → Option (ℕ × ℕ)
    panel_columns zero p0 p1 ci = none
    panel_columns (suc left) p0 p1 ci = elim (after_four p1 ci (four_rows p1 p1 ci p0)) [
      | some t ↦ some (t, ci)
      | none ↦ panel_columns left p0 p1 (ci + 1)
    ]

    -- `while p0 < nt`
    unfoldable pub panels : ℕ → ℕ → ℕ → ℕ → ℕ → Option (ℕ × ℕ)
    panels zero nt nc panel p0 = none
    panels (suc fuel) nt nc panel p0 =
        let p1 = min (p0 + panel) nt in
        let next : Option (ℕ × ℕ) = elim (panel_columns nc p0 p1 0) [
          | some hit ↦ some hit
          | none ↦ panels fuel nt nc panel p1
        ] in
        if ltb p0 nt then next else none

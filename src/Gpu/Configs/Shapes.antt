-- ===== src/Gpu/Configs/Shapes.antt =====
-- The ranks and the sizes of the tiles that are mined on the device.
use mathlib.Core.List.{flat_map}
use aria_t.Base.{ℕ, ◌*◌, length, ◌<◌}
use aria_t.Base.{Bool, true, false, ◌||◌, not, ◌==◌, tests, all_below, all_below-test}
use aria_t.Base.{Option, Bool-cases, Option-cases, inl, inr, ◌⊎◌, ◌≡◌, refl}
use aria_t.Jackpot.Flat.{upto}
use aria_t.Gpu.Configs.{
  Settings, allowed_rank, is_power_of_two, rank_from_env, canonical_tile, fragment_cols,
}

cells :
    (rank : Option ℕ) (tma_ms wgmma no_wgmma sm75 : Bool)
    → let tile = canonical_tile record {
      aria_rank = rank;
      aria_tma_ms = tma_ms;
      aria_wgmma = wgmma;
      aria_no_wgmma = no_wgmma;
      aria_sm75 = sm75;
    } in
      length tile.0 * length tile.1 ≡ 128
unfolding canonical_tile fragment_cols upto flat_map
cells rank false wgmma no_wgmma false = refl
cells rank false wgmma no_wgmma true = refl
cells rank true false no_wgmma false = refl
cells rank true false no_wgmma true = refl
cells rank true true false sm75 = refl
cells rank true true true false = refl
cells rank true true true true = refl

-- Whatever the environment, a tile has 128 cells, as many as a hit has slots.
pub canonical_tile-cells :
    (s : Settings) → length (canonical_tile s).0 * length (canonical_tile s).1 ≡ 128
canonical_tile-cells s = cells s.aria_rank s.aria_tma_ms s.aria_wgmma s.aria_no_wgmma s.aria_sm75

-- The ranks that the filter lets through.
two_ranks : ℕ → Bool
two_ranks v = not (allowed_rank v) || v == 128 || v == 256

two_ranks-below : all_below 257 two_ranks ≡ true
unfolding two_ranks allowed_rank is_power_of_two
two_ranks-below = refl

allowed : (v : ℕ) → allowed_rank v ≡ true → (v ≡ 128) ⊎ (v ≡ 256)
unfolding two_ranks allowed_rank
allowed v e =
    let small : v < 257 = grind tests in
    let t = all_below-test 257 two_ranks v two_ranks-below small in grind (tests, t)

-- Whatever the environment, the rank is 128 or 256.
pub rank_from_env-two : (s : Settings) → (rank_from_env s ≡ 128) ⊎ (rank_from_env s ≡ 256)
unfolding rank_from_env
rank_from_env-two s = elim (Option-cases s.aria_rank) [
  | inl e ↦ rw e (inl refl)
  | inr (v, e) ↦ elim (Bool-cases (allowed_rank v)) [
    | inl e' ↦ rw (e, e') (allowed v e')
    | inr e' ↦ rw (e, e') (inl refl)
  ]
]

-- ===== src/Gpu/Configs.antt =====
-- The tile shapes that src/official_grind.rs chooses for the device: `rank_from_env`,
-- `canonical_gpu_config` and `alphapool_config_2x64`. What the code reads of the environment is an
-- argument, and `PeriodicPattern::from_list` is the consensus library's.
pub mod Shapes
use mathlib.Core.List.{flat_map}
use Prim.Native.Nat.{bit_and}
use aria_t.Base.{ℕ, zero, suc, ◌+◌, ◌-◌, ◌*◌, List, [], ◌∷◌}
use aria_t.Base.{Bool, ◌&&◌, not, ◌==◌, leb, if◌then◌else◌, Option, none, some}
use aria_t.Base.Results.{Outcome, ok, ◌>>=◌}
use aria_t.Jackpot.Flat.{upto}
use aria_t.Official.{Consensus, MiningConfiguration, or_panic}

-- The environment: `ARIA_RANK` if it is set to a number of 16 bits, and which of the switches are set.
pub record Settings : Type 0 where
  pub aria_rank : Option ℕ
  pub aria_tma_ms : Bool
  pub aria_wgmma : Bool
  pub aria_no_wgmma : Bool
  pub aria_sm75 : Bool

unfoldable pub is_power_of_two : ℕ → Bool
is_power_of_two v = not (v == 0) && bit_and v (v - 1) == 0

-- The filter of `rank_from_env`.
unfoldable pub allowed_rank : ℕ → Bool
allowed_rank v = leb 128 v && leb v 256 && is_power_of_two v

unfoldable pub rank_from_env : Settings → ℕ
rank_from_env s = elim s.aria_rank [ none ↦ 128 | some v ↦ if allowed_rank v then v else 128 ]

abbrev pub fragment_rows : List ℕ
fragment_rows = 0 ∷ 8 ∷ 32 ∷ 40 ∷ 64 ∷ 72 ∷ 96 ∷ 104 ∷ []

-- The columns by the width of the kernel's tile.
unfoldable pub fragment_cols : Bool → List ℕ
fragment_cols aria_tma_ms =
    if aria_tma_ms
    then 0 ∷ 1 ∷ 32 ∷ 33 ∷ 64 ∷ 65 ∷ 96 ∷ 97 ∷ 128 ∷ 129 ∷ 160 ∷ 161 ∷ 192 ∷ 193 ∷ 224 ∷ 225 ∷ []
    else 0 ∷ 1 ∷ 16 ∷ 17 ∷ 32 ∷ 33 ∷ 48 ∷ 49 ∷ 64 ∷ 65 ∷ 80 ∷ 81 ∷ 96 ∷ 97 ∷ 112 ∷ 113 ∷ []

-- `(0..32u32).flat_map(|j| [8 * j, 8 * j + 1])`
abbrev pub wgmma_cols : List ℕ
wgmma_cols = flat_map (λ j. (8 * j) ∷ (8 * j + 1) ∷ []) (upto 0 32)

-- The rows and the columns that `canonical_gpu_config` chooses.
unfoldable pub canonical_tile : Settings → List ℕ × List ℕ
canonical_tile s =
    let cols = fragment_cols s.aria_tma_ms in
    if s.aria_tma_ms && s.aria_wgmma && not s.aria_no_wgmma
    then (0 ∷ 8 ∷ [], wgmma_cols)
    else if s.aria_sm75
    then (upto 0 8, upto 0 16)
    else (fragment_rows, cols)

module _ (c : Consensus) where
  -- `MiningConfiguration { .. }` with the two patterns unwrapped.
  unfoldable pub config_of :
      (common_dim rank : ℕ) → (rows cols : List ℕ) → Outcome (MiningConfiguration c)
  config_of common_dim rank rows cols = do
    rows_pattern ← or_panic c (c.pattern_from_list rows)
    cols_pattern ← or_panic c (c.pattern_from_list cols)
    ok record {
      common_dim = common_dim;
      rank = rank;
      rows_pattern = rows_pattern;
      cols_pattern = cols_pattern;
    }

  unfoldable pub canonical_gpu_config : Settings → ℕ → Outcome (MiningConfiguration c)
  canonical_gpu_config s common_dim =
      let tile = canonical_tile s in config_of common_dim (rank_from_env s) tile.0 tile.1

  unfoldable pub alphapool_config_2x64 : ℕ → Outcome (MiningConfiguration c)
  alphapool_config_2x64 common_dim = config_of common_dim 128 (0 ∷ 32 ∷ []) (upto 0 64)

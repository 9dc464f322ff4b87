-- ===== src/Official.antt =====
-- The official job made of the pool's job, src/stratum_to_official.rs. The consensus library
-- `zk_pow` and the 256-bit integers are parameters; so are the two batch sizes of the environment.
pub mod Dims
pub mod Headers
use aria_t.Base.{
  ℕ, ◌+◌, ◌-◌, ◌*◌, ◌/◌, ◌%◌, ◌^◌, min, max, List, take, length, Option, some, none, Bool, true,
}
use aria_t.Base.{◌==◌, ltb, if◌then◌else◌}
use aria_t.Base.Texts.{Text, codes, text_eq}
use aria_t.Base.Words.{u64}
use aria_t.Base.Results.{Outcome, ok, err, panic, ◌>>=◌, ◌>>◌, ok_or, guard}
use aria_t.Protocol.{Job, MiningParams}
use aria_t.Target.Bound.{Wide, Config, share_bound_le}
use aria_t.Target.Nbits.{trim_0x}

-- The parts of `zk_pow` that the conversion calls, and of its `MiningConfiguration` those that the
-- pool's parameters set.
pub record Consensus : Type 1 where
  pub Header : Type 0
  pub Pattern : Type 0
  pub header_from_bytes : List ℕ → Option Header
  pub pattern_from_list : List ℕ → Option Pattern
  pub period : Pattern → ℕ
  pub max_index : Pattern → ℕ
  pub size : Pattern → ℕ
  pub dot_product_length : ℕ → ℕ → ℕ
  pub penalty_base_rank : ℕ

-- `IncompleteBlockHeader::SERIALIZED_SIZE`, and the header with its nonce.
abbrev pub header_size : ℕ
header_size = 76

abbrev pub header_size_nonce : ℕ
header_size_nonce = 80

-- `fit_dim`, with products that wrap at 64 bits.
pub fit_dim : ℕ → ℕ → ℕ → ℕ
fit_dim target period max_idx =
    let p = max period 1 in
    let smallest_valid = u64 ((max_idx / p + 1) * p) in
    let target_rounded = u64 ((target + p - 1) / p * p) in max smallest_valid target_rounded

module _ (c : Consensus) where
  pub record MiningConfiguration : Type 0 where
    pub common_dim : ℕ
    pub rank : ℕ
    pub rows_pattern : c.Pattern
    pub cols_pattern : c.Pattern

  pub record OfficialJob : Type 0 where
    pub header : c.Header
    pub config : MiningConfiguration
    pub bound_le : List ℕ
    pub target_be : Option (List ℕ)
    pub m : ℕ
    pub n : ℕ
    pub k : ℕ

  -- The header's bytes: 80 lose the nonce, 76 are taken, any other number is an error.
  pub header_bytes_of : List ℕ → Outcome (List ℕ)
  header_bytes_of bytes =
      if length bytes == header_size_nonce
      then ok (take header_size bytes)
      else if length bytes == header_size
      then ok bytes
      else err

  pub header_from_template : (Text → Option (List ℕ)) → Text → Outcome c.Header
  header_from_template hex_decode header_template_hex = do
    bytes ← ok_or (hex_decode (trim_0x header_template_hex))
    header_bytes ← header_bytes_of bytes
    ok_or (c.header_from_bytes header_bytes)

  -- `u16::try_from`
  pub to_u16 : ℕ → Outcome ℕ
  to_u16 x = if ltb x (2 ^ 16) then ok x else err

  pub config_from_params : MiningParams → Outcome MiningConfiguration
  config_from_params params = do
    _ ← guard (text_eq params.mma_type (codes "Int7xInt7ToInt32"))
    rows_pattern ← ok_or (c.pattern_from_list params.rows_pattern)
    cols_pattern ← ok_or (c.pattern_from_list params.cols_pattern)
    rank ← to_u16 params.rank
    ok record {
      common_dim = params.k;
      rank = rank;
      rows_pattern = rows_pattern;
      cols_pattern = cols_pattern;
    }

  -- What the difficulty bound reads of a configuration.
  pub bound_config : MiningConfiguration → Config
  bound_config config = record {
    rank = config.rank;
    rows_size = c.size config.rows_pattern;
    cols_size = c.size config.cols_pattern;
    dot_product_length = c.dot_product_length config.common_dim config.rank;
    penalty_base_rank = c.penalty_base_rank;
  }

  -- A call that panics where the option is `none`.
  abbrev pub or_panic {ℓ} : {A : Type ℓ} → Option A → Outcome A
  or_panic none = panic
  or_panic (some a) = ok a

  pub build_official_job :
      Wide
      → (Text → Option (List ℕ))
      → (tgt_m tgt_n : ℕ) → Job
      → MiningParams
      → ℕ
      → Outcome OfficialJob
  build_official_job w hex_decode tgt_m tgt_n job params difficulty = do
    header ← header_from_template hex_decode job.header_template
    config ← config_from_params params
    bound_le ← or_panic (share_bound_le w difficulty (bound_config config))
    ok record {
      header = header;
      config = config;
      bound_le = bound_le;
      target_be = none;
      m = fit_dim tgt_m (c.period config.rows_pattern) (c.max_index config.rows_pattern);
      n = fit_dim tgt_n (c.period config.cols_pattern) (c.max_index config.cols_pattern);
      k = params.k;
    }

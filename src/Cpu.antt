-- ===== src/Cpu.antt =====
-- What `is_x86_feature_detected!` answers on the host, for the features that the code asks about.
use aria_t.Base.{Bool}

pub record Cpu : Type 0 where
  pub avx512vnni : Bool
  pub avx512bw : Bool
  pub avx512f : Bool
  pub avx512vbmi : Bool
  pub avxvnni : Bool
  pub avx2 : Bool

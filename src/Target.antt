-- ===== src/Target.antt =====
-- Difficulty arithmetic on 32-byte integers.
pub mod Share
pub mod Scale
pub mod Compare
pub mod Bound
pub mod Nbits

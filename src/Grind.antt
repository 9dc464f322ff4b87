-- ===== src/Grind.antt =====
-- The reusable buffers and the commitment chain of src/official_grind.rs. The hash of `blake3` is a
-- parameter: the key, if any, and the bytes.
pub mod Assemble
pub mod Attempt
pub mod Buffers
pub mod Mine
pub mod Partition
pub mod Roots
pub mod Search
use aria_t.Base.{
  resize, ℕ, zero, suc, ◌+◌, ◌*◌, List, [], ◌∷◌, ◌++◌, length, replicate, Option, none, some, ltb,
  ◌==◌, not, if◌then◌else◌,
}
use aria_t.Base.Words.{to_le_bytes}

pub record Workspace : Type 0 where
  pub a_bytes : List ℕ
  pub b_bytes : List ℕ
  pub a_sig : List ℕ
  pub b_sig : List ℕ
  pub a_noised : List ℕ
  pub b_noised_t : List ℕ
  pub a_tiled : List ℕ
  pub b_all : List ℕ
  pub b_packed : List ℕ
  pub scratch : List ℕ
  pub a_idx : List ℕ
  pub b_idx : List ℕ

abbrev pub new_workspace : Workspace
new_workspace = record {
  a_bytes = [];
  b_bytes = [];
  a_sig = [];
  b_sig = [];
  a_noised = [];
  b_noised_t = [];
  a_tiled = [];
  b_all = [];
  b_packed = [];
  scratch = [];
  a_idx = [];
  b_idx = [];
}

-- `(u..u + n).collect()`
pub indices : ℕ → ℕ → List ℕ
indices u zero = []
indices u (suc n) = u ∷ indices (u + 1) n

-- A resize under the test of one buffer's length.
pub grown : ℕ → ℕ → List ℕ → List ℕ
grown have want xs = if ltb have want then resize want xs else xs

pub reindexed : ℕ → List ℕ → List ℕ
reindexed n xs = if length xs == n then xs else indices 0 n

pub ensure : ℕ → ℕ → ℕ → Workspace → Workspace
ensure m n k ws =
    let mk = m * k in
    let nk = n * k in
    let a = length ws.a_bytes in
    let b = length ws.b_bytes in
    record {
      a_bytes = grown a mk ws.a_bytes;
      b_bytes = grown b nk ws.b_bytes;
      a_sig = grown a mk ws.a_sig;
      b_sig = grown b nk ws.b_sig;
      a_noised = grown a mk ws.a_noised;
      b_noised_t = grown b nk ws.b_noised_t;
      a_tiled = grown a mk ws.a_tiled;
      b_all = grown b nk ws.b_all;
      b_packed = grown b nk ws.b_packed;
      scratch = grown (length ws.scratch) 512 ws.scratch;
      a_idx = reindexed m ws.a_idx;
      b_idx = reindexed n ws.b_idx;
    }

abbrev pub seed_salt_a : List ℕ
seed_salt_a =
    0x82 ∷ 0x49 ∷ 0x40 ∷ 0x6c ∷ 0xa0 ∷ 0xed ∷ 0x15 ∷ 0x16 ∷ 0x96 ∷ 0x16 ∷ 0xf6 ∷ 0x92 ∷ 0xfc ∷ 0xf0
    ∷ 0x76 ∷ 0xf8 ∷ 0x92 ∷ 0xdb ∷ 0xdb ∷ 0x2a ∷ 0x70 ∷ 0x23 ∷ 0xb8 ∷ 0x52 ∷ 0xf0 ∷ 0xd4 ∷ 0x77
    ∷ 0x19 ∷ 0xc3 ∷ 0x90 ∷ 0x01 ∷ 0x7b ∷ []

abbrev pub seed_salt_b : List ℕ
seed_salt_b =
    0x11 ∷ 0x30 ∷ 0x06 ∷ 0x32 ∷ 0xec ∷ 0x63 ∷ 0x01 ∷ 0xca ∷ 0x2b ∷ 0xe2 ∷ 0xaf ∷ 0x71 ∷ 0x8b ∷ 0x3f
    ∷ 0x4d ∷ 0x4f ∷ 0x1a ∷ 0xe9 ∷ 0xc6 ∷ 0x39 ∷ 0x88 ∷ 0xe8 ∷ 0xcc ∷ 0x04 ∷ 0x48 ∷ 0x44 ∷ 0x30
    ∷ 0x1d ∷ 0x71 ∷ 0xb8 ∷ 0x9a ∷ 0xa9 ∷ []

-- The 64 bytes that `bind_root` hashes: the root, the dimension, and zeros.
pub bound_message : List ℕ → ℕ → List ℕ
bound_message root dim = root ++ (to_le_bytes 4 dim ++ replicate 28 0)

module _ (blake3_digest : Option (List ℕ) → List ℕ → List ℕ) where
  pub bind_root : List ℕ → ℕ → List ℕ → List ℕ
  bind_root root dim salt = blake3_digest (some salt) (bound_message root dim)

  -- The seeds of the noise of B and of A.
  pub compute_commitment_hash : (job_key a_row_major b_col_major : List ℕ) → ℕ → ℕ → List ℕ × List ℕ
  compute_commitment_hash job_key a_row_major b_col_major m n =
      let hash_a = bind_root (blake3_digest (some job_key) a_row_major) m seed_salt_a in
      let hash_b = bind_root (blake3_digest (some job_key) b_col_major) n seed_salt_b in
      let b_noise_seed = blake3_digest none (job_key ++ hash_b) in
      let a_noise_seed = blake3_digest none (b_noise_seed ++ hash_a) in (b_noise_seed, a_noise_seed)

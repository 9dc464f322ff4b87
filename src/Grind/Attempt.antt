-- ===== src/Grind/Attempt.antt =====
-- One attempt of src/official_grind.rs, `try_mine_one_bounded`: the signal into the reused buffers, the
-- commitment, the noise, the search, and the proof of the tile that passes; and `mine_share`. The
-- consensus library, the hash and the random bytes are parameters. The cells of the scratch buffer
-- are written by a kernel before it reads them, so they are not threaded on.
pub mod Laws
use mathlib.Core.List.{flat_map}
use Prim.Native.Nat.{bit_and}
use aria_t.Base.{ℕ, zero, suc, ◌+◌, ◌*◌, ◌/◌, ◌%◌, List, [], ◌∷◌, ◌++◌, map, length, take, drop}
use aria_t.Base.{Option, none, some}
use aria_t.Base.Words.{u32}
use aria_t.Base.Results.{Outcome, ok, err, panic, ◌>>=◌}
use aria_t.Cpu.{Cpu}
use aria_t.Jackpot.Tile.{range}
use aria_t.Microkernel.{copy_at}
use aria_t.Noise.{MmSlice, add_noise_into_fast}
use aria_t.Grind.{Workspace, new_workspace, ensure, compute_commitment_hash}
use aria_t.Grind.Partition.{Pattern}
use aria_t.Grind.Search.{passes}
use aria_t.Grind.Mine.{Searched, search_tiles}

-- What the code calls of `pearl_blake3` and `zk_pow`; `Multileaf` is the proof that their Merkle tree
-- gives for a list of leaves.
pub record Official : Type 1 where
  pub Multileaf : Type 0
  pub blake3_digest : Option (List ℕ) → List ℕ → List ℕ
  pub pad_to_chunk_boundary : List ℕ → List ℕ
  pub compute_jackpot_hash : List ℕ → List ℕ → List ℕ
  pub compute_leaf_indices_from_rows : List ℕ → ℕ → ℕ → List ℕ
  pub get_multileaf_proof : (matrix job_key leaf_indices : List ℕ) → Multileaf
  pub generate_uniform_random_matrix : (label seed indices : List ℕ) → ℕ → List (List ℕ)
  pub generate_permutation_matrix : (label seed : List ℕ) → ℕ → ℕ → List (ℕ × ℕ)
  pub compute_noise_for_indices : ℕ → ℕ → List ℕ × List ℕ → List ℕ → List ℕ → MmSlice

-- Of a `MiningConfiguration`, its bytes and what the code reads of it.
pub record Config : Type 0 where
  pub bytes : List ℕ
  pub rank : ℕ
  pub rows_pattern : Pattern
  pub cols_pattern : Pattern

-- `((b & 0x7F) as i8) + SIGNAL_MIN`
unfoldable pub to_signal : ℕ → ℕ
to_signal b = (bit_and b 0x7f + 192) % 256

-- `chunks_exact(k)`: whole rows only.
unfoldable pub chunks_exact : ℕ → ℕ → List ℕ → List (List ℕ)
chunks_exact zero k xs = []
chunks_exact (suc n) k xs = take k xs ∷ chunks_exact n k (drop k xs)

unfoldable pub flatten_matrix : List (List ℕ) → List ℕ
flatten_matrix matrix = flat_map (λ r. r) matrix

-- `loop { if let Some(p) = attempt { return p } }`; `none` means that the draws ran out.
unfoldable pub first_proof {ℓ ℓ'} :
    {D : Type ℓ} {P : Type ℓ'}
    → (D → Workspace → Outcome (Workspace × Option P))
    → List D
    → Workspace
    → Outcome (Option P)
first_proof attempt [] ws = ok none
first_proof attempt (d ∷ draws) ws = do
  (ws', found) ← attempt d ws
  elim found [ some proof ↦ ok (some proof) | none ↦ first_proof attempt draws ws' ]

module _ (o : Official) where
  pub record MatrixProof : Type 0 where
    pub proof : o.Multileaf
    pub row_indices : List ℕ

  pub record PlainProof : Type 0 where
    pub m : ℕ
    pub n : ℕ
    pub k : ℕ
    pub noise_rank : ℕ
    pub a : MatrixProof
    pub bt : MatrixProof

  unfoldable pub compute_job_key : (header config : List ℕ) → List ℕ
  compute_job_key header config = o.blake3_digest none (header ++ config)

  unfoldable pub build_matrix_proof :
      List (List ℕ) → (job_key row_indices : List ℕ) → ℕ → MatrixProof
  build_matrix_proof matrix job_key row_indices num_cols =
      let padded = o.pad_to_chunk_boundary (flatten_matrix matrix) in
      let leaf_indices = o.compute_leaf_indices_from_rows row_indices (length matrix) num_cols in
      record {
        proof = o.get_multileaf_proof padded job_key leaf_indices;
        row_indices = row_indices;
      }

  unfoldable pub make_proof :
      (a_sig b_sig : List ℕ) → (m n k rank : ℕ) → (job_key a_rows b_cols : List ℕ) → PlainProof
  make_proof a_sig b_sig m n k rank job_key a_rows b_cols =
      let a_vv = chunks_exact (length a_sig / k) k a_sig in
      let b_vv = chunks_exact (length b_sig / k) k b_sig in
      record {
        m = m;
        n = n;
        k = k;
        noise_rank = rank;
        a = build_matrix_proof a_vv job_key a_rows k;
        bt = build_matrix_proof b_vv job_key b_cols k;
      }

  -- What an attempt knows before its search: the workspace, the key, the seed of the jackpot hash, and
  -- the slices `[..mk]` and `[..nk]` of the signal and of the noised matrices.
  pub record Prologue : Type 0 where
    pub ws : Workspace
    pub job_key : List ℕ
    pub a_noise_seed : List ℕ
    pub a_sig : List ℕ
    pub b_sig : List ℕ
    pub a_noised : List ℕ
    pub b_noised_t : List ℕ

  module _ (cpu : Cpu) (header : List ℕ) (config : Config) (m n k : ℕ) where
    -- From the signal in the workspace on.
    unfoldable pub commit : Workspace → Prologue
    commit ws =
        let a_sig = take (m * k) ws.a_sig in
        let b_sig = take (n * k) ws.b_sig in
        let job_key = compute_job_key header config.bytes in
        let seeds =
          compute_commitment_hash o.blake3_digest job_key (o.pad_to_chunk_boundary a_sig)
            (o.pad_to_chunk_boundary b_sig) (u32 m) (u32 n) in
        let noised =
          add_noise_into_fast o.generate_uniform_random_matrix o.generate_permutation_matrix
            o.compute_noise_for_indices cpu k config.rank seeds (take m ws.a_idx) (take n ws.b_idx)
            a_sig b_sig in
        record {
          ws = record ws {
            a_noised = copy_at ws.a_noised 0 noised.0;
            b_noised_t = copy_at ws.b_noised_t 0 noised.1;
          };
          job_key = job_key;
          a_noise_seed = seeds.1;
          a_sig = a_sig;
          b_sig = b_sig;
          a_noised = noised.0;
          b_noised_t = noised.1;
        }

    -- The random bytes drawn, and the signal that they make.
    unfoldable pub draw : (a_rand b_rand : List ℕ) → Workspace → Workspace
    draw a_rand b_rand ws = record ws {
      a_bytes = copy_at ws.a_bytes 0 a_rand;
      b_bytes = copy_at ws.b_bytes 0 b_rand;
      a_sig = copy_at ws.a_sig 0 (map to_signal a_rand);
      b_sig = copy_at ws.b_sig 0 (map to_signal b_rand);
    }

    -- The proof of the tile that passed.
    unfoldable pub proof_of : Prologue → Option (List ℕ × List ℕ) → Option PlainProof
    proof_of p none = none
    proof_of p (some (rows, cols)) =
        some (make_proof p.a_sig p.b_sig m n k config.rank p.job_key rows cols)

    -- The prologue, with the random bytes that the source draws.
    unfoldable pub prologue : (a_rand b_rand : List ℕ) → Workspace → Prologue
    prologue a_rand b_rand ws = commit (draw a_rand b_rand (ensure m n k ws))

    unfoldable pub try_mine_one_bounded :
        ℕ → (bound_le a_rand b_rand : List ℕ) → Workspace → Outcome (Workspace × Option PlainProof)
    try_mine_one_bounded panel bound_le a_rand b_rand ws = do
      let p = prologue a_rand b_rand ws
      s ←
          search_tiles cpu (passes o.compute_jackpot_hash p.a_noise_seed bound_le) k config.rank
            p.a_noised p.b_noised_t panel config.rows_pattern config.cols_pattern m n p.ws
      let ws' = record p.ws { a_tiled = s.a_tiled; b_all = s.b_all; b_packed = s.b_packed }
      ok (ws', proof_of p s.hit)

    -- With the draws that the random source has to offer.
    unfoldable pub mine_share : ℕ → List ℕ → List (List ℕ × List ℕ) → Outcome (Option PlainProof)
    mine_share panel bound_le draws =
        first_proof (λ d. try_mine_one_bounded panel bound_le d.0 d.1) draws new_workspace

-- ===== src/Gpu/Proofs.antt =====
-- Proofs from trees built on the device: `ProofGpuCtx` of src/gpu_ffi.rs, and of src/official_grind.rs
-- the packaging of one hit and that of all hits of a setup. What is resident in a context,
-- the matrix of its last build, is explicit state, by the pointer of the context.
pub mod Batches
use aria_t.Base.{ℕ, zero, suc, ◌+◌, ◌*◌, ◌/◌, List, [], ◌∷◌, map, length, take, replicate}
use aria_t.Base.{Bool, Option, some, ◌&&◌, ◌||◌, not, ◌==◌, leb, if◌then◌else◌}
use aria_t.Base.Results.{Outcome, ok, panic, ◌>>=◌}
use aria_t.Grind.Partition.{asserted}
use aria_t.Grind.Assemble.{sum, MatrixMerkleProof, assemble_matrix_proof}
use aria_t.Gpu.{Hit, int_as_usize}

-- The matrix a tree is built of: its seed, which of the two, and its size.
pub record Matrix : Type 0 where
  pub seed : ℕ
  pub sel : ℕ
  pub rows : ℕ
  pub k : ℕ
  pub job_key : List ℕ

-- What a foreign build leaves, and what a foreign gather leaves.
pub record Built : Type 0 where
  pub rc : ℕ
  pub leaf_data : List ℕ
  pub layers : List ℕ
  pub layer_lens : List ℕ
  pub num_layers : ℕ
  pub root : List ℕ

pub record Gathered : Type 0 where
  pub rc : ℕ
  pub leaf_data : List ℕ

-- The foreign functions get the leaf indices and the buffers to fill.
pub record ProofGpuCtx : Type 0 where
  pub ptr : ℕ
  pub max_rows : ℕ
  pub k : ℕ
  pub max_leafdata : ℕ
  pub pearl_proof_build : Matrix → (leaf_indices leaf_data layers layer_lens : List ℕ) → Built
  pub pearl_proof_build_tree : Matrix → (layers layer_lens : List ℕ) → Built
  pub pearl_proof_gather : Option Matrix → (leaf_indices leaf_data : List ℕ) → Gathered

pub record ProofRaw : Type 0 where
  pub leaf_data : List ℕ
  pub layers : List ℕ
  pub layer_lens : List ℕ
  pub root : List ℕ

pub record Tree : Type 0 where
  pub layers : List ℕ
  pub layer_lens : List ℕ
  pub root : List ℕ

-- The layers that the device counted, and the bytes of their nodes.
unfoldable pub tree_of : Built → Tree
tree_of b =
    let lens = map int_as_usize (take b.num_layers b.layer_lens) in
    record { layers = take (sum lens * 32) b.layers; layer_lens = lens; root = b.root }

-- `vec![0u8; (2 * num_leaves + 8) * 32]` for the layers of a matrix.
abbrev pub layer_bytes : Matrix → List ℕ
layer_bytes x = replicate ((2 * (x.rows * x.k / 1024) + 8) * 32) 0

-- The asserts on the matrix, and those on the leaves.
unfoldable pub matrix_fits : ProofGpuCtx → Matrix → Bool
matrix_fits ctx x = x.k == ctx.k && leb x.rows ctx.max_rows

unfoldable pub leaves_fit : ProofGpuCtx → List ℕ → Bool
leaves_fit ctx leaf_indices =
    not (length leaf_indices == 0) && leb (length leaf_indices) ctx.max_leafdata

-- The matrix whose signal a context holds, by its pointer.
abbrev pub Resident : Type 0
Resident = ℕ → Option Matrix

unfoldable pub held : ProofGpuCtx → Matrix → Resident → Resident
held ctx x device ptr = if ptr == ctx.ptr then some x else device ptr

module _ (ctx : ProofGpuCtx) where
  unfoldable pub build : Matrix → List ℕ → Resident → Outcome (ProofRaw × Resident)
  build x leaf_indices device = do
    _ ← asserted (matrix_fits ctx x)
    _ ← asserted (leaves_fit ctx leaf_indices)
    let b =
        ctx.pearl_proof_build x leaf_indices (replicate (length leaf_indices * 1024) 0)
          (layer_bytes x) (replicate 64 0)
    _ ← asserted (b.rc == 0)
    let t = tree_of b
    let raw : ProofRaw = record {
      leaf_data = b.leaf_data;
      layers = t.layers;
      layer_lens = t.layer_lens;
      root = t.root;
    }
    ok (raw, held ctx x device)

  unfoldable pub build_tree : Matrix → Resident → Outcome (Tree × Resident)
  build_tree x device = do
    _ ← asserted (matrix_fits ctx x)
    let b = ctx.pearl_proof_build_tree x (layer_bytes x) (replicate 64 0)
    _ ← asserted (b.rc == 0)
    ok (tree_of b, held ctx x device)

  unfoldable pub gather : Resident → List ℕ → Outcome (List ℕ)
  gather device leaf_indices = do
    _ ← asserted (leaves_fit ctx leaf_indices)
    let g =
        ctx.pearl_proof_gather (device ctx.ptr) leaf_indices
          (replicate (length leaf_indices * 1024) 0)
    _ ← asserted (g.rc == 0)
    ok g.leaf_data

pub record PlainProof : Type 0 where
  pub m : ℕ
  pub n : ℕ
  pub k : ℕ
  pub noise_rank : ℕ
  pub a : MatrixMerkleProof
  pub bt : MatrixMerkleProof

-- `MerkleTree::compute_leaf_indices_from_rows` of the hash library.
module _ (compute_leaf_indices_from_rows : List ℕ → ℕ → ℕ → List ℕ) (job_key : List ℕ)
    (m n k rank : ℕ) where
  abbrev pub matrix_a : ℕ → Matrix
  matrix_a seed = record { seed = seed; sel = 0; rows = m; k = k; job_key = job_key }

  abbrev pub matrix_b : ℕ → Matrix
  matrix_b seed = record { seed = seed; sel = 1; rows = n; k = k; job_key = job_key }

  unfoldable pub build_proof_from_hit_gpu :
      ProofGpuCtx → ℕ → Hit → Resident → Outcome (PlainProof × Resident)
  build_proof_from_hit_gpu pctx setup_seed hit device = do
    let a_leaves = compute_leaf_indices_from_rows hit.rows m k
    let b_leaves = compute_leaf_indices_from_rows hit.cols n k
    (a_raw, device') ← build pctx (matrix_a setup_seed) a_leaves device
    (b_raw, device'') ← build pctx (matrix_b setup_seed) b_leaves device'
    let proof : PlainProof = record {
      m = m;
      n = n;
      k = k;
      noise_rank = rank;
      a =
          assemble_matrix_proof a_raw.layers a_raw.layer_lens a_raw.root a_raw.leaf_data a_leaves
            hit.rows;
      bt =
          assemble_matrix_proof b_raw.layers b_raw.layer_lens b_raw.root b_raw.leaf_data b_leaves
            hit.cols;
    }
    ok (proof, device'')

  -- The loop over the hits, with the two trees built before it.
  module _ (ctx_a ctx_b : ProofGpuCtx) (tile_h tile_w : ℕ) (a_tree b_tree : Tree)
      (device : Resident) where
    unfoldable pub gather_proof : Hit → Outcome PlainProof
    gather_proof hit = do
      let a_leaves = compute_leaf_indices_from_rows hit.rows m k
      let b_leaves = compute_leaf_indices_from_rows hit.cols n k
      a_leaf_data ← gather ctx_a device a_leaves
      b_leaf_data ← gather ctx_b device b_leaves
      ok record {
        m = m;
        n = n;
        k = k;
        noise_rank = rank;
        a =
            assemble_matrix_proof a_tree.layers a_tree.layer_lens a_tree.root a_leaf_data a_leaves
              hit.rows;
        bt =
            assemble_matrix_proof b_tree.layers b_tree.layer_lens b_tree.root b_leaf_data b_leaves
              hit.cols;
      }

    unfoldable pub gather_proofs : List Hit → Outcome (List PlainProof)
    gather_proofs [] = ok []
    gather_proofs (hit ∷ hits) =
        let rest = gather_proofs hits in
        let here : Outcome (List PlainProof) =
          gather_proof hit >>= λ proof. rest >>= λ proofs. ok (proof ∷ proofs) in
        if not (length hit.rows == tile_h) || not (length hit.cols == tile_w) then rest else here

  unfoldable pub build_proofs_from_setup_gpu :
      (ctx_a ctx_b : ProofGpuCtx) → ℕ → List Hit → Resident → Outcome (List PlainProof × Resident)
  build_proofs_from_setup_gpu ctx_a ctx_b setup_seed hits device = do
    (a_tree, device') ← build_tree ctx_a (matrix_a setup_seed) device
    (b_tree, device'') ← build_tree ctx_b (matrix_b setup_seed) device'
    proofs ← gather_proofs ctx_a ctx_b 2 64 a_tree b_tree device'' hits
    ok (proofs, device'')

  unfoldable pub build_proofs_from_setup_gpu_fixb :
      (ctx_a ctx_b : ProofGpuCtx)
      → (a_seed b_seed : ℕ) → List Hit
      → (tile_h tile_w : ℕ) → Resident
      → Outcome (List PlainProof × Resident)
  build_proofs_from_setup_gpu_fixb ctx_a ctx_b a_seed b_seed hits tile_h tile_w device = do
    (a_tree, device') ← build_tree ctx_a (matrix_a a_seed) device
    (b_tree, device'') ← build_tree ctx_b (matrix_b b_seed) device'
    proofs ← gather_proofs ctx_a ctx_b tile_h tile_w a_tree b_tree device'' hits
    ok (proofs, device'')

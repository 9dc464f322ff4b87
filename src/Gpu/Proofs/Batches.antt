-- ===== src/Gpu/Proofs/Batches.antt =====
-- The proofs of all hits of a setup, from trees built once, are those built hit by hit
-- (src/official_grind.rs).
use aria_t.Base.{
  ℕ, ◌*◌, ◌≡◌, refl, List, [], ◌∷◌, length, replicate, Bool, true, false, ◌&&◌, ◌||◌, not, ◌==◌,
  if◌then◌else◌, Bool-cases, inl, inr, some, arith,
}
use aria_t.Base.Results.{Outcome, ok, panic, ◌>>=◌}
use aria_t.Gpu.{Hit}
use aria_t.Gpu.Proofs.{
  Matrix, ProofGpuCtx, Resident, held, Tree, tree_of, layer_bytes, matrix_fits, leaves_fit, build,
  build_tree, gather, PlainProof, matrix_a, matrix_b, build_proof_from_hit_gpu, gather_proof,
  gather_proofs, build_proofs_from_setup_gpu, build_proofs_from_setup_gpu_fixb,
}

-- What a matrix is to a device: the chunks of its leaves, and its tree.
pub record Contents : Type 0 where
  pub chunks : List ℕ → List ℕ
  pub tree : Tree

-- Two contexts on one matrix, as the device documents its functions for lists of leaves that it takes:
-- a build gives the tree and the chunks of the leaves, a build of the tree gives the tree, and a gather
-- of a context that holds the matrix gives the chunks.
pub record Serves (pctx ctx : ProofGpuCtx) (x : Matrix) (c : Contents) : Type 0 where
  pub fits : matrix_fits ctx x ≡ true
  pub fits' : matrix_fits pctx x ≡ true
  pub leaves : pctx.max_leafdata ≡ ctx.max_leafdata
  pub builds :
      (is : List ℕ)
      → leaves_fit ctx is ≡ true
      → let b =
          pctx.pearl_proof_build x is
            (replicate (length is * 1024) 0)
            (layer_bytes x)
            (replicate 64 0) in
        (b.rc ≡ 0) × (tree_of b ≡ c.tree) × (b.leaf_data ≡ c.chunks is)
  pub grows :
      let b = ctx.pearl_proof_build_tree x (layer_bytes x) (replicate 64 0) in
      (b.rc ≡ 0) × (tree_of b ≡ c.tree)
  pub gathers :
      (is : List ℕ)
      → leaves_fit ctx is ≡ true
      → let g = ctx.pearl_proof_gather (some x) is (replicate (length is * 1024) 0) in
        (g.rc ≡ 0) × (g.leaf_data ≡ c.chunks is)

module _ (pctx ctx : ProofGpuCtx) (x : Matrix) (c : Contents) (s : Serves pctx ctx x c) where
  build_tree-served : (device : Resident) → build_tree ctx x device ≡ ok (c.tree, held ctx x device)
  unfolding build_tree
  build_tree-served device = rw (s.fits, s.grows.1, s.grows.0) refl

  same_fit : (is : List ℕ) → leaves_fit pctx is ≡ leaves_fit ctx is
  unfolding leaves_fit
  same_fit is = rw (s.leaves) refl

  build-served :
      (is : List ℕ) (device : Resident)
      → build pctx x is device ≡ (
          if leaves_fit ctx is
          then ok (
            record {
              leaf_data = c.chunks is;
              layers = c.tree.layers;
              layer_lens = c.tree.layer_lens;
              root = c.tree.root;
            },
            held pctx x device,
          )
          else panic)
  unfolding build
  build-served is device = elim (Bool-cases (leaves_fit ctx is)) [
    | inl e ↦
        let (rc, tree, data') = s.builds is e in rw (s.fits', same_fit is, e, tree, data', rc) refl
    | inr e ↦ rw (s.fits', same_fit is, e) refl
  ]

  gather-served :
      (is : List ℕ) (device : Resident)
      → device ctx.ptr ≡ some x
      → gather ctx device is ≡ (if leaves_fit ctx is then ok (c.chunks is) else panic)
  unfolding gather
  gather-served is device h = elim (Bool-cases (leaves_fit ctx is)) [
    | inl e ↦ let (rc, data') = s.gathers is e in rw (e, h, rc, data') refl
    | inr e ↦ rw e refl
  ]

-- The two ways in which a shape is tested.
shape {ℓ} :
    {A : Type ℓ} (h w : Bool) (rest here : A)
    → (if not h || not w then rest else here) ≡ (if h && w then here else rest)
shape true true rest here = refl
shape true false rest here = refl
shape false w rest here = refl

-- The proofs of the hits of the tile's shape, each by its own call.
unfoldable pub each_hit : (Hit → Outcome PlainProof) → ℕ → ℕ → List Hit → Outcome (List PlainProof)
each_hit build_one tile_h tile_w [] = ok []
each_hit build_one tile_h tile_w (hit ∷ hits) =
    let rest = each_hit build_one tile_h tile_w hits in
    if length hit.rows == tile_h && length hit.cols == tile_w
    then (build_one hit >>= λ proof. rest >>= λ proofs. ok (proof ∷ proofs))
    else rest

-- The proof alone.
unfoldable pub proof_only : Outcome (PlainProof × Resident) → Outcome PlainProof
proof_only o = o >>= λ r. ok r.0

module _ (leaves_of : List ℕ → ℕ → ℕ → List ℕ) (job_key : List ℕ) (m n k rank : ℕ)
    (pctx ctx_a ctx_b : ProofGpuCtx) (seed : ℕ) (of_a of_b : Contents)
    (serves_a : Serves pctx ctx_a (matrix_a leaves_of job_key m n k rank seed) of_a)
    (serves_b : Serves pctx ctx_b (matrix_b leaves_of job_key m n k rank seed) of_b)
    (apart : (ctx_a.ptr == ctx_b.ptr) ≡ false) (device : Resident) where
  abbrev A : Matrix
  A = matrix_a leaves_of job_key m n k rank seed

  abbrev B : Matrix
  B = matrix_b leaves_of job_key m n k rank seed

  -- After the two trees.
  abbrev pub both : Resident
  both = held ctx_b B (held ctx_a A device)

  both-a : both ctx_a.ptr ≡ some A
  unfolding held
  both-a = let same : (ctx_a.ptr == ctx_a.ptr) ≡ true = ground arith in rw (apart, same) refl

  both-b : both ctx_b.ptr ≡ some B
  unfolding held
  both-b = let same : (ctx_b.ptr == ctx_b.ptr) ≡ true = ground arith in rw same refl

  one_hit :
      (tile_h tile_w : ℕ) (hit : Hit)
      → gather_proof leaves_of job_key m n k rank ctx_a ctx_b tile_h tile_w of_a.tree of_b.tree both
          hit
        ≡ proof_only (build_proof_from_hit_gpu leaves_of job_key m n k rank pctx seed hit device)
  unfolding gather_proof build_proof_from_hit_gpu proof_only
  one_hit tile_h tile_w hit =
      let a_leaves = leaves_of hit.rows m k in
      let b_leaves = leaves_of hit.cols n k in
      let first = build-served pctx ctx_a A of_a serves_a a_leaves device in
      let second = build-served pctx ctx_b B of_b serves_b b_leaves (held pctx A device) in
      rw
        (
          first,
          gather-served pctx ctx_a A of_a serves_a a_leaves both both-a,
          gather-served pctx ctx_b B of_b serves_b b_leaves both both-b,
        )
        (elim (Bool-cases (leaves_fit ctx_a a_leaves)) [
          | inr e ↦ rw e refl
          | inl e ↦ elim (Bool-cases (leaves_fit ctx_b b_leaves)) [
            | inl e' ↦ rw (e, second, e') refl
            | inr e' ↦ rw (e, second, e') refl
          ]
        ])

  all_hits :
      (tile_h tile_w : ℕ) (hits : List Hit)
      → gather_proofs leaves_of job_key m n k rank ctx_a ctx_b tile_h tile_w of_a.tree of_b.tree
          both hits
        ≡ each_hit
            (λ hit.
              proof_only
                (build_proof_from_hit_gpu leaves_of job_key m n k rank pctx seed hit device))
            tile_h
            tile_w
            hits
  unfolding gather_proofs each_hit
  all_hits tile_h tile_w [] = refl
  all_hits tile_h tile_w (hit ∷ hits) =
      rw (one_hit tile_h tile_w hit, all_hits tile_h tile_w hits)
        (shape (length hit.rows == tile_h) (length hit.cols == tile_w) _ _)

  -- For two different contexts that serve the two matrices, whatever was resident before, the proofs
  -- of a setup's hits over trees built once are those of its hits of two rows and 64 columns, each
  -- built by its own call, and panic where one of these panics; each context then holds its matrix.
  -- The general variant with equal seeds and any tile shape does the same for the hits of that shape.
  pub build_proofs_from_setup_gpu-each_hit :
      (hits : List Hit) (tile_h tile_w : ℕ)
      → (build_proofs_from_setup_gpu leaves_of job_key m n k rank ctx_a ctx_b seed hits device ≡ (
          each_hit
            (λ hit.
              proof_only
                (build_proof_from_hit_gpu leaves_of job_key m n k rank pctx seed hit device))
            2
            64
            hits
          >>= λ proofs. ok (proofs, held ctx_b B (held ctx_a A device))))
        × (build_proofs_from_setup_gpu_fixb leaves_of job_key m n k rank ctx_a ctx_b seed seed hits
              tile_h tile_w device
            ≡ (each_hit
                  (λ hit.
                    proof_only
                      (build_proof_from_hit_gpu leaves_of job_key m n k rank pctx seed hit device))
                  tile_h
                  tile_w
                  hits
                >>= λ proofs. ok (proofs, held ctx_b B (held ctx_a A device))))
  unfolding build_proofs_from_setup_gpu build_proofs_from_setup_gpu_fixb
  build_proofs_from_setup_gpu-each_hit hits tile_h tile_w =
      let first = build_tree-served pctx ctx_a A of_a serves_a device in
      let second = build_tree-served pctx ctx_b B of_b serves_b (held ctx_a A device) in
      (
        rw (first, second, all_hits 2 64 hits) refl,
        rw (first, second, all_hits tile_h tile_w hits) refl,
      )

-- ===== src/Gpu/Attempts/Packaging.antt =====
-- A hit packaged away from the device's thread (src/official_grind.rs): the same proof as in place,
-- whatever the workspace of the packaging thread held.
use aria_t.Base.{
  ℕ, ◌*◌, ◌≡◌, refl, arith, List, take, Option, none, some, Option-cases, Bool-cases, inl, inr,
  ◌==◌,
}
use aria_t.Grind.{Workspace, ensure}
use aria_t.Grind.Buffers.{IsEven, IsReady, ensure-IsReady}
use aria_t.Grind.Attempt.{Official, Config, PlainProof, compute_job_key, make_proof}
use aria_t.Gpu.{Hit, ResidentCtx, ctx_grind}
use aria_t.Gpu.Attempts.{
  regenerate, tile_hit, GrindHit, build_proof_from_hit, build_proof_from_hit_fixb, resident_result,
  try_mine_one_bounded_gpu_resident_ctx, grind_only_ctx,
}
use aria_t.Gpu.Attempts.Signal.{signal, take-regenerate}

module _ (o : Official) where
  -- The proof of a hit, from the signals of two seeds.
  unfoldable pub packaged : (a_seed b_seed : ℕ) → Hit → List ℕ → (m n k rank : ℕ) → PlainProof o
  packaged a_seed b_seed hit job_key m n k rank =
      make_proof o (signal a_seed 0 m k) (signal b_seed 1 n k) m n k rank job_key hit.rows hit.cols

  module _ (m n k : ℕ) (ws : Workspace) (even : IsEven ws) where
    ready : IsReady m n k (ensure m n k ws)
    ready = ensure-IsReady m n k ws even

    a_signal :
        (seed : ℕ)
        → take (m * k) (regenerate seed 0 m k (ensure m n k ws).a_sig) ≡ signal seed 0 m k
    a_signal seed =
        take-regenerate seed 0 m k (ensure m n k ws).a_sig
          (omega (arith, ready.a_room, ready.even.a_sig))

    b_signal :
        (seed : ℕ)
        → take (n * k) (regenerate seed 1 n k (ensure m n k ws).b_sig) ≡ signal seed 1 n k
    b_signal seed =
        take-regenerate seed 1 n k (ensure m n k ws).b_sig
          (omega (arith, ready.b_room, ready.even.b_sig))

    -- From any workspace with buffers of even lengths, however small and whatever they hold, the
    -- packaging of a hit gives the proof over the signals of its two seeds, and with one seed it is
    -- that of the packaging with two equal seeds.
    pub build_proof_from_hit-packaged :
        (a_seed b_seed : ℕ) (hit : Hit) (job_key : List ℕ) (rank : ℕ)
        → ((build_proof_from_hit_fixb o a_seed b_seed hit job_key m n k rank ws).1
            ≡ packaged a_seed b_seed hit job_key m n k rank)
          × ((build_proof_from_hit o a_seed hit job_key m n k rank ws).1
              ≡ packaged a_seed a_seed hit job_key m n k rank)
    unfolding build_proof_from_hit_fixb build_proof_from_hit packaged
    build_proof_from_hit-packaged a_seed b_seed hit job_key rank =
        (rw (a_signal a_seed, b_signal b_seed) refl, rw (a_signal a_seed, b_signal a_seed) refl)

  -- What the builder thread makes of what the device's thread handed on.
  unfoldable pub rebuilt : (m n k rank : ℕ) → Workspace → Option GrindHit → Option (PlainProof o)
  rebuilt m n k rank ws none = none
  rebuilt m n k rank ws (some g) =
      some (build_proof_from_hit o g.setup_seed g.hit g.job_key m n k rank ws).1

  module _ (header : List ℕ) (config : Config) (ctx : ResidentCtx) (ws : Workspace)
      (even : IsEven ws) (builder : Workspace) (even' : IsEven builder) where
    -- The resident attempt and the grind whose hit is packaged elsewhere, with a workspace of its own,
    -- give the same proof or none, for every seed and whatever the device returns.
    pub resident_ctx-rebuilt :
        (bound_le : List ℕ) (setup_seed : ℕ)
        → (try_mine_one_bounded_gpu_resident_ctx o header config ctx bound_le setup_seed ws).1
          ≡ rebuilt ctx.m ctx.n ctx.k config.rank builder
              (grind_only_ctx o header config ctx bound_le setup_seed)
    unfolding try_mine_one_bounded_gpu_resident_ctx resident_result grind_only_ctx rebuilt packaged
    resident_ctx-rebuilt bound_le setup_seed =
        let job_key = compute_job_key o header config.bytes in
        let f = ctx_grind ctx setup_seed job_key bound_le in
        elim (Bool-cases (f.found == 0)) [
          | inl e ↦ rw e refl
          | inr e ↦ elim (Option-cases (tile_hit o header config f.hits)) [
            | inl e' ↦ rw (e, e') refl
            | inr (hit, e') ↦
                let there =
                  build_proof_from_hit-packaged ctx.m ctx.n ctx.k builder even' setup_seed
                    setup_seed hit job_key config.rank in
                rw
                  (
                    e,
                    e',
                    a_signal ctx.m ctx.n ctx.k ws even setup_seed,
                    b_signal ctx.m ctx.n ctx.k ws even setup_seed,
                    there.1,
                  )
                  refl
          ]
        ]

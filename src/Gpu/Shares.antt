-- ===== src/Gpu/Shares.antt =====
-- The loops around the attempts on the device, src/official_grind.rs: `mine_share_gpu`,
-- `mine_share_gpu_2x64` and `mine_share_gpu_resident`, for the seeds that the random source has to
-- offer.
use aria_t.Base.{ℕ, List, Option}
use aria_t.Base.Results.{Outcome, ok}
use aria_t.Cpu.{Cpu}
use aria_t.Grind.{new_workspace}
use aria_t.Grind.Attempt.{Official, Config, PlainProof, first_proof}
use aria_t.Gpu.{Found, Kernel, grind}
use aria_t.Gpu.Attempts.{
  try_mine_one_bounded_gpu, try_mine_one_bounded_gpu_2x64, try_mine_one_bounded_gpu_resident,
}

module _ (o : Official) (header : List ℕ) (config : Config) where
  unfoldable pub mine_share_gpu :
      Cpu → Kernel → (m n k : ℕ) → List ℕ → List (ℕ × ℕ) → Outcome (Option (PlainProof o))
  mine_share_gpu cpu kernel m n k bound_le draws =
      first_proof
        (λ d. try_mine_one_bounded_gpu o header config cpu (grind kernel) m n k bound_le d.0 d.1)
        draws new_workspace

  unfoldable pub mine_share_gpu_2x64 :
      Cpu → Kernel → (m n k : ℕ) → List ℕ → List (ℕ × ℕ) → Outcome (Option (PlainProof o))
  mine_share_gpu_2x64 cpu kernel m n k bound_le draws =
      first_proof
        (λ d. try_mine_one_bounded_gpu_2x64 o header config cpu kernel m n k bound_le d.0 d.1) draws
        new_workspace

  unfoldable pub mine_share_gpu_resident :
      (ℕ → (m n k : ℕ) (job_key bound_le : List ℕ) → ℕ → Found)
      → (m n k : ℕ) → List ℕ
      → List ℕ
      → Outcome (Option (PlainProof o))
  mine_share_gpu_resident grind m n k bound_le seeds =
      first_proof
        (λ seed ws.
          ok (try_mine_one_bounded_gpu_resident o header config grind m n k bound_le seed ws))
        seeds new_workspace

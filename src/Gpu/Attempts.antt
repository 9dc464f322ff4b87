-- ===== src/Gpu/Attempts.antt =====
-- The attempts of src/official_grind.rs that search on the device: the hybrid one, which makes the
-- signal and the noise on the host, the resident ones, which send a seed and make the signal again for
-- a hit, and the packaging of a hit away from the device's thread. The seeds drawn are arguments; the
-- timing that the profile prints is left out.
pub mod Packaging
pub mod Signal
use Prim.Native.Nat.{bit_and, bit_or, bit_xor}
use aria_t.Base.{
  ℕ, zero, suc, ◌+◌, ◌-◌, ◌*◌, ◌/◌, ◌%◌, ◌^◌, List, [], ◌∷◌, ◌++◌, map, length, take, set,
}
use aria_t.Base.{Bool, ◌&&◌, ◌==◌, if◌then◌else◌, Option, none, some}
use aria_t.Base.Words.{u8, u32, u64, to_le_bytes, le_value}
use aria_t.Base.Results.{Outcome, ok, panic, ◌>>=◌}
use aria_t.Cpu.{Cpu}
use aria_t.Jackpot.Flat.{upto}
use aria_t.Jackpot.Tile.{range}
use aria_t.Microkernel.{for_each, copy_at}
use aria_t.Grind.{Workspace, ensure}
use aria_t.Grind.Attempt.{
  Official, Config, PlainProof, Prologue, to_signal, compute_job_key, make_proof, commit,
}
use aria_t.Gpu.{Hit, Found, ResidentCtx, Kernel, grind_2x64, ctx_grind, int7_at}

-- `le_u32x8`
unfoldable pub le_u32x8 : List ℕ → List ℕ
le_u32x8 bytes = map (λ i. le_value (range bytes (4 * i) (4 * i + 4))) (upto 0 8)

-- The generator of `fast_fill_signal`: its state after a draw, and the word drawn.
unfoldable pub xorshift : ℕ → ℕ
xorshift s =
    let a = bit_xor s (s / 2 ^ 12) in let b = bit_xor a (u64 (a * 2 ^ 25)) in bit_xor b (b / 2 ^ 27)

unfoldable pub drawn : ℕ → ℕ
drawn s = u64 (s * 0x2545_F491_4F6C_DD1D)

-- `for c in &mut chunks`, then `for (i, slot) in remainder.iter_mut().enumerate()`.
unfoldable pub fill_rest : ℕ → ℕ → ℕ → List ℕ
fill_rest zero i s = []
fill_rest (suc n) i s =
    let s' = xorshift s in to_signal (u8 (drawn s' / 2 ^ (8 * (i % 8)))) ∷ fill_rest n (i + 1) s'

unfoldable pub fill_chunks : ℕ → ℕ → ℕ → List ℕ
fill_chunks zero rest s = fill_rest rest 0 s
fill_chunks (suc n) rest s =
    let s' = xorshift s in map to_signal (to_le_bytes 8 (drawn s')) ++ fill_chunks n rest s'

-- The values that fill a slice of `len` cells.
unfoldable pub fast_fill_signal : ℕ → ℕ → List ℕ
fast_fill_signal seed len = fill_chunks (len / 8) (len % 8) (bit_or seed 1)

-- `for i in 0..rows { for j in 0..k { sig[i * k + j] = int7_at(seed, sel, i, j) } }`
unfoldable pub regenerate : ℕ → ℕ → ℕ → ℕ → List ℕ → List ℕ
regenerate seed sel rows k sig =
    for_each rows 0
      (λ i. for_each k 0 (λ j out. set out (i * k + j) (int7_at seed sel (u32 i) (u32 j)))) sig

-- The first hit whose shape is the tile's.
unfoldable pub find_hit : ℕ → ℕ → List Hit → Option Hit
find_hit tile_h tile_w [] = none
find_hit tile_h tile_w (h ∷ hits) =
    let rest = find_hit tile_h tile_w hits in
    if length h.rows == tile_h && length h.cols == tile_w then some h else rest

-- What `grind_only_ctx` hands on.
pub record GrindHit : Type 0 where
  pub setup_seed : ℕ
  pub hit : Hit
  pub job_key : List ℕ

module _ (o : Official) where
  unfoldable pub build_proof_from_hit_fixb :
      (a_seed b_seed : ℕ) → Hit → List ℕ → (m n k rank : ℕ) → Workspace → Workspace × PlainProof o
  build_proof_from_hit_fixb a_seed b_seed hit job_key m n k rank ws =
      let grown = ensure m n k ws in
      let a_sig = regenerate a_seed 0 m k grown.a_sig in
      let b_sig = regenerate b_seed 1 n k grown.b_sig in
      (
        record grown { a_sig = a_sig; b_sig = b_sig },
        make_proof o (take (m * k) a_sig) (take (n * k) b_sig) m n k rank job_key hit.rows hit.cols,
      )

  unfoldable pub build_proof_from_hit :
      ℕ → Hit → List ℕ → (m n k rank : ℕ) → Workspace → Workspace × PlainProof o
  build_proof_from_hit setup_seed hit job_key m n k rank ws =
      let grown = ensure m n k ws in
      let a_sig = regenerate setup_seed 0 m k grown.a_sig in
      let b_sig = regenerate setup_seed 1 n k grown.b_sig in
      (
        record grown { a_sig = a_sig; b_sig = b_sig },
        make_proof o (take (m * k) a_sig) (take (n * k) b_sig) m n k rank job_key hit.rows hit.cols,
      )

  module _ (header : List ℕ) (config : Config) where
    abbrev pub tile_hit : List Hit → Option Hit
    tile_hit hits =
        find_hit (length config.rows_pattern.to_list) (length config.cols_pattern.to_list) hits

    -- What follows a resident grind in both resident attempts.
    unfoldable pub resident_result :
        ℕ → (m n k : ℕ) → List ℕ → Found → Workspace → Workspace × Option (PlainProof o)
    resident_result setup_seed m n k job_key f grown =
        if f.found == 0 then (grown, none) else elim (tile_hit f.hits) [
          | none ↦ (grown, none)
          | some hit ↦
              let a_sig = regenerate setup_seed 0 m k grown.a_sig in
              let b_sig = regenerate setup_seed 1 n k grown.b_sig in
              (
                record grown { a_sig = a_sig; b_sig = b_sig },
                some (
                    make_proof o (take (m * k) a_sig) (take (n * k) b_sig) m n k config.rank job_key
                      hit.rows hit.cols),
              )
        ]

    unfoldable pub try_mine_one_bounded_gpu_resident :
        (ℕ → (m n k : ℕ) (job_key bound_le : List ℕ) → ℕ → Found)
        → (m n k : ℕ) → List ℕ
        → ℕ
        → Workspace
        → Workspace × Option (PlainProof o)
    try_mine_one_bounded_gpu_resident grind m n k bound_le setup_seed ws =
        let grown = ensure m n k ws in
        let job_key = compute_job_key o header config.bytes in
        resident_result setup_seed m n k job_key (grind setup_seed m n k job_key bound_le 64) grown

    unfoldable pub try_mine_one_bounded_gpu_resident_ctx :
        ResidentCtx → List ℕ → ℕ → Workspace → Workspace × Option (PlainProof o)
    try_mine_one_bounded_gpu_resident_ctx ctx bound_le setup_seed ws =
        let grown = ensure ctx.m ctx.n ctx.k ws in
        let job_key = compute_job_key o header config.bytes in
        resident_result setup_seed ctx.m ctx.n ctx.k job_key
          (ctx_grind ctx setup_seed job_key bound_le) grown

    unfoldable pub grind_only_ctx : ResidentCtx → List ℕ → ℕ → Option GrindHit
    grind_only_ctx ctx bound_le setup_seed =
        let job_key = compute_job_key o header config.bytes in
        let f = ctx_grind ctx setup_seed job_key bound_le in
        if f.found == 0 then none else elim (tile_hit f.hits) [
          | none ↦ none
          | some hit ↦ some (record { setup_seed = setup_seed; hit = hit; job_key = job_key })
        ]

    -- The signal of the hybrid attempts.
    unfoldable pub fill : (a_seed b_seed : ℕ) → (m n k : ℕ) → Workspace → Workspace
    fill a_seed b_seed m n k ws = record ws {
      a_sig = copy_at ws.a_sig 0 (fast_fill_signal a_seed (m * k));
      b_sig = copy_at ws.b_sig 0 (fast_fill_signal b_seed (n * k));
    }

    -- The hybrid attempt, by the grind that it calls.
    unfoldable pub try_mine_one_bounded_gpu :
        Cpu
        → ((a_eff b_eff : List ℕ) → (m n k : ℕ) (pow_key pow_bound : List ℕ) → ℕ → Outcome Found)
        → (m n k : ℕ) → List ℕ
        → (a_seed b_seed : ℕ) → Workspace
        → Outcome (Workspace × Option (PlainProof o))
    try_mine_one_bounded_gpu cpu grind m n k bound_le a_seed b_seed ws = do
      let p = commit o cpu header config m n k (fill a_seed b_seed m n k (ensure m n k ws))
      f ← grind p.a_noised p.b_noised_t m n k (le_u32x8 p.a_noise_seed) (le_u32x8 bound_le) 64
      elim (tile_hit f.hits) [
        | none ↦ ok (p.ws, none)
        | some h ↦
            ok (p.ws, some (make_proof o p.a_sig p.b_sig m n k config.rank p.job_key h.rows h.cols))
      ]

    -- The attempt on tiles of two rows and 64 columns differs in the grind alone.
    unfoldable pub try_mine_one_bounded_gpu_2x64 :
        Cpu
        → Kernel
        → (m n k : ℕ) → List ℕ
        → (a_seed b_seed : ℕ) → Workspace
        → Outcome (Workspace × Option (PlainProof o))
    try_mine_one_bounded_gpu_2x64 cpu kernel = try_mine_one_bounded_gpu cpu (grind_2x64 kernel)

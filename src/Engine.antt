-- ===== src/Engine.antt =====
-- `grind_thread` of src/cpu_engine.rs: the batches of one thread and the sweep over their tiles. The
-- hash of `blake3`, the random bytes, the noise generators of `zk_pow` and what each read of the
-- stop flag finds are parameters. The kernels write the tile buffer before they read it, so it is
-- handed to them and not threaded on.
pub mod Sweep
pub mod Attempts
pub mod Hits
pub mod Tested
pub mod Tiles
use mathlib.Core.List.{flat_map}
use Prim.Native.Nat.{bit_and, bit_or}
use aria_t.Base.{
  ℕ, zero, suc, ◌+◌, ◌-◌, ◌*◌, ◌/◌, ◌%◌, max, min, List, [], ◌∷◌, ◌++◌, map, length, get_or,
}
use aria_t.Base.{
  Bool, true, false, not, ◌&&◌, ◌||◌, ◌==◌, ltb, leb, if◌then◌else◌, Option, none, some, resize,
}
use aria_t.Base.Words.{u64, to_le_bytes}
use aria_t.Base.Texts.{Text}
use aria_t.Cpu.{Cpu}
use aria_t.Target.Compare.{slice_lt}
use aria_t.Jackpot.Flat.{upto}
use aria_t.Jackpot.Tile.{jackpot_tile_flat}
use aria_t.Microkernel.{
  micro_kernel_applicable, micro_kernel_avxvnni_applicable, pack_b_16, pack_b_8,
}
use aria_t.Microkernel.Tile2.{jackpot_tile_2x64_avx512}
use aria_t.Microkernel.Tile8.{jackpot_tile_8x64_avx512, jackpot_tile_8x64_avxvnni}
use aria_t.Noise.{MmSlice, add_noise_into_fast}
use aria_t.Engine.Sweep.{Run, read_stop, sweep}

pub record JobSpec : Type 0 where
  pub job_id : Text
  pub k : ℕ
  pub r : ℕ
  pub h : ℕ
  pub w : ℕ
  pub job_key : List ℕ
  pub target : List ℕ
  pub share_target : List ℕ

-- `*c = if raw & 0x40 != 0 { raw | -0x40 } else { raw }`
unfoldable pub draw_int7 : ℕ → ℕ
draw_int7 c =
    let raw = bit_and c 0x7f in if not (bit_and raw 0x40 == 0) then bit_or raw 0xc0 else raw

-- What a kernel returned; the theorems on the kernels show that one always does.
unfoldable pub messages {ℓ} : {A : Type ℓ} → Option (List A) → List A
messages none = []
messages (some msgs) = msgs

-- The buffers that the setups share.
pub record Buffers : Type 0 where
  pub b_packed : List ℕ
  pub jackpot : List ℕ

-- What one round of the outer loop takes from outside: the job adopted and the random bytes.
pub record Setup : Type 0 where
  pub job : JobSpec
  pub a_bytes : List ℕ
  pub b_bytes : List ℕ

pub record Grind : Type 0 where
  pub buffers : Buffers
  pub run : Run

-- `hash_a`, `hash_b`, `b_seed` and `a_seed`; the result is `(b_seed, a_seed)`.
unfoldable pub batch_seeds : (List ℕ → List ℕ) → (job_key a b : List ℕ) → List ℕ × List ℕ
batch_seeds blake3 job_key a b =
    let hash_a = blake3 (job_key ++ a) in
    let hash_b = blake3 (job_key ++ b) in
    let b_seed = blake3 (job_key ++ hash_b) in
    let a_seed = blake3 (b_seed ++ hash_a) in (b_seed, a_seed)

module _ (blake3 : List ℕ → List ℕ) (keyed_hash : List ℕ → List ℕ → List ℕ)
    (generate_uniform_random_matrix : (label seed indices : List ℕ) → ℕ → List (List ℕ))
    (generate_permutation_matrix : (label seed : List ℕ) → ℕ → ℕ → List (ℕ × ℕ))
    (compute_noise_for_indices : ℕ → ℕ → List ℕ × List ℕ → List ℕ → List ℕ → MmSlice) (cpu : Cpu)
    (stop : ℕ → Bool) (m_batch n_batch panel_rg k r : ℕ) where
  -- The messages of four tiles from row group `rg` on, and of one tile.
  module _ (use_micro512 : Bool) (a b b_packed jackpot : List ℕ) (h w : ℕ) where
    unfoldable pub four_tiles : ℕ → ℕ → List (List ℕ)
    four_tiles rg cg =
        if use_micro512
        then messages (jackpot_tile_8x64_avx512 a b_packed (rg * h) (cg * (w / 16)) k r jackpot)
        else messages (jackpot_tile_8x64_avxvnni a b_packed (rg * h) (cg * (w / 8)) k r jackpot)

    unfoldable pub one_tile : ℕ → ℕ → List ℕ
    one_tile rg cg =
        let a_idx = map (λ u. rg * h + u) (upto 0 h) in
        let b_idx = map (λ v. cg * w + v) (upto 0 w) in
        if use_micro512
        then messages (
            jackpot_tile_2x64_avx512 a b_packed (get_or a_idx 0 0) (get_or a_idx 1 0)
              (cg * (w / 16)) k r jackpot)
        else messages (jackpot_tile_flat cpu a b a_idx b_idx k r jackpot)

  -- The body of the outer loop.
  unfoldable pub grind_setup : Setup → Grind → Grind
  grind_setup setup g =
      let job = setup.job in
      let h = max job.h 1 in
      let w = max job.w 1 in
      let jp_need = max (h * w) 512 in
      let jackpot =
        if ltb (length g.buffers.jackpot) jp_need
        then resize jp_need g.buffers.jackpot
        else g.buffers.jackpot in
      let a_drawn = map draw_int7 setup.a_bytes in
      let b_drawn = map draw_int7 setup.b_bytes in
      let seeds = batch_seeds blake3 job.job_key a_drawn b_drawn in
      let noised =
        add_noise_into_fast generate_uniform_random_matrix generate_permutation_matrix
          compute_noise_for_indices cpu k r seeds (upto 0 m_batch) (upto 0 n_batch) a_drawn
          b_drawn in
      let use_micro512 = micro_kernel_applicable cpu h w n_batch in
      let use_micro_vnni = not use_micro512 && micro_kernel_avxvnni_applicable cpu h w n_batch in
      let b_packed =
        if use_micro512
        then pack_b_16 noised.1 n_batch k g.buffers.b_packed
        else if use_micro_vnni
        then pack_b_8 noised.1 n_batch k g.buffers.b_packed
        else g.buffers.b_packed in
      record {
        buffers = record { b_packed = b_packed; jackpot = jackpot };
        run =
            sweep keyed_hash seeds.1 job.target job.share_target job.job_id stop
              (use_micro512 || use_micro_vnni)
              (four_tiles use_micro512 noised.0 noised.1 b_packed jackpot h w)
              (one_tile use_micro512 noised.0 noised.1 b_packed jackpot h w) (m_batch / h)
              (n_batch / w) panel_rg g.run;
      }

  -- `while !stop`, for the setups that the outside has to offer.
  unfoldable pub grind_loop : List Setup → Grind → Grind
  grind_loop [] g = g
  grind_loop (setup ∷ setups) g =
      let read : Grind = record { buffers = g.buffers; run = read_stop g.run } in
      let rest = grind_loop setups (grind_setup setup read) in
      if stop g.run.reads then read else rest

  unfoldable pub grind_thread : List Setup → Grind
  grind_thread setups = grind_loop setups (record {
    buffers = record { b_packed = []; jackpot = [] };
    run = record { reads = 0; local = 0; attempts = 0; hits = [] };
  })

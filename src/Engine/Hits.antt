-- ===== src/Engine/Hits.antt =====
-- The hits that `grind_thread` (src/cpu_engine.rs) reports.
use Prim.Native.Nat.{bit_and}
use mathlib.Core.List.{flat_map}
use aria_t.Base.{ℕ, zero, suc, ◌+◌, min, ◌≡◌, refl, ◌⊎◌, inl, inr}
use aria_t.Base.{
  List, [], ◌∷◌, All, All-append, Bool, true, false, ◌==◌, ltb, leb, Bool-cases, if◌then◌else◌,
}
use aria_t.Base.Words.{to_le_bytes}
use aria_t.Base.Texts.{Text}
use aria_t.Cpu.{Cpu}
use aria_t.Target.Compare.{slice_lt}
use aria_t.Noise.{MmSlice}
use aria_t.Engine.{JobSpec, Setup, Grind, grind_setup, grind_loop, grind_thread}
use aria_t.Engine.Sweep.{
  Run, Cursor, Hit, read_stop, publish, test_message, emit_all, micro_rows, single_rows,
  panel_column, panel_columns, panels, sweep,
}

pick {ℓ κ} : {A : Type ℓ} (P : A → Type κ) (b : Bool) (x y : A) → P x → P y → P (if b then x else y)
pick P true x y h k = h
pick P false x y h k = k

module _ (keyed_hash : List ℕ → List ℕ → List ℕ) (a_seed target share_target : List ℕ)
    (job_id : Text) (P : Hit → Type 0)
    (won : (hash : List ℕ)
      → slice_lt hash share_target ≡ true
      → P (record { hash = hash; is_block = slice_lt hash target; job_id = job_id })) where
  test_message-hits :
      (msg : List ℕ) (s : Run)
      → All P s.hits
      → All P (test_message keyed_hash a_seed target share_target job_id msg s).hits
  unfolding test_message
  test_message-hits msg s h =
      let hash = keyed_hash a_seed (flat_map (to_le_bytes 4) msg) in
      elim (Bool-cases (slice_lt hash share_target)) [
        | inl below ↦ rw below (All-append P s.hits _ h (won hash below, tt))
        | inr above ↦ rw above h
      ]

  emit_all-hits :
      (msgs : List (List ℕ)) (s : Run)
      → All P s.hits
      → All P (emit_all keyed_hash a_seed target share_target job_id msgs s).hits
  unfolding emit_all
  emit_all-hits [] s h = h
  emit_all-hits (msg ∷ msgs) s h =
      emit_all-hits msgs (test_message keyed_hash a_seed target share_target job_id msg s)
        (test_message-hits msg s h)

  module _ (stop : ℕ → Bool) (use_micro : Bool) (four : ℕ → ℕ → List (List ℕ))
      (single : ℕ → ℕ → List ℕ) (row_groups col_groups panel_rg : ℕ) where
    micro_rows-hits :
        (fuel panel_end cg rg : ℕ) (s : Run)
        → All P s.hits
        → All P
            (micro_rows keyed_hash a_seed target share_target job_id stop use_micro four single
              row_groups col_groups panel_rg fuel panel_end cg rg s).run.hits
    unfolding micro_rows read_stop
    micro_rows-hits zero panel_end cg rg s h = h
    micro_rows-hits (suc fuel) panel_end cg rg s h =
        let s' = emit_all keyed_hash a_seed target share_target job_id (four rg cg) s in
        let h' = emit_all-hits (four rg cg) s h in
        let rest = micro_rows-hits fuel panel_end cg (rg + 4) (read_stop s') h' in
        pick (λ (c : Cursor). All P c.run.hits) (leb (rg + 4) panel_end) _ _
          (pick (λ (c : Cursor). All P c.run.hits) (stop s'.reads) _ _ h' rest) h

    single_rows-hits :
        (fuel panel_end cg rg : ℕ) (s : Run)
        → All P s.hits
        → All P
            (single_rows keyed_hash a_seed target share_target job_id stop use_micro four single
              row_groups col_groups panel_rg fuel panel_end cg rg s).hits
    unfolding single_rows read_stop
    single_rows-hits zero panel_end cg rg s h = h
    single_rows-hits (suc fuel) panel_end cg rg s h =
        let s' = test_message keyed_hash a_seed target share_target job_id (single rg cg) s in
        let h' = test_message-hits (single rg cg) s h in
        let rest = single_rows-hits fuel panel_end cg (rg + 1) s' h' in
        let rest' = single_rows-hits fuel panel_end cg (rg + 1) (read_stop s') h' in
        pick (λ (c : Run). All P c.hits) (ltb rg panel_end) _ _
          (pick (λ (c : Run). All P c.hits) (bit_and (rg + 1) 0x7f == 0) _ _
            (pick (λ (c : Run). All P c.hits) (stop s'.reads) _ _ h' rest') rest)
          h

    panel_column-hits :
        (panel_start panel_end cg : ℕ) (s : Run)
        → All P s.hits
        → All P
            (panel_column keyed_hash a_seed target share_target job_id stop use_micro four single
              row_groups col_groups panel_rg panel_start panel_end cg s).hits
    unfolding panel_column publish
    panel_column-hits panel_start panel_end cg s h = single_rows-hits panel_end panel_end cg _ _ (
        pick (λ (c : Cursor). All P c.run.hits) use_micro _ _
          (micro_rows-hits panel_end panel_end cg panel_start s h) h)

    panel_columns-hits :
        (n panel_start panel_end cg : ℕ) (s : Run)
        → All P s.hits
        → All P
            (panel_columns keyed_hash a_seed target share_target job_id stop use_micro four single
              row_groups col_groups panel_rg n panel_start panel_end cg s).hits
    unfolding panel_columns read_stop
    panel_columns-hits zero panel_start panel_end cg s h = h
    panel_columns-hits (suc n) panel_start panel_end cg s h =
        let s' =
          panel_column keyed_hash a_seed target share_target job_id stop use_micro four single
            row_groups col_groups panel_rg panel_start panel_end cg s in
        let h' = panel_column-hits panel_start panel_end cg s h in
        let rest = panel_columns-hits n panel_start panel_end (cg + 1) (read_stop s') h' in
        pick (λ (c : Run). All P c.hits) (stop s'.reads) _ _ h' rest

    panels-hits :
        (fuel panel_start : ℕ) (s : Run)
        → All P s.hits
        → All P
            (panels keyed_hash a_seed target share_target job_id stop use_micro four single
              row_groups col_groups panel_rg fuel panel_start s).hits
    unfolding panels read_stop
    panels-hits zero panel_start s h = h
    panels-hits (suc fuel) panel_start s h =
        let panel_end = min (panel_start + panel_rg) row_groups in
        let s' =
          panel_columns keyed_hash a_seed target share_target job_id stop use_micro four single
            row_groups col_groups panel_rg col_groups panel_start panel_end 0 s in
        let h' = panel_columns-hits col_groups panel_start panel_end 0 s h in
        let rest = panels-hits fuel (panel_start + panel_rg) (read_stop s') h' in
        pick (λ (c : Run). All P c.hits) (ltb panel_start row_groups) _ _
          (pick (λ (c : Run). All P c.hits) (stop s'.reads) _ _ h' rest) h

    sweep-hits :
        (s : Run)
        → All P s.hits
        → All P
            (sweep keyed_hash a_seed target share_target job_id stop use_micro four single
              row_groups col_groups panel_rg s).hits
    unfolding sweep publish
    sweep-hits s h = panels-hits row_groups 0 s h

-- A hit for a job: its hash is below the share target, and the flag says whether it is below the
-- block target.
unfoldable pub IsShare : JobSpec → Hit → Type 0
IsShare job hit =
    (slice_lt hit.hash job.share_target ≡ true)
    × (hit.is_block ≡ slice_lt hit.hash job.target)
    × (hit.job_id ≡ job.job_id)

-- A hit for one of the jobs adopted.
unfoldable pub IsWon : List Setup → Hit → Type 0
IsWon [] hit = ⊥
IsWon (setup ∷ setups) hit = (IsShare setup.job hit) ⊎ (IsWon setups hit)

module _ (blake3 : List ℕ → List ℕ) (keyed_hash : List ℕ → List ℕ → List ℕ)
    (uniform : (label seed indices : List ℕ) → ℕ → List (List ℕ))
    (perm : (label seed : List ℕ) → ℕ → ℕ → List (ℕ × ℕ))
    (noise : ℕ → ℕ → List ℕ × List ℕ → List ℕ → List ℕ → MmSlice) (cpu : Cpu) (stop : ℕ → Bool)
    (m_batch n_batch panel_rg k r : ℕ) where
  grind_loop-hits :
      (P : Hit → Type 0) (setups : List Setup) (g : Grind)
      → ((hit : Hit) → IsWon setups hit → P hit)
      → All P g.run.hits
      → All P
          (grind_loop blake3 keyed_hash uniform perm noise cpu stop m_batch n_batch panel_rg k r
            setups g).run.hits
  unfolding grind_loop grind_setup IsWon IsShare read_stop
  grind_loop-hits P [] g won h = h
  grind_loop-hits P (setup ∷ setups) g won h =
      pick (λ (c : Grind). All P c.run.hits) (stop g.run.reads) _ _ h
        (grind_loop-hits P setups _ (λ hit later. won hit (inr later))
          (sweep-hits keyed_hash _ setup.job.target setup.job.share_target setup.job.job_id P
            (λ hash below. won _ (inl (below, refl, refl))) stop _ _ _ _ _ panel_rg _ h))

  -- Whatever the random bytes, the hashes, the noise, the host and the reads of the stop flag, every
  -- hit that the thread reports is for a job that it adopted, with a hash below that job's share
  -- target, and it is flagged as a block exactly if the hash is below the job's target.
  pub grind_thread-IsWon :
      (setups : List Setup)
      → All
          (IsWon setups)
          (grind_thread blake3 keyed_hash uniform perm noise cpu stop m_batch n_batch panel_rg k r
            setups).run.hits
  unfolding grind_thread
  grind_thread-IsWon setups = grind_loop-hits (IsWon setups) setups _ (λ hit h. h) tt

-- ===== src/Engine/Sweep.antt =====
-- The tile sweep of `grind_thread` (src/cpu_engine.rs), for any functions that give the messages of
-- four tiles at once and of one tile. `stop n` is what the `n`-th read of the stop flag finds.
use mathlib.Core.List.{flat_map}
use Prim.Native.Nat.{bit_and}
use aria_t.Base.{ℕ, zero, suc, ◌+◌, min, List, [], ◌∷◌, ◌++◌}
use aria_t.Base.{Bool, ◌==◌, ltb, leb, if◌then◌else◌}
use aria_t.Base.Words.{u64, to_le_bytes}
use aria_t.Base.Texts.{Text}
use aria_t.Target.Compare.{slice_lt}

pub record Hit : Type 0 where
  pub hash : List ℕ
  pub is_block : Bool
  pub job_id : Text

-- The reads of the stop flag so far, the two counters of attempts, and the hits reported.
pub record Run : Type 0 where
  pub reads : ℕ
  pub local : ℕ
  pub attempts : ℕ
  pub hits : List Hit

-- The row group that a loop reached.
pub record Cursor : Type 0 where
  pub rg : ℕ
  pub run : Run

unfoldable pub read_stop : Run → Run
read_stop s = record { reads = s.reads + 1; local = s.local; attempts = s.attempts; hits = s.hits }

-- `attempts_ctr.fetch_add(local, Ordering::Relaxed); local = 0;`
unfoldable pub publish : Run → Run
publish s = record {
  reads = s.reads;
  local = 0;
  attempts = u64 (s.attempts + s.local);
  hits = s.hits;
}

-- The message as bytes, its hash, and the two targets.
module _ (keyed_hash : List ℕ → List ℕ → List ℕ) (a_seed target share_target : List ℕ)
    (job_id : Text) where
  unfoldable pub test_message : List ℕ → Run → Run
  test_message msg s =
      let hash = keyed_hash a_seed (flat_map (to_le_bytes 4) msg) in
      let hit : Hit = record { hash = hash; is_block = slice_lt hash target; job_id = job_id } in
      record {
        reads = s.reads;
        local = u64 (s.local + 1);
        attempts = s.attempts;
        hits = if slice_lt hash share_target then s.hits ++ hit ∷ [] else s.hits;
      }

  -- `emit4`
  unfoldable pub emit_all : List (List ℕ) → Run → Run
  emit_all [] s = s
  emit_all (msg ∷ msgs) s = emit_all msgs (test_message msg s)

  module _ (stop : ℕ → Bool) (use_micro : Bool) (four : ℕ → ℕ → List (List ℕ))
      (single : ℕ → ℕ → List ℕ) (row_groups col_groups panel_rg : ℕ) where
    -- `while rg + 4 <= panel_end`
    unfoldable pub micro_rows : ℕ → ℕ → ℕ → ℕ → Run → Cursor
    micro_rows zero panel_end cg rg s = record { rg = rg; run = s }
    micro_rows (suc fuel) panel_end cg rg s =
        let s' = emit_all (four rg cg) s in
        let rest = micro_rows fuel panel_end cg (rg + 4) (read_stop s') in
        if leb (rg + 4) panel_end
        then if stop s'.reads then record { rg = rg + 4; run = read_stop s' } else rest
        else record { rg = rg; run = s }

    -- `while rg < panel_end`; the flag is read at every 128th row group.
    unfoldable pub single_rows : ℕ → ℕ → ℕ → ℕ → Run → Run
    single_rows zero panel_end cg rg s = s
    single_rows (suc fuel) panel_end cg rg s =
        let s' = test_message (single rg cg) s in
        let rest = single_rows fuel panel_end cg (rg + 1) s' in
        let rest' = single_rows fuel panel_end cg (rg + 1) (read_stop s') in
        if ltb rg panel_end
        then if bit_and (rg + 1) 0x7f == 0
          then if stop s'.reads then read_stop s' else rest'
          else rest
        else s

    -- One column group of a panel.
    unfoldable pub panel_column : ℕ → ℕ → ℕ → Run → Run
    panel_column panel_start panel_end cg s =
        let skipped : Cursor = record { rg = panel_start; run = s } in
        let c = if use_micro then micro_rows panel_end panel_end cg panel_start s else skipped in
        publish (single_rows panel_end panel_end cg c.rg c.run)

    -- `for cg in 0..col_groups`, with the column groups left.
    unfoldable pub panel_columns : ℕ → ℕ → ℕ → ℕ → Run → Run
    panel_columns zero panel_start panel_end cg s = s
    panel_columns (suc n) panel_start panel_end cg s =
        let s' = panel_column panel_start panel_end cg s in
        let rest = panel_columns n panel_start panel_end (cg + 1) (read_stop s') in
        if stop s'.reads then read_stop s' else rest

    -- `while panel_start < row_groups`
    unfoldable pub panels : ℕ → ℕ → Run → Run
    panels zero panel_start s = s
    panels (suc fuel) panel_start s =
        let s' =
          panel_columns col_groups panel_start (min (panel_start + panel_rg) row_groups) 0 s in
        let rest = panels fuel (panel_start + panel_rg) (read_stop s') in
        if ltb panel_start row_groups then if stop s'.reads then read_stop s' else rest else s

    unfoldable pub sweep : Run → Run
    sweep s = publish (panels row_groups 0 s)

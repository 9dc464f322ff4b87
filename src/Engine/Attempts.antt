-- ===== src/Engine/Attempts.antt =====
-- The sweep of `grind_thread` (src/cpu_engine.rs) counts as many attempts as the batch has tiles.
use aria_t.Base.{ℕ, zero, suc, ◌+◌, ◌*◌, ◌≤◌, ◌<◌, min, ◌≡◌, refl, arith}
use aria_t.Base.{
  List, [], ◌∷◌, length, Bool, true, false, ◌==◌, ltb, leb, Bool-cases, inl, inr, ltb→lt, ltb→ge,
  leb→le, if◌then◌else◌,
}
use aria_t.Base.Words.{u64}
use aria_t.Base.Texts.{Text}
use aria_t.Engine.Sweep.{
  Run, Cursor, read_stop, publish, test_message, emit_all, micro_rows, single_rows, panel_column,
  panel_columns, panels, sweep,
}
use Prim.Native.Nat.{bit_and}

-- The attempts, published or not.
total : Run → ℕ
total s = s.attempts + s.local

total-read_stop : (s : Run) → total (read_stop s) ≡ total s
unfolding total read_stop
total-read_stop s = refl

total-publish : (s : Run) → u64 (total (publish s)) ≡ u64 (total s)
unfolding total publish
total-publish s = omega arith

module _ (keyed_hash : List ℕ → List ℕ → List ℕ) (a_seed target share_target : List ℕ)
    (job_id : Text) where
  emit_all-total :
      (msgs : List (List ℕ)) (s : Run)
      → u64 (total (emit_all keyed_hash a_seed target share_target job_id msgs s))
        ≡ u64 (total s + length msgs)
  unfolding emit_all test_message total
  emit_all-total [] s = omega arith
  emit_all-total (msg ∷ msgs) s =
      omega (
        arith,
        emit_all-total msgs (test_message keyed_hash a_seed target share_target job_id msg s),
      )

  module _ (stop : ℕ → Bool) (running : (n : ℕ) → stop n ≡ false) (use_micro : Bool)
      (four : ℕ → ℕ → List (List ℕ)) (four_each : (rg cg : ℕ) → length (four rg cg) ≡ 4)
      (single : ℕ → ℕ → List ℕ) (row_groups col_groups panel_rg : ℕ) (pos : 0 < panel_rg) where
    -- No row group is passed over, and each is counted.
    Counts : ℕ → ℕ → Run → Cursor → Type 0
    Counts rg panel_end s c =
        (u64 (total c.run + rg) ≡ u64 (total s + c.rg)) × (rg ≤ c.rg) × (c.rg ≤ panel_end)

    micro_rows-Counts :
        (fuel panel_end cg rg : ℕ) (s : Run)
        → rg ≤ panel_end
        → Counts rg panel_end s (
            micro_rows keyed_hash a_seed target share_target job_id stop use_micro four single
              row_groups col_groups panel_rg fuel panel_end cg rg s)
    unfolding Counts micro_rows
    micro_rows-Counts zero panel_end cg rg s h = (refl, omega arith, h)
    micro_rows-Counts (suc fuel) panel_end cg rg s h =
        let s' = emit_all keyed_hash a_seed target share_target job_id (four rg cg) s in
        elim (Bool-cases (leb (rg + 4) panel_end)) [
          | inr few ↦ rw few (refl, omega arith, h)
          | inl more ↦
              let room = leb→le (rg + 4) panel_end more in
              let rest = micro_rows-Counts fuel panel_end cg (rg + 4) (read_stop s') room in
              let one : u64 (total (read_stop s')) ≡ u64 (total s + 4) =
                omega (arith, total-read_stop s', emit_all-total (four rg cg) s, four_each rg cg) in
              rw (more, running s'.reads)
                (omega (arith, rest.0, one), omega (arith, rest.1), rest.2)
        ]

    single_rows-total :
        (fuel panel_end cg rg : ℕ) (s : Run)
        → rg ≤ panel_end
        → panel_end ≤ rg + fuel
        → u64 (
            total (
              single_rows keyed_hash a_seed target share_target job_id stop use_micro four single
                row_groups col_groups panel_rg fuel panel_end cg rg s)
            + rg)
          ≡ u64 (total s + panel_end)
    unfolding single_rows total test_message read_stop
    single_rows-total zero panel_end cg rg s h enough =
        let e : rg ≡ panel_end = omega arith in rw e refl
    single_rows-total (suc fuel) panel_end cg rg s h enough =
        let s' = test_message keyed_hash a_seed target share_target job_id (single rg cg) s in
        elim (Bool-cases (ltb rg panel_end)) [
          | inr all ↦
              let e : rg ≡ panel_end = omega (arith, ltb→ge rg panel_end all) in
              rw all (omega (arith, e))
          | inl more ↦
              let room = ltb→lt rg panel_end more in
              let plain =
                single_rows-total fuel panel_end cg (rg + 1) s' (omega arith) (omega arith) in
              let after_read =
                single_rows-total fuel panel_end cg (rg + 1) (read_stop s') (omega arith)
                  (omega arith) in
              elim (Bool-cases (bit_and (rg + 1) 0x7f == 0)) [
                | inl asked ↦ rw (more, asked, running s.reads) (omega (arith, after_read))
                | inr unasked ↦ rw (more, unasked) (omega (arith, plain))
              ]
        ]

    either-Counts :
        (b : Bool) (rg panel_end : ℕ) (s : Run) (c d : Cursor)
        → Counts rg panel_end s c
        → Counts rg panel_end s d
        → Counts rg panel_end s (if b then c else d)
    either-Counts true rg panel_end s c d h k = h
    either-Counts false rg panel_end s c d h k = k

    panel_column-total :
        (panel_start panel_end cg : ℕ) (s : Run)
        → panel_start ≤ panel_end
        → u64 (
            total (
              panel_column keyed_hash a_seed target share_target job_id stop use_micro four single
                row_groups col_groups panel_rg panel_start panel_end cg s)
            + panel_start)
          ≡ u64 (total s + panel_end)
    unfolding panel_column Counts
    panel_column-total panel_start panel_end cg s h =
        let skipped : Cursor = record { rg = panel_start; run = s } in
        let fast =
          micro_rows keyed_hash a_seed target share_target job_id stop use_micro four single
            row_groups col_groups panel_rg panel_end panel_end cg panel_start s in
        let c = if use_micro then fast else skipped in
        let counts : Counts panel_start panel_end s c =
          either-Counts use_micro panel_start panel_end s fast skipped
            (micro_rows-Counts panel_end panel_end cg panel_start s h) (refl, omega arith, h) in
        let rest = single_rows-total panel_end panel_end cg c.rg c.run counts.2 (omega arith) in
        let out = total-publish (
          single_rows keyed_hash a_seed target share_target job_id stop use_micro four single
            row_groups col_groups panel_rg panel_end panel_end cg c.rg c.run) in
        omega (arith, counts.0, rest, out)

    panel_columns-total :
        (n panel_start panel_end cg : ℕ) (s : Run)
        → panel_start ≤ panel_end
        → u64 (
            total (
              panel_columns keyed_hash a_seed target share_target job_id stop use_micro four single
                row_groups col_groups panel_rg n panel_start panel_end cg s)
            + n * panel_start)
          ≡ u64 (total s + n * panel_end)
    unfolding panel_columns
    panel_columns-total zero panel_start panel_end cg s h =
        let z : 0 * panel_start ≡ 0 * panel_end = omega arith in rw z refl
    panel_columns-total (suc n) panel_start panel_end cg s h =
        let s' =
          panel_column keyed_hash a_seed target share_target job_id stop use_micro four single
            row_groups col_groups panel_rg panel_start panel_end cg s in
        let rest = panel_columns-total n panel_start panel_end (cg + 1) (read_stop s') h in
        let one = panel_column-total panel_start panel_end cg s h in
        rw (running s'.reads) (omega (arith, rest, one, total-read_stop s'))

    panels-total :
        (fuel panel_start : ℕ) (s : Run)
        → row_groups ≤ panel_start + fuel
        → u64 (
            total (
              panels keyed_hash a_seed target share_target job_id stop use_micro four single
                row_groups col_groups panel_rg fuel panel_start s)
            + min panel_start row_groups * col_groups)
          ≡ u64 (total s + row_groups * col_groups)
    unfolding panels
    panels-total zero panel_start s enough =
        let e : min panel_start row_groups ≡ row_groups = omega arith in rw e refl
    panels-total (suc fuel) panel_start s enough =
        let panel_end = min (panel_start + panel_rg) row_groups in
        let s' =
          panel_columns keyed_hash a_seed target share_target job_id stop use_micro four single
            row_groups col_groups panel_rg col_groups panel_start panel_end 0 s in
        elim (Bool-cases (ltb panel_start row_groups)) [
          | inr all ↦
              let past = ltb→ge panel_start row_groups all in
              let e : min panel_start row_groups ≡ row_groups = omega (arith, past) in
              rw (all, e) refl
          | inl more ↦
              let room = ltb→lt panel_start row_groups more in
              let e : min panel_start row_groups ≡ panel_start = omega (arith, room) in
              let one =
                panel_columns-total col_groups panel_start panel_end 0 s (omega (arith, room)) in
              let rest = panels-total fuel (panel_start + panel_rg) (read_stop s') (omega arith) in
              rw (more, running s'.reads, e) (omega (arith, one, rest, total-read_stop s'))
        ]

    -- If the stop flag is never found set, panels have a positive size and four tiles give four
    -- messages, then the sweep publishes as many attempts as the batch has row groups times column
    -- groups, modulo 2^64, on top of what was counted before, whatever the size of a panel and
    -- whether four tiles are taken at once or not, and it leaves none unpublished.
    pub sweep-attempts :
        (s : Run)
        → ((sweep keyed_hash a_seed target share_target job_id stop use_micro four single row_groups
              col_groups panel_rg s).attempts
            ≡ u64 (s.attempts + s.local + row_groups * col_groups))
          × ((sweep keyed_hash a_seed target share_target job_id stop use_micro four single
                row_groups col_groups panel_rg s).local
              ≡ 0)
    unfolding sweep publish total
    sweep-attempts s =
        let all = panels-total row_groups 0 s (omega arith) in
        let none : min 0 row_groups ≡ 0 = omega arith in
        let end =
          panels keyed_hash a_seed target share_target job_id stop use_micro four single row_groups
            col_groups panel_rg row_groups 0 s in
        let before : total s ≡ s.attempts + s.local = refl in
        let after : total end ≡ end.attempts + end.local = refl in
        let sums : u64 (total end + 0 * col_groups) ≡ u64 (total s + row_groups * col_groups) =
          rw none at all in
        (omega (arith, sums, before, after), refl)

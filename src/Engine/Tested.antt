-- ===== src/Engine/Tested.antt =====
-- The sweep of `grind_thread` (src/cpu_engine.rs) tests each tile of the batch once.
use Prim.Native.Nat.{bit_and}
use mathlib.Core.List.{flat_map}
use aria_t.Base.{ℕ, zero, suc, ◌+◌, ◌-◌, ◌≤◌, ◌<◌, min, ◌≡◌, refl, arith}
use aria_t.Base.{
  List, [], ◌∷◌, ◌++◌, Bool, true, false, ◌==◌, ltb, leb, Bool-cases, inl, inr, ltb→lt, ltb→ge,
  leb→le, if◌then◌else◌,
}
use aria_t.Base.Words.{to_le_bytes}
use aria_t.Base.Texts.{Text}
use aria_t.Target.Compare.{slice_lt}
use aria_t.Engine.Sweep.{
  Run, Cursor, Hit, read_stop, publish, test_message, emit_all, micro_rows, single_rows,
  panel_column, panel_columns, panels, sweep,
}

-- How many hits pass a test.
unfoldable pub count : (Hit → Bool) → List Hit → ℕ
count q [] = 0
count q (h ∷ hits) = let rest = count q hits in if q h then 1 + rest else rest

count-append : (q : Hit → Bool) (xs ys : List Hit) → count q (xs ++ ys) ≡ count q xs + count q ys
unfolding count
count-append q [] ys = omega arith
count-append q (x ∷ xs) ys = elim (Bool-cases (q x)) [
  | inl e ↦ rw e (omega (arith, count-append q xs ys))
  | inr e ↦ rw e (count-append q xs ys)
]

-- The sum of a value over row groups from `rg` on, over the rows of a panel, and over columns.
module _ (v : ℕ → ℕ → ℕ) where
  unfoldable pub rows_sum : ℕ → ℕ → ℕ → ℕ
  rows_sum zero rg cg = 0
  rows_sum (suc n) rg cg = v rg cg + rows_sum n (rg + 1) cg

  unfoldable pub grid_sum : ℕ → ℕ → ℕ → ℕ → ℕ
  grid_sum n rg zero cg = 0
  grid_sum n rg (suc cols) cg = rows_sum n rg cg + grid_sum n rg cols (cg + 1)

  rows_sum-split :
      (n n' rg cg : ℕ) → rows_sum (n + n') rg cg ≡ rows_sum n rg cg + rows_sum n' (rg + n) cg
  unfolding rows_sum
  rows_sum-split zero n' rg cg =
      let a : 0 + n' ≡ n' = omega arith in
      let b : rg + 0 ≡ rg = omega arith in rw (a, b) (omega arith)
  rows_sum-split (suc n) n' rg cg =
      let a : suc n + n' ≡ suc (n + n') = omega arith in
      let b : rg + suc n ≡ rg + 1 + n = omega arith in
      rw (a, b) (omega (arith, rows_sum-split n n' (rg + 1) cg))

  grid_sum-split :
      (n n' rg cols cg : ℕ)
      → grid_sum (n + n') rg cols cg ≡ grid_sum n rg cols cg + grid_sum n' (rg + n) cols cg
  unfolding grid_sum
  grid_sum-split n n' rg zero cg = refl
  grid_sum-split n n' rg (suc cols) cg =
      omega (arith, rows_sum-split n n' rg cg, grid_sum-split n n' rg cols (cg + 1))

  rows_sum-first :
      (rg panel_end cg : ℕ)
      → rg < panel_end
      → rows_sum (panel_end - rg) rg cg ≡ v rg cg + rows_sum (panel_end - (rg + 1)) (rg + 1) cg
  unfolding rows_sum
  rows_sum-first rg panel_end cg h =
      let e : panel_end - rg ≡ suc (panel_end - (rg + 1)) = omega arith in rw e refl

  grid_sum-none : (rg cols cg : ℕ) → grid_sum 0 rg cols cg ≡ 0
  unfolding grid_sum rows_sum
  grid_sum-none rg zero cg = refl
  grid_sum-none rg (suc cols) cg = omega (arith, grid_sum-none rg cols (cg + 1))

module _ (keyed_hash : List ℕ → List ℕ → List ℕ) (a_seed target share_target : List ℕ)
    (job_id : Text) (q : Hit → Bool) where
  -- Whether a message is a share whose hit passes the test.
  unfoldable pub wins : List ℕ → ℕ
  wins msg =
      let hash = keyed_hash a_seed (flat_map (to_le_bytes 4) msg) in
      let hit : Hit = record { hash = hash; is_block = slice_lt hash target; job_id = job_id } in
      if slice_lt hash share_target then if q hit then 1 else 0 else 0

  abbrev found : Run → ℕ
  found s = count q s.hits

  test_message-found :
      (msg : List ℕ) (s : Run)
      → found (test_message keyed_hash a_seed target share_target job_id msg s) ≡ found s + wins msg
  unfolding test_message wins count
  test_message-found msg s =
      let hash = keyed_hash a_seed (flat_map (to_le_bytes 4) msg) in
      let hit : Hit = record { hash = hash; is_block = slice_lt hash target; job_id = job_id } in
      elim (Bool-cases (slice_lt hash share_target)) [
        | inr above ↦ rw above (omega arith)
        | inl below ↦ elim (Bool-cases (q hit)) [
          | inl e ↦ rw (below, count-append q s.hits (hit ∷ []), e) refl
          | inr e ↦ rw (below, count-append q s.hits (hit ∷ []), e) refl
        ]
      ]

  module _ (stop : ℕ → Bool) (running : (n : ℕ) → stop n ≡ false) (use_micro : Bool)
      (four : ℕ → ℕ → List (List ℕ)) (single : ℕ → ℕ → List ℕ)
      (four_each : (rg cg : ℕ)
        → four rg cg
          ≡ single rg cg ∷ single (rg + 1) cg ∷ single (rg + 2) cg ∷ single (rg + 3) cg ∷ [])
      (row_groups col_groups panel_rg : ℕ) (pos : 0 < panel_rg) where
    unfoldable pub value : ℕ → ℕ → ℕ
    value rg cg = wins (single rg cg)

    -- What is left of a column of a panel.
    abbrev left : ℕ → ℕ → ℕ → ℕ
    left rg panel_end cg = rows_sum value (panel_end - rg) rg cg

    four-found :
        (rg cg : ℕ) (s : Run)
        → found (emit_all keyed_hash a_seed target share_target job_id (four rg cg) s)
          ≡ found s + value rg cg + value (rg + 1) cg + value (rg + 2) cg + value (rg + 3) cg
    unfolding emit_all value
    four-found rg cg s =
        let s1 = test_message keyed_hash a_seed target share_target job_id (single rg cg) s in
        let s2 =
          test_message keyed_hash a_seed target share_target job_id (single (rg + 1) cg) s1 in
        let s3 =
          test_message keyed_hash a_seed target share_target job_id (single (rg + 2) cg) s2 in
        rw (four_each rg cg) (
          omega (
            arith,
            test_message-found (single rg cg) s,
            test_message-found (single (rg + 1) cg) s1,
            test_message-found (single (rg + 2) cg) s2,
            test_message-found (single (rg + 3) cg) s3,
          ))

    left-four :
        (rg panel_end cg : ℕ)
        → rg + 4 ≤ panel_end
        → left rg panel_end cg
          ≡ value rg cg
            + value (rg + 1) cg
            + value (rg + 2) cg
            + value (rg + 3) cg
            + left (rg + 4) panel_end cg
    left-four rg panel_end cg h =
        let a : rg + 1 + 1 ≡ rg + 2 = omega arith in
        let b : rg + 2 + 1 ≡ rg + 3 = omega arith in
        let c : rg + 3 + 1 ≡ rg + 4 = omega arith in
        omega (
          arith,
          rows_sum-first value rg panel_end cg (omega arith),
          rw a at (rows_sum-first value (rg + 1) panel_end cg (omega arith)),
          rw b at (rows_sum-first value (rg + 2) panel_end cg (omega arith)),
          rw c at (rows_sum-first value (rg + 3) panel_end cg (omega arith)),
        )

    Tests : ℕ → ℕ → ℕ → Run → Cursor → Type 0
    Tests rg panel_end cg s c =
        (found c.run + left c.rg panel_end cg ≡ found s + left rg panel_end cg)
        × (rg ≤ c.rg)
        × (c.rg ≤ panel_end)

    micro_rows-Tests :
        (fuel panel_end cg rg : ℕ) (s : Run)
        → rg ≤ panel_end
        → Tests rg panel_end cg s (
            micro_rows keyed_hash a_seed target share_target job_id stop use_micro four single
              row_groups col_groups panel_rg fuel panel_end cg rg s)
    unfolding Tests micro_rows read_stop
    micro_rows-Tests zero panel_end cg rg s h = (refl, omega arith, h)
    micro_rows-Tests (suc fuel) panel_end cg rg s h =
        let s' = emit_all keyed_hash a_seed target share_target job_id (four rg cg) s in
        elim (Bool-cases (leb (rg + 4) panel_end)) [
          | inr few ↦ rw few (refl, omega arith, h)
          | inl more ↦
              let room = leb→le (rg + 4) panel_end more in
              let rest = micro_rows-Tests fuel panel_end cg (rg + 4) (read_stop s') room in
              rw (more, running s'.reads)
                (
                  omega (arith, rest.0, four-found rg cg s, left-four rg panel_end cg room),
                  omega (arith, rest.1),
                  rest.2,
                )
        ]

    tested :
        (rg cg : ℕ) (s : Run)
        → found (test_message keyed_hash a_seed target share_target job_id (single rg cg) s)
          ≡ found s + value rg cg
    unfolding value
    tested rg cg s = test_message-found (single rg cg) s

    single_rows-found :
        (fuel panel_end cg rg : ℕ) (s : Run)
        → rg ≤ panel_end
        → panel_end ≤ rg + fuel
        → found (
            single_rows keyed_hash a_seed target share_target job_id stop use_micro four single
              row_groups col_groups panel_rg fuel panel_end cg rg s)
          ≡ found s + left rg panel_end cg
    unfolding single_rows read_stop rows_sum count test_message
    single_rows-found zero panel_end cg rg s h enough =
        let e : panel_end - rg ≡ 0 = omega arith in rw e (omega arith)
    single_rows-found (suc fuel) panel_end cg rg s h enough =
        let s' = test_message keyed_hash a_seed target share_target job_id (single rg cg) s in
        elim (Bool-cases (ltb rg panel_end)) [
          | inr all ↦
              let past = ltb→ge rg panel_end all in
              let e : panel_end - rg ≡ 0 = omega (arith, past) in rw (all, e) (omega arith)
          | inl more ↦
              let room = ltb→lt rg panel_end more in
              let first = rows_sum-first value rg panel_end cg room in
              let one : found s' ≡ found s + value rg cg = tested rg cg s in
              let plain =
                single_rows-found fuel panel_end cg (rg + 1) s' (omega arith) (omega arith) in
              let after_read =
                single_rows-found fuel panel_end cg (rg + 1) (read_stop s') (omega arith)
                  (omega arith) in
              elim (Bool-cases (bit_and (rg + 1) 0x7f == 0)) [
                | inl asked ↦
                    rw (more, asked, running s.reads) (omega (arith, after_read, one, first))
                | inr unasked ↦ rw (more, unasked) (omega (arith, plain, one, first))
              ]
        ]

    either-Tests :
        (b : Bool) (rg panel_end cg : ℕ) (s : Run) (c d : Cursor)
        → Tests rg panel_end cg s c
        → Tests rg panel_end cg s d
        → Tests rg panel_end cg s (if b then c else d)
    either-Tests true rg panel_end cg s c d h k = h
    either-Tests false rg panel_end cg s c d h k = k

    panel_column-found :
        (panel_start panel_end cg : ℕ) (s : Run)
        → panel_start ≤ panel_end
        → found (
            panel_column keyed_hash a_seed target share_target job_id stop use_micro four single
              row_groups col_groups panel_rg panel_start panel_end cg s)
          ≡ found s + left panel_start panel_end cg
    unfolding panel_column Tests publish
    panel_column-found panel_start panel_end cg s h =
        let skipped : Cursor = record { rg = panel_start; run = s } in
        let fast =
          micro_rows keyed_hash a_seed target share_target job_id stop use_micro four single
            row_groups col_groups panel_rg panel_end panel_end cg panel_start s in
        let c = if use_micro then fast else skipped in
        let tests : Tests panel_start panel_end cg s c =
          either-Tests use_micro panel_start panel_end cg s fast skipped
            (micro_rows-Tests panel_end panel_end cg panel_start s h) (refl, omega arith, h) in
        let rest = single_rows-found panel_end panel_end cg c.rg c.run tests.2 (omega arith) in
        omega (arith, tests.0, rest)

    panel_columns-found :
        (n panel_start panel_end cg : ℕ) (s : Run)
        → panel_start ≤ panel_end
        → found (
            panel_columns keyed_hash a_seed target share_target job_id stop use_micro four single
              row_groups col_groups panel_rg n panel_start panel_end cg s)
          ≡ found s + grid_sum value (panel_end - panel_start) panel_start n cg
    unfolding panel_columns grid_sum read_stop
    panel_columns-found zero panel_start panel_end cg s h = omega arith
    panel_columns-found (suc n) panel_start panel_end cg s h =
        let s' =
          panel_column keyed_hash a_seed target share_target job_id stop use_micro four single
            row_groups col_groups panel_rg panel_start panel_end cg s in
        let rest = panel_columns-found n panel_start panel_end (cg + 1) (read_stop s') h in
        let one = panel_column-found panel_start panel_end cg s h in
        rw (running s'.reads) (omega (arith, rest, one))

    -- What is left of the batch.
    abbrev batch : ℕ → ℕ
    batch rg = grid_sum value (row_groups - rg) rg col_groups 0

    -- A panel, and what is left after it.
    panel-batch :
        (rg : ℕ)
        → rg < row_groups
        → batch rg
          ≡ grid_sum value (min (rg + panel_rg) row_groups - rg) rg col_groups 0
            + batch (rg + panel_rg)
    panel-batch rg room = elim (Bool-cases (leb (rg + panel_rg) row_groups)) [
      | inl e ↦
          let fits = leb→le (rg + panel_rg) row_groups e in
          let width : min (rg + panel_rg) row_groups - rg ≡ panel_rg = omega arith in
          let all : row_groups - rg ≡ panel_rg + (row_groups - (rg + panel_rg)) = omega arith in
          rw (width, all)
            (grid_sum-split value panel_rg (row_groups - (rg + panel_rg)) rg col_groups 0)
      | inr e ↦
          let past : row_groups ≤ rg + panel_rg = ground arith in
          let width : min (rg + panel_rg) row_groups ≡ row_groups = omega arith in
          let none : row_groups - (rg + panel_rg) ≡ 0 = omega arith in
          rw (width, none) (omega (arith, grid_sum-none value (rg + panel_rg) col_groups 0))
    ]

    panels-found :
        (fuel panel_start : ℕ) (s : Run)
        → row_groups ≤ panel_start + fuel
        → found (
            panels keyed_hash a_seed target share_target job_id stop use_micro four single
              row_groups col_groups panel_rg fuel panel_start s)
          ≡ found s + batch panel_start
    unfolding panels read_stop
    panels-found zero panel_start s enough =
        let e : row_groups - panel_start ≡ 0 = omega arith in
        rw e (omega (arith, grid_sum-none value panel_start col_groups 0))
    panels-found (suc fuel) panel_start s enough =
        let next = panel_start + panel_rg in
        let panel_end = min next row_groups in
        let s' =
          panel_columns keyed_hash a_seed target share_target job_id stop use_micro four single
            row_groups col_groups panel_rg col_groups panel_start panel_end 0 s in
        elim (Bool-cases (ltb panel_start row_groups)) [
          | inr all ↦
              let past = ltb→ge panel_start row_groups all in
              let e : row_groups - panel_start ≡ 0 = omega (arith, past) in
              rw (all, e) (omega (arith, grid_sum-none value panel_start col_groups 0))
          | inl more ↦
              let room = ltb→lt panel_start row_groups more in
              let one =
                panel_columns-found col_groups panel_start panel_end 0 s (omega (arith, room)) in
              let rest = panels-found fuel next (read_stop s') (omega arith) in
              let split = panel-batch panel_start room in
              rw (more, running s'.reads) (omega (arith, one, rest, split))
        ]

    -- If the stop flag is never found set, panels have a positive size and four tiles at once have the
    -- messages of the tiles one by one, then for every test of a hit the sweep reports as many new hits
    -- that pass it as there are pairs of a row group and a column group of the batch whose message
    -- makes such a hit: each tile is tested, and none twice, in panels of any size and on either path.
    pub sweep-found :
        (s : Run)
        → count q
            (sweep keyed_hash a_seed target share_target job_id stop use_micro four single
              row_groups col_groups panel_rg s).hits
          ≡ count q s.hits + grid_sum value row_groups 0 col_groups 0
    unfolding sweep publish
    sweep-found s =
        let e : row_groups - 0 ≡ row_groups = omega arith in
        rw e at (panels-found row_groups 0 s (omega arith))

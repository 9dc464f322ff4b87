-- ===== src/Tests/Devices.antt =====
-- The theorems on the device's host side (src/gpu_ffi.rs, src/official_grind.rs) and on the telemetry
-- (src/mouchard.rs) at concrete inputs.
use aria_t.Base.{
  ℕ, ◌+◌, ◌*◌, ◌<◌, ◌≡◌, refl, min, List, [], ◌∷◌, ◌++◌, map, replicate, length, get_elem?,
}
use aria_t.Base.{All, true, some, none}
use aria_t.Base.Results.{Outcome, ok, ◌>>=◌}
use aria_t.Base.Words.{u64}
use aria_t.Grind.{ensure, new_workspace}
use aria_t.Grind.Buffers.{ensure-IsReady}
use aria_t.Jackpot.Flat.{upto}
use aria_t.Grind.Attempt.{compute_job_key}
use aria_t.Transcript.Cells.{IsInt7}
use aria_t.Gpu.{Hit, ResidentCtx, int_max_zero, read_hits}
use aria_t.Gpu.Slots.{IsSetOf, read_hits-IsSetOf}
use aria_t.Gpu.Attempts.{fast_fill_signal, try_mine_one_bounded_gpu_resident_ctx, grind_only_ctx}
use aria_t.Gpu.Attempts.Signal.{fast_fill_signal-IsInt7}
use aria_t.Gpu.Attempts.Packaging.{rebuilt, resident_ctx-rebuilt}
use aria_t.Gpu.Proofs.{
  Matrix, ProofGpuCtx, PlainProof, Resident, held, tree_of, matrix_fits, matrix_a, matrix_b,
  build_proof_from_hit_gpu, build_proofs_from_setup_gpu, build_proofs_from_setup_gpu_fixb,
}
use aria_t.Gpu.Proofs.Batches.{
  Contents, Serves, each_hit, proof_only, build_proofs_from_setup_gpu-each_hit,
}
use aria_t.Mouchard.{
  Counter, Op, Call, record_build, record_drop, flush_window, Memory, operations, Mixes, done,
  finished, turn, steps, fresh,
}
use aria_t.Mouchard.Windows.{taken_of, recorded, measured, IsTotal, steps-conserve}
use aria_t.Tests.Grinds.{new_workspace-IsEven, some_official, some_config}

fast_fill_signal-IsInt7_example :
    All IsInt7 (fast_fill_signal 7 11) × (length (fast_fill_signal 7 11) ≡ 11)
fast_fill_signal-IsInt7_example = fast_fill_signal-IsInt7 7 11

-- Two hits counted, room for one: 128 slots of 9 and 4.
abbrev some_rows : List ℕ
some_rows = replicate 64 9 ++ replicate 64 4

read_hits-IsSetOf_example :
    (length (read_hits 2 1 some_rows some_rows).hits ≡ min (int_max_zero 2) 1)
    × ((s : ℕ)
        → s < min (int_max_zero 2) 1
        → (h : Hit) × (get_elem? (read_hits 2 1 some_rows some_rows).hits s ≡ some h)
          × IsSetOf some_rows s h.rows
          × IsSetOf some_rows s h.cols)
read_hits-IsSetOf_example = read_hits-IsSetOf 2 1 some_rows some_rows

-- A device that finds one tile, of rows 0 and 1 and all 64 columns.
abbrev some_ctx : ResidentCtx
some_ctx = record {
  m = 2;
  n = 64;
  k = 4;
  max_hits = 1;
  pearl_resident_grind_ctx = λ seed key bound hr hc. record {
    result = 1;
    rows = replicate 64 1 ++ replicate 64 0;
    cols = upto 0 64 ++ upto 0 64;
  };
  pearl_resident_grind2_ctx =
      λ seed next key bound hr hc. record { result = 0; rows = hr; cols = hc };
}

-- The tile is of the configuration's shape, so both sides of the witness are a proof.
tile_found :
    grind_only_ctx some_official (2 ∷ []) some_config some_ctx (replicate 32 255) 5
    ≡ some (record {
      setup_seed = 5;
      hit = record { rows = 0 ∷ 1 ∷ []; cols = upto 0 64 };
      job_key = compute_job_key some_official (2 ∷ []) (1 ∷ []);
    })
unfolding grind_only_ctx aria_t.Gpu.ctx_grind read_hits aria_t.Gpu.Attempts.find_hit upto
    int_max_zero aria_t.Gpu.read_hit aria_t.Gpu.slots aria_t.Gpu.dedup aria_t.Gpu.sort_unstable
    aria_t.Jackpot.Tile.range aria_t.Gpu.sort_insert aria_t.Gpu.int_as_usize aria_t.Gpu.dedup_from
tile_found = refl

resident_ctx-rebuilt_example :
    (try_mine_one_bounded_gpu_resident_ctx some_official
      (2 ∷ [])
      some_config
      some_ctx
      (replicate 32 255)
      5
      new_workspace).1
    ≡ rebuilt some_official 2 64 4 4
        (ensure 1 1 8 new_workspace)
        (grind_only_ctx some_official (2 ∷ []) some_config some_ctx (replicate 32 255) 5)
resident_ctx-rebuilt_example =
    resident_ctx-rebuilt some_official (2 ∷ []) some_config some_ctx new_workspace
      new_workspace-IsEven (ensure 1 1 8 new_workspace)
      (ensure-IsReady 1 1 8 new_workspace new_workspace-IsEven).even (replicate 32 255) 5

-- Devices whose tree is one leaf of the seed, and whose gather reads what is resident.
abbrev leaf_ctx : ℕ → ProofGpuCtx
leaf_ctx ptr = record {
  ptr = ptr;
  max_rows = 1024;
  k = 1024;
  max_leafdata = 4;
  pearl_proof_build = λ x is data' layers lens. record {
    rc = 0;
    leaf_data = replicate (length is * 1024) (x.seed + x.sel);
    layers = replicate 32 (x.seed + x.sel);
    layer_lens = 1 ∷ [];
    num_layers = 1;
    root = replicate 32 (x.seed + x.sel);
  };
  pearl_proof_build_tree = λ x layers lens. record {
    rc = 0;
    leaf_data = [];
    layers = replicate 32 (x.seed + x.sel);
    layer_lens = 1 ∷ [];
    num_layers = 1;
    root = replicate 32 (x.seed + x.sel);
  };
  pearl_proof_gather = λ held is data'. elim held [
    | none ↦ record { rc = 1; leaf_data = [] }
    | some x ↦ record { rc = 0; leaf_data = replicate (length is * 1024) (x.seed + x.sel) }
  ];
}

abbrev first_leaf : List ℕ → ℕ → ℕ → List ℕ
first_leaf rows m k = 0 ∷ []

abbrev leaf_of : Matrix → Contents
leaf_of x = record {
  chunks = λ is. replicate (length is * 1024) (x.seed + x.sel);
  tree = record {
    layers = replicate 32 (x.seed + x.sel);
    layer_lens = 1 ∷ [];
    root = replicate 32 (x.seed + x.sel);
  };
}

leaf_ctx-Serves :
    (ptr ptr' : ℕ) (x : Matrix)
    → matrix_fits (leaf_ctx ptr) x ≡ true
    → Serves (leaf_ctx ptr') (leaf_ctx ptr) x (leaf_of x)
unfolding tree_of matrix_fits aria_t.Grind.Assemble.sum aria_t.Gpu.int_as_usize
leaf_ctx-Serves ptr ptr' x fits = record {
  fits = fits;
  fits' = fits;
  leaves = refl;
  builds = λ is h. (refl, refl, refl);
  grows = (refl, refl);
  gathers = λ is h. (refl, refl);
}

one_leaf_fits :
    (ptr sel : ℕ)
    → matrix_fits (leaf_ctx ptr) (record { seed = 5; sel = sel; rows = 1; k = 1024; job_key = [] })
      ≡ true
unfolding matrix_fits
one_leaf_fits ptr sel = refl

abbrev two_hits : List Hit
two_hits =
    record { rows = 0 ∷ []; cols = 0 ∷ [] }
    ∷ record { rows = 0 ∷ 1 ∷ []; cols = replicate 64 3 }
    ∷ []

abbrev nothing_held : Resident
nothing_held ptr = none

abbrev one_by_one : ℕ → ℕ → Outcome (List PlainProof)
one_by_one tile_h tile_w =
    each_hit
      (λ hit.
        proof_only
          (build_proof_from_hit_gpu first_leaf [] 1 1 1024 4 (leaf_ctx 3) 5 hit nothing_held))
      tile_h tile_w two_hits

abbrev held_after : Resident
held_after =
    held (leaf_ctx 2) (matrix_b first_leaf [] 1 1 1024 4 5)
      (held (leaf_ctx 1) (matrix_a first_leaf [] 1 1 1024 4 5) nothing_held)

build_proofs_from_setup_gpu-each_hit_example :
    (build_proofs_from_setup_gpu first_leaf [] 1 1 1024 4
        (leaf_ctx 1)
        (leaf_ctx 2)
        5
        two_hits
        nothing_held
      ≡ (one_by_one 2 64 >>= λ proofs. ok (proofs, held_after)))
    × (build_proofs_from_setup_gpu_fixb first_leaf [] 1 1 1024 4
          (leaf_ctx 1)
          (leaf_ctx 2)
          5
          5
          two_hits
          1
          1
          nothing_held
        ≡ (one_by_one 1 1 >>= λ proofs. ok (proofs, held_after)))
build_proofs_from_setup_gpu-each_hit_example =
    build_proofs_from_setup_gpu-each_hit first_leaf [] 1 1 1024 4 (leaf_ctx 3) (leaf_ctx 1)
      (leaf_ctx 2) 5 (leaf_of (matrix_a first_leaf [] 1 1 1024 4 5))
      (leaf_of (matrix_b first_leaf [] 1 1 1024 4 5))
      (leaf_ctx-Serves 1 3 (matrix_a first_leaf [] 1 1 1024 4 5) (one_leaf_fits 1 0))
      (leaf_ctx-Serves 2 3 (matrix_b first_leaf [] 1 1 1024 4 5) (one_leaf_fits 2 1)) refl
      nothing_held two_hits 1 1

-- A build, a drop between its operations, and a flush before its last one.
abbrev some_calls : List (Call ℕ)
some_calls = record_build 3 ∷ record_drop ∷ flush_window ∷ []

abbrev mixed : List Op
mixed =
    Op.fetch_add Counter.builds 1
      ∷ Op.fetch_add Counter.drops 1
      ∷ Op.fetch_add Counter.build_ns 3
      ∷ map Op.swap (
          Counter.setups ∷ Counter.genc_ns ∷ Counter.noise_ns ∷ Counter.grind_ns ∷ Counter.wall_ns
          ∷ Counter.grind_ns_max ∷ Counter.found_total ∷ Counter.builds ∷ Counter.build_ns
          ∷ Counter.build_ns_max ∷ Counter.drops ∷ [])
    ++ (Op.fetch_max Counter.build_ns_max 3 ∷ [])

some_calls-Mixes : Mixes (map (operations (λ (ms : ℕ). ms) true) some_calls) mixed
unfolding operations
some_calls-Mixes = turn [] _ _ _ refl (
    turn (_ ∷ []) _ _ _ refl (
      turn [] _ _ _ refl (
        turn (_ ∷ _ ∷ []) [] _ _ refl (
          turn (_ ∷ _ ∷ []) [] _ _ refl (
            turn (_ ∷ _ ∷ []) [] _ _ refl (
              turn (_ ∷ _ ∷ []) [] _ _ refl (
                turn (_ ∷ _ ∷ []) [] _ _ refl (
                  turn (_ ∷ _ ∷ []) [] _ _ refl (
                    turn (_ ∷ _ ∷ []) [] _ _ refl (
                      turn (_ ∷ _ ∷ []) [] _ _ refl (
                        turn (_ ∷ _ ∷ []) [] _ _ refl (
                          turn (_ ∷ _ ∷ []) [] _ _ refl (
                            turn (_ ∷ _ ∷ []) [] _ _ refl (
                              turn [] _ _ _ refl (finished (finished (finished done)))))))))))))))))

build_ns-IsTotal : IsTotal Counter.build_ns
unfolding IsTotal
build_ns-IsTotal = (refl, refl)

-- The three nanoseconds are in the window.
steps-conserve_example :
    (u64 (
        (steps mixed fresh).at Counter.build_ns
        + taken_of Counter.build_ns (steps mixed fresh).taken)
      ≡ 3)
    × ((s : Memory)
        → ((steps (operations (λ (ms : ℕ). ms) true flush_window) s).at Counter.build_ns ≡ 0)
          × (taken_of Counter.build_ns
                (steps (operations (λ (ms : ℕ). ms) true flush_window) s).taken
              ≡ s.at Counter.build_ns + taken_of Counter.build_ns s.taken))
unfolding recorded measured
steps-conserve_example =
    steps-conserve (λ (ms : ℕ). ms) true Counter.build_ns build_ns-IsTotal some_calls
      some_calls-Mixes

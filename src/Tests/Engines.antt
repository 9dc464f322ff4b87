-- ===== src/Tests/Engines.antt =====
-- The theorems on `grind_thread` (src/cpu_engine.rs) on a sweep of 300 tiles, on a run of two
-- setups that the stop flag ends, and on a batch of eight rows and 64 columns.
use aria_t.Base.{
  get_or, ℕ, ◌+◌, ◌*◌, ◌%◌, ◌≡◌, refl, arith, List, [], ◌∷◌, length, replicate, length-replicate,
  All, Bool, true, false, ltb,
}
use aria_t.Base.Words.{u64}
use aria_t.Cpu.{Cpu}
use aria_t.Noise.{MmSlice}
use aria_t.Engine.{JobSpec, Setup, grind_thread}
use aria_t.Engine.Sweep.{Run, Hit, sweep}
use aria_t.Engine.Attempts.{sweep-attempts}
use aria_t.Engine.Tested.{count, grid_sum, rows_sum, value, wins, sweep-found}
use aria_t.Jackpot.Flat.Laws.{length-upto}
use aria_t.Tests.Kernels.{upto-IsBytes, rows_of_four, columns_of_four, used_buffer}
use aria_t.Engine.Tiles.{tile_message, one, four, four_tiles-one_tile}
use aria_t.Engine.Hits.{IsWon, grind_thread-IsWon}

abbrev toy_hash : List ℕ → List ℕ
toy_hash bytes = replicate 32 (length bytes % 256)

abbrev toy_keyed_hash : List ℕ → List ℕ → List ℕ
toy_keyed_hash key bytes = replicate 32 (length bytes % 256)

abbrev one_message : ℕ → ℕ → List ℕ
one_message rg cg = rg ∷ cg ∷ []

abbrev four_messages : ℕ → ℕ → List (List ℕ)
four_messages rg cg =
    one_message rg cg
    ∷ one_message (rg + 1) cg
    ∷ one_message (rg + 2) cg
    ∷ one_message (rg + 3) cg
    ∷ []

abbrev never : ℕ → Bool
never n = false

abbrev counted : Run
counted = record { reads = 3; local = 2; attempts = 40; hits = [] }

sweep-attempts_example :
    ((sweep toy_keyed_hash [] [] [] [] never true four_messages one_message 30 10 8
        counted).attempts
      ≡ u64 (40 + 2 + 30 * 10))
    × ((sweep toy_keyed_hash [] [] [] [] never true four_messages one_message 30 10 8 counted).local
        ≡ 0)
sweep-attempts_example =
    sweep-attempts toy_keyed_hash [] [] [] [] never (λ n. refl) true four_messages (λ rg cg. refl)
      one_message 30 10 8 (omega arith) counted

-- A hash that keeps the row group and the column group, in a batch with one share.
abbrev marked : List ℕ → List ℕ → List ℕ
marked key bytes = get_or bytes 0 0 ∷ get_or bytes 4 0 ∷ []

abbrev any_hit : Hit → Bool
any_hit hit = true

-- Of five row groups and two column groups, the first of each alone is a share.
sweep-found_example :
    count any_hit
      (sweep marked [] [] (0 ∷ 1 ∷ []) [] never true four_messages one_message 5 2 8 counted).hits
    ≡ 1
unfolding count grid_sum rows_sum value wins aria_t.Target.Compare.slice_lt
    mathlib.Core.List.flat_map
sweep-found_example =
    sweep-found marked [] [] (0 ∷ 1 ∷ []) [] any_hit never (λ n. refl) true four_messages
      one_message (λ rg cg. refl) 5 2 8 (omega arith) counted

abbrev plain_host : Cpu
plain_host = record {
  avx512vnni = false;
  avx512bw = false;
  avx512f = false;
  avx512vbmi = false;
  avxvnni = false;
  avx2 = false;
}

abbrev easy_job : JobSpec
easy_job = record {
  job_id = 55 ∷ [];
  k = 2;
  r = 1;
  h = 1;
  w = 1;
  job_key = replicate 32 9;
  target = replicate 32 10;
  share_target = replicate 32 255;
}

abbrev two_setups : List Setup
two_setups =
    record { job = easy_job; a_bytes = 1 ∷ 200 ∷ []; b_bytes = 3 ∷ 4 ∷ [] }
    ∷ record { job = easy_job; a_bytes = 5 ∷ 6 ∷ []; b_bytes = 64 ∷ 127 ∷ [] }
    ∷ []

abbrev rows_of_ones : (label seed indices : List ℕ) → ℕ → List (List ℕ)
rows_of_ones label seed indices rank = []

abbrev no_pairs : (label seed : List ℕ) → ℕ → ℕ → List (ℕ × ℕ)
no_pairs label seed k rank = []

abbrev noise_of_one : ℕ → ℕ → List ℕ × List ℕ → List ℕ → List ℕ → MmSlice
noise_of_one k rank seeds a b = record {
  a = replicate k 1 ∷ [];
  b = replicate k 255 ∷ [];
  routing = [];
}

abbrev soon : ℕ → Bool
soon n = ltb 9 n

grind_thread-IsWon_example :
    All
      (IsWon two_setups)
      (grind_thread toy_hash toy_keyed_hash rows_of_ones no_pairs noise_of_one plain_host soon 1 1
        192 2 1 two_setups).run.hits
grind_thread-IsWon_example =
    grind_thread-IsWon toy_hash toy_keyed_hash rows_of_ones no_pairs noise_of_one plain_host soon 1
      1 192 2 1 two_setups

four_tiles-one_tile_example :
    (four toy_hash toy_keyed_hash rows_of_ones no_pairs noise_of_one plain_host soon 8 64 192 4 4
        rows_of_four columns_of_four [] used_buffer 0 false 0
      ≡ one toy_hash toy_keyed_hash rows_of_ones no_pairs noise_of_one plain_host soon 8 64 192 4 4
          rows_of_four columns_of_four [] used_buffer 0 false 0
        ∷ one toy_hash toy_keyed_hash rows_of_ones no_pairs noise_of_one plain_host soon 8 64 192 4
            4 rows_of_four columns_of_four [] used_buffer 0 false 1
        ∷ one toy_hash toy_keyed_hash rows_of_ones no_pairs noise_of_one plain_host soon 8 64 192 4
            4 rows_of_four columns_of_four [] used_buffer 0 false 2
        ∷ one toy_hash toy_keyed_hash rows_of_ones no_pairs noise_of_one plain_host soon 8 64 192 4
            4 rows_of_four columns_of_four [] used_buffer 0 false 3
        ∷ [])
    × (one toy_hash toy_keyed_hash rows_of_ones no_pairs noise_of_one plain_host soon 8 64 192 4 4
          rows_of_four columns_of_four [] used_buffer 0 false 0
        ≡ tile_message rows_of_four columns_of_four 4 4 0 0)
four_tiles-one_tile_example =
    four_tiles-one_tile toy_hash toy_keyed_hash rows_of_ones no_pairs noise_of_one plain_host soon 8
      64 192 4 4 rows_of_four columns_of_four [] used_buffer 0 (upto-IsBytes 32 200 (omega arith))
      (omega arith) refl (length-upto 200 32) (length-upto 0 256)
      (omega (arith, length-replicate {A = ℕ} 512 7)) (omega arith) false 0 (omega arith)

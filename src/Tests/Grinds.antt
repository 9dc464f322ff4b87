-- ===== src/Tests/Grinds.antt =====
-- The theorems on the official grind (src/official_grind.rs) at concrete inputs: a tree of three
-- leaves, and a batch of one tile of two rows and 64 columns.
use mathlib.Core.List.{flat_map}
use aria_t.Base.{
  ℕ, zero, suc, ◌+◌, ◌-◌, ◌*◌, ◌%◌, ◌≤◌, ◌<◌, ◌≡◌, refl, arith, List, [], ◌∷◌, ◌++◌, map, replicate,
  length, take, get_or,
}
use aria_t.Base.{All, length-map, length-replicate, true, false, ◌==◌, Option, some}
use aria_t.Base.Words.{IsByte, IsBytes}
use aria_t.Base.Results.{ok}
use aria_t.Cpu.{Cpu}
use aria_t.Jackpot.Flat.{upto}
use aria_t.Jackpot.Flat.Laws.{length-upto}
use aria_t.Jackpot.Tile.{range}
use aria_t.Noise.{MmSlice}
use aria_t.Noise.Laws.{IsPair}
use aria_t.Noise.Shapes.{IsNoise}
use aria_t.Grind.{Workspace, new_workspace}
use aria_t.Grind.Buffers.{IsEven}
use aria_t.Grind.Partition.{Pattern, filter, is_multiple_of}
use aria_t.Grind.Mine.Paths.{IsTiling}
use aria_t.Grind.Assemble.{
  assemble_matrix_proof, collect, insert, node, sum, sibling_walk, level_siblings, parents,
  contains,
}
use aria_t.Grind.Assemble.Verify.{Node, rebuild, with_nodes, AreJoined}
use aria_t.Grind.Assemble.Rebuild.{AreLayers, top, joined, at, assemble-rebuild}
use aria_t.Grind.Attempt.{Official, Config, prologue, proof_of, try_mine_one_bounded}
use aria_t.Grind.Attempt.Laws.{Outcomes, try_mine_one_bounded-Decides}

pub new_workspace-IsEven : IsEven new_workspace
new_workspace-IsEven = record {
  a_sig = refl;
  a_noised = refl;
  a_tiled = refl;
  b_sig = refl;
  b_noised_t = refl;
  b_all = refl;
  b_packed = refl;
}

-- A hash of nodes that are 32 times one byte.
abbrev join : ℕ → Node → Node → Node
join len x y = replicate 32 (get_or x 0 0 + 2 * get_or y 0 0 + len)

abbrev bytes_of : ℕ → List ℕ
bytes_of v = replicate 32 v

-- Leaves 1, 2 and 3; the third is carried up.
abbrev some_layers : List ℕ
some_layers = flat_map bytes_of (1 ∷ 2 ∷ 3 ∷ 8 ∷ 3 ∷ 16 ∷ [])

abbrev some_lens : List ℕ
some_lens = 3 ∷ 2 ∷ 1 ∷ []

leaves-AreJoined :
    AreJoined
      (join 3)
      3
      (at join some_layers some_lens (bytes_of 16) 0)
      (at join some_layers some_lens (bytes_of 16) 1)
unfolding AreJoined node sum range flat_map
leaves-AreJoined zero h = refl
leaves-AreJoined (suc zero) h = refl
leaves-AreJoined (suc (suc i)) h = absurd (omega arith)

pairs-AreJoined :
    AreJoined
      (join 2)
      2
      (at join some_layers some_lens (bytes_of 16) 1)
      (at join some_layers some_lens (bytes_of 16) 2)
unfolding AreJoined node sum range flat_map
pairs-AreJoined zero h = refl
pairs-AreJoined (suc i) h = absurd (omega arith)

top-root : at join some_layers some_lens (bytes_of 16) 2 0 ≡ bytes_of 16
unfolding node sum range flat_map
top-root = refl

some-AreLayers : AreLayers join some_layers some_lens (bytes_of 16) 0 3
some-AreLayers =
    joined (omega arith) leaves-AreJoined (joined (omega arith) pairs-AreJoined (top refl top-root))

assemble-rebuild_example :
    rebuild 3 join 3
      (with_nodes (at join some_layers some_lens (bytes_of 16) 0) (collect (2 ∷ 0 ∷ 2 ∷ [])))
      (assemble_matrix_proof some_layers some_lens
        (bytes_of 16)
        []
        (2 ∷ 0 ∷ 2 ∷ [])
        (7 ∷ [])).siblings
    ≡ some (record { known = (0, bytes_of 16) ∷ []; left = [] })
assemble-rebuild_example =
    assemble-rebuild join some_layers some_lens (bytes_of 16) [] (2 ∷ 0 ∷ 2 ∷ []) (7 ∷ [])
      some-AreLayers (omega arith) (omega arith)

siblings_run :
    (assemble_matrix_proof some_layers some_lens
      (bytes_of 16)
      []
      (2 ∷ 0 ∷ 2 ∷ [])
      (7 ∷ [])).siblings
    ≡ bytes_of 2 ∷ []
unfolding assemble_matrix_proof sibling_walk level_siblings parents collect insert contains node sum
    range flat_map
siblings_run = refl

-- Rows 0 and 1, and 64 columns in a row.
abbrev pub two_rows : Pattern
two_rows = record { period = 2; to_list = 0 ∷ 1 ∷ []; offset_is_valid = λ o. o % 2 == 0 }

abbrev pub all_cols : Pattern
all_cols = record { period = 64; to_list = upto 0 64; offset_is_valid = λ o. o % 64 == 0 }

two_rows-IsTiling : IsTiling two_rows 2
unfolding is_multiple_of filter upto
two_rows-IsTiling = record {
  divides = refl;
  inside = λ o h valid. let z : o ≡ 0 = ground arith in rw z (omega arith);
  covers = refl;
}

upto-below : (hi u n : ℕ) → u + n ≤ hi → All (λ d. 0 + d < hi) (upto u n)
unfolding upto
upto-below hi u zero h = tt
upto-below hi u (suc n) h = (omega arith, upto-below hi (u + 1) n (omega arith))

all_cols-IsTiling : IsTiling all_cols 64
unfolding is_multiple_of filter upto
all_cols-IsTiling = record {
  divides = refl;
  inside = λ o h valid. let z : o ≡ 0 = ground arith in rw z (upto-below 64 0 64 (omega arith));
  covers = refl;
}

-- Generators of the documented shapes, and hashes of the right lengths.
abbrev one_rows : (label seed indices : List ℕ) → ℕ → List (List ℕ)
one_rows label seed indices rank = map (λ i. replicate rank 1) indices

abbrev first_pairs : (label seed : List ℕ) → ℕ → ℕ → List (ℕ × ℕ)
first_pairs label seed k rank = replicate k (0, rank - 1)

abbrev some_noise : ℕ → ℕ → List ℕ × List ℕ → List ℕ → List ℕ → MmSlice
some_noise k rank seeds a b = record {
  a = map (λ i. replicate k 3) a;
  b = map (λ i. replicate k 5) b;
  routing = [];
}

replicate-All {ℓ κ} : {A : Type ℓ} (P : A → Type κ) (n : ℕ) (x : A) → P x → All P (replicate n x)
replicate-All P zero x h = tt
replicate-All P (suc n) x h = (h, replicate-All P n x h)

one_rows-IsBytes :
    (label seed indices : List ℕ) (rank : ℕ) → All IsBytes (one_rows label seed indices rank)
one_rows-IsBytes label seed [] rank = tt
one_rows-IsBytes label seed (i ∷ indices) rank =
    (replicate-All IsByte rank 1 (omega arith), one_rows-IsBytes label seed indices rank)

some_noise-IsNoise : IsNoise one_rows first_pairs some_noise
some_noise-IsNoise = record {
  a_row_an_index = λ label seed indices rank. length-map _ indices;
  of_bytes = one_rows-IsBytes;
  a_pair_a_column = λ label seed k rank. length-replicate k (0, rank - 1);
  of_indices = λ label seed k rank h. replicate-All (IsPair rank) k (0, rank - 1) (h, omega arith);
  noise_a = λ k rank seeds a b. length-map _ a;
  noise_b = λ k rank seeds a b. length-map _ b;
}

abbrev pub some_official : Official
some_official = record {
  Multileaf = List ℕ;
  blake3_digest = λ key xs. take 32 (xs ++ replicate 32 9);
  pad_to_chunk_boundary = λ xs. xs;
  compute_jackpot_hash = λ msg seed. take 32 (msg ++ replicate 32 0);
  compute_leaf_indices_from_rows = λ rows m k. 0 ∷ [];
  get_multileaf_proof = λ matrix key leaves. leaves;
  generate_uniform_random_matrix = one_rows;
  generate_permutation_matrix = first_pairs;
  compute_noise_for_indices = some_noise;
}

abbrev pub some_config : Config
some_config = record { bytes = 1 ∷ []; rank = 4; rows_pattern = two_rows; cols_pattern = all_cols }

abbrev vector_host : Cpu
vector_host = record {
  avx512vnni = true;
  avx512bw = true;
  avx512f = true;
  avx512vbmi = false;
  avxvnni = false;
  avx2 = true;
}

try_mine_one_bounded-Decides_example :
    (ws' : Workspace) × (hit : Option (List ℕ × List ℕ)) × (try_mine_one_bounded some_official
        vector_host
        (2 ∷ [])
        some_config
        2
        64
        4
        256
        (replicate 32 255)
        (upto 0 8)
        (upto 7 256)
        new_workspace
      ≡ ok (
        ws',
        proof_of some_official vector_host
            (2 ∷ [])
            some_config
            2
            64
            4
            (prologue some_official vector_host
              (2 ∷ [])
              some_config
              2
              64
              4
              (upto 0 8)
              (upto 7 256)
              new_workspace)
            hit,
      ))
    × Outcomes some_official vector_host
        (2 ∷ [])
        some_config
        2
        64
        4
        (upto 0 8)
        (upto 7 256)
        new_workspace
        (replicate 32 255)
        hit
try_mine_one_bounded-Decides_example =
    try_mine_one_bounded-Decides some_official vector_host (2 ∷ []) some_config 2 64 4 (upto 0 8)
      (upto 7 256) (length-upto 0 8) (length-upto 7 256) new_workspace new_workspace-IsEven tt
      some_noise-IsNoise 256 (replicate 32 255) (omega arith) (omega arith) refl cells
      two_rows-IsTiling all_cols-IsTiling
  where
    cells : length two_rows.to_list * length all_cols.to_list ≤ 256
    cells = omega (arith, length-upto 0 64)

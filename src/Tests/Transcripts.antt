-- ===== src/Tests/Transcripts.antt =====
-- The theorems on the transcript, the tree, the proof bytes (src/gemm.rs, src/merkle.rs,
-- src/proof.rs) and the official job (src/stratum_to_official.rs) at concrete inputs.
use aria_t.Base.{
  ℕ, max, ◌≡◌, refl, arith, Option, some, List, [], ◌∷◌, ◌++◌, map, length, get_elem?, replicate,
}
use aria_t.Base.Texts.{Text}
use aria_t.Base.Words.{u32}
use aria_t.Protocol.{MiningParams}
use aria_t.Transcript.{TranscriptCell, build_transcript_cpu}
use aria_t.Transcript.Cells.{products, build_transcript_cpu-get}
use aria_t.Transcript.Tree.{AreLevels, build, hash_leaf, build-AreLevels}
use aria_t.Transcript.Encode.{ProofInputs, encode_cells, read_cells}
use aria_t.Transcript.Encode.{read_cells-encode_cells}
use aria_t.Official.{Consensus, fit_dim}
use aria_t.Official.Dims.{IsFit, fit_dim-IsFit}

-- A stand-in for the hashes: the bytes themselves.
abbrev keyed_id : List ℕ → List ℕ → List ℕ
keyed_id key bytes = bytes ++ key

abbrev id_hash : List ℕ → List ℕ
id_hash bytes = bytes

abbrev small_params : MiningParams
small_params = record {
  m = 8;
  n = 8;
  k = 4;
  rank = 1;
  rows_pattern = 0 ∷ 3 ∷ [];
  cols_pattern = 1 ∷ 2 ∷ 5 ∷ [];
  mma_type = [];
}

build_transcript_cpu-get_example :
    get_elem? (build_transcript_cpu keyed_id (9 ∷ []) small_params) 5
    ≡ some record { row = 3; col = 5; value = u32 (products keyed_id (9 ∷ []) 3 5 4 0) }
build_transcript_cpu-get_example =
    build_transcript_cpu-get keyed_id (9 ∷ []) small_params 1 2 3 5 refl refl

abbrev two_cells : List TranscriptCell
two_cells =
    record { row = 3; col = 5; value = 700 } ∷ record { row = 65535; col = 0; value = 1 } ∷ []

build-AreLevels_example :
    (above : List (List (List ℕ))) × (build id_hash two_cells
      ≡ some (map (hash_leaf id_hash) two_cells ∷ above))
    × AreLevels id_hash (map (hash_leaf id_hash) two_cells ∷ above)
build-AreLevels_example = build-AreLevels id_hash two_cells

read_cells-encode_cells_example :
    read_cells 2 (encode_cells two_cells ++ (8 ∷ [])) ≡ (two_cells, 8 ∷ [])
read_cells-encode_cells_example =
    read_cells-encode_cells two_cells (8 ∷ [])
      ((omega arith, omega arith, omega arith), ((omega arith, omega arith, omega arith), tt))

abbrev node : List ℕ
node = replicate 32 1

abbrev inputs : ProofInputs
inputs = record {
  cells = two_cells;
  levels = (node ∷ node ∷ node ∷ []) ∷ (node ∷ node ∷ []) ∷ (node ∷ []) ∷ [];
  nonce = 42;
  pow_hash = node;
}

-- Period 80, largest index 72.
fit_dim-IsFit_example : IsFit (max 80 1) 1024 72 (fit_dim 1024 80 72)
fit_dim-IsFit_example = fit_dim-IsFit 1024 80 72 (omega arith) (omega arith)

abbrev large : IsFit (max 80 1) 1024 72 1120
large = record { blocks = 14; multiple = omega arith; above = omega arith; enough = omega arith }

abbrev consensus : Consensus
consensus = record {
  Header = List ℕ;
  Pattern = List ℕ;
  header_from_bytes = some;
  pattern_from_list = some;
  period = length;
  max_index = length;
  size = length;
  dot_product_length = λ common_dim rank. common_dim;
  penalty_base_rank = 128;
}

abbrev header : List ℕ
header = replicate 76 7

-- A decoder that knows two texts.
abbrev hex_two : Text → Option (List ℕ)
hex_two [] = some header
hex_two (x ∷ s) = some (header ++ replicate 4 0)
